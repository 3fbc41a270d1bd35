-- ===== src/Reporter/Bounds.antt =====
-- The counts of a group of the report.
use mathlib.Core.List.{Nodup}
use mathlib.Core.List.Perm
use mathlib.Core.HLevel.{×_prop}
use native.Mathlib.Bridge.{le_prop}
use argus_core.Base.{
  ℕ, ◌*◌, ◌≤◌, ◌<◌, List, [], ◌∷◌, map, false, ◌≡◌, ◌≢◌, refl, sym, ◌∙◌, arith, length, length-map,
  All, All-mono, All-map, All-filter, All-perm, if_neg, ℕ_discrete,
}
use argus_core.HashMap.{Iteration, set_insert}
use argus_core.HashMap.Sets.{length-keys, length-key_set}
use argus_core.HashMap.Inhabited.{key_set-HasMembers}
use argus_core.Types.{Address, B256, StorageLocation, AccessList, Conflict}
use argus_core.Types.ConflictGraph.{ConflictGraph}
use argus_core.Types.ConflictGraph.Adjacency.{any_joins, both_ends, length-both_ends}
use argus_core.Simulator.Dedup.Ascending.{IsAscending}
use argus_core.Graph.{Accessor, build_conflict_graph}
use argus_core.Graph.Build.{build-IsConsistent}
use argus_core.Graph.Queries.Irreflexive.{has_conflict_irrefl}
use argus_core.Reporter.Build.{ContractConflicts, ConflictGroup, Display, to_group, build}
use argus_core.Reporter.Totals.{tally, at_address, addresses_of, group_at, build-perm-groups}

-- An edge of two transactions.
abbrev HasTwoEnds : Conflict → Type 0
HasTwoEnds c = c.tx_a ≢ c.tx_b

two_ends : (a b : B256) → a ≢ b → length (set_insert ℕ_discrete b (set_insert ℕ_discrete a [])) ≡ 2
unfolding set_insert
two_ends a b h = rw (if_neg (ℕ_discrete a b) h) refl

abbrev pub IsBounded : ConflictGroup → Type 0
IsBounded g =
    ((0 < g.slot_count) × (g.slot_count ≤ g.conflict_count))
    × ((2 ≤ g.tx_count) × (g.tx_count ≤ 2 * g.conflict_count))

-- The transactions of edges at one contract: two of the first edge alone.
length-tx_hashes :
    (c : Conflict) (cs : List Conflict)
    → HasTwoEnds c
    → (2 ≤ length (tally (c ∷ cs)).tx_hashes)
      × (length (tally (c ∷ cs)).tx_hashes ≤ 2 * length (c ∷ cs))
length-tx_hashes c cs h =
    let first = set_insert ℕ_discrete c.tx_b (set_insert ℕ_discrete c.tx_a []) in
    omega (
      arith,
      two_ends c.tx_a c.tx_b h,
      length-both_ends cs,
      length-key_set ℕ_discrete (λ x. x) first (both_ends cs),
    )

length-slots :
    (c : Conflict) (cs : List Conflict)
    → (0 < length (tally (c ∷ cs)).slots) × (length (tally (c ∷ cs)).slots ≤ length (c ∷ cs))
length-slots c cs =
    let slots = map (λ c. c.location.slot) (c ∷ cs) in
    let count = length-map (λ c. c.location.slot) (c ∷ cs) in
    omega (arith, count, length-keys ℕ_discrete (λ x. x) slots (omega arith))

tally-IsBounded :
    (display : Display) (a : Address) (cs : List Conflict)
    → 0 < length cs
    → All HasTwoEnds cs
    → IsBounded (to_group display (a, tally cs))
unfolding to_group
tally-IsBounded display a [] h k = absurd (omega (arith, h))
tally-IsBounded display a (c ∷ cs) h k = (length-slots c cs, length-tx_hashes c cs k.0)

-- No edge joins a transaction to itself.
HasTwoEnds-all : (cs : List Conflict) → ((a : B256) → any_joins a a cs ≡ false) → All HasTwoEnds cs
HasTwoEnds-all [] h = tt
HasTwoEnds-all (c ∷ cs) h =
    ((λ same. absurd (ground (arith, h c.tx_a))), HasTwoEnds-all cs (λ a. ground (arith, h a)))

IsBounded-prop : (g : ConflictGroup) → IsProp (IsBounded g)
IsBounded-prop g = ×_prop (×_prop le_prop le_prop) (×_prop le_prop le_prop)

module _ {Duration : Type 0} (display : Display) (it : Iteration (Address × ContractConflicts))
    (locations : Iteration (StorageLocation × List Accessor)) (block_number : ℕ)
    (lists : List AccessList) (fetch_time total_time : Duration) where
  abbrev graph : ConflictGraph
  graph = build_conflict_graph locations lists

  abbrev groups : List ConflictGroup
  groups = (build display it block_number lists graph fetch_time total_time).groups

  -- For a batch of transactions with different hashes and strictly ascending access lists, as the
  -- simulator's are, every group of the report of its graph counts at least one slot and no more
  -- slots than edges, and at least two transactions and no more than two for each edge.
  pub build-IsBounded :
      Nodup (map (λ al. al.tx_hash) lists)
      → All (λ al. IsAscending al.entries) lists
      → All IsBounded groups
  build-IsBounded d h =
      let cs = graph.conflicts in
      let two : All HasTwoEnds cs = HasTwoEnds-all cs (λ a.
        sym ((build-IsConsistent locations lists).same a a)
        ∙ has_conflict_irrefl locations lists a d h) in
      let at = group_at display it block_number lists graph fetch_time total_time in
      All-perm IsBounded IsBounded-prop
        (Perm.symm (build-perm-groups display it block_number lists graph fetch_time total_time))
        (All-map IsBounded at (addresses_of cs) (
          All-mono (addresses_of cs)
            (λ a m.
              tally-IsBounded display a (at_address a cs) m
                (All-filter HasTwoEnds (λ c. ℕ_discrete c.location.address a) cs two))
            (key_set-HasMembers ℕ_discrete (λ c. c.location.address) cs)))
