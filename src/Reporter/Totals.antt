-- ===== src/Reporter/Totals.antt =====
-- The groups of a report against the edge list.
use mathlib.Core.Path.{fun_ext}
use mathlib.Core.List.{Perm, Nodup-nil, map-map}
use mathlib.Core.List.Perm
use argus_core.Base.{
  ℕ, ◌+◌, ◌≤◌, All, All-mono, sum_by-ext, List, [], ◌∷◌, map, foldl, flat_map, ◌≡◌, sym, ap, ◌∙◌,
  arith, length, sum_by, sum_by-perm, sum_by-map, length-eq-sum_by, ℕ_discrete,
}
use argus_core.HashMap.{Iteration}
use argus_core.HashMap.Grouping.{members, key_set}
use argus_core.HashMap.Entries.{group_loop-eq-map, key_set-Nodup, All-key_set}
use argus_core.HashMap.Regroup.{sum_by-regroup}
use argus_core.Slices.Sorted.{IsSorted, IsOrder, sort_by-perm, sort_by-IsSorted}
use argus_core.Types.{Address, AccessList, Conflict, write_write, read_write}
use argus_core.Types.ConflictGraph.{ConflictGraph, len}
use argus_core.Reporter.Build.{
  ContractConflicts, no_conflicts, add_to_contract, by_address, ConflictGroup, Report, Display,
  to_group, cmp_group, build,
}

abbrev pub is_ww : Conflict → ℕ
is_ww c = elim c.kind [ write_write ↦ 1 | read_write ↦ 0 ]

abbrev pub is_rw : Conflict → ℕ
is_rw c = elim c.kind [ write_write ↦ 0 | read_write ↦ 1 ]

-- The distinct elements, in the order of their first occurrence.
abbrev pub distinct : List ℕ → List ℕ
distinct = key_set ℕ_discrete (λ x. x) []

-- What the edges of one contract amount to, read off the edges.
abbrev pub tally : List Conflict → ContractConflicts
tally cs = record {
  slots = distinct (map (λ c. c.location.slot) cs);
  tx_hashes = distinct (flat_map (λ c. c.tx_a ∷ c.tx_b ∷ []) cs);
  conflict_count = length cs;
  ww_count = sum_by is_ww cs;
  rw_count = sum_by is_rw cs;
}

-- The edges at a contract.
abbrev pub at_address : Address → List Conflict → List Conflict
at_address = members ℕ_discrete (λ c. c.location.address)

abbrev pub addresses_of : List Conflict → List Address
addresses_of = key_set ℕ_discrete (λ c. c.location.address) []

-- The tally of more edges, on top of an earlier one.
abbrev tally_from : ContractConflicts → List Conflict → ContractConflicts
tally_from e cs = record {
  slots = key_set ℕ_discrete (λ x. x) e.slots (map (λ c. c.location.slot) cs);
  tx_hashes = key_set ℕ_discrete (λ x. x) e.tx_hashes (flat_map (λ c. c.tx_a ∷ c.tx_b ∷ []) cs);
  conflict_count = e.conflict_count + length cs;
  ww_count = e.ww_count + sum_by is_ww cs;
  rw_count = e.rw_count + sum_by is_rw cs;
}

foldl-tally :
    (e : ContractConflicts) (cs : List Conflict) → foldl add_to_contract e cs ≡ tally_from e cs
unfolding add_to_contract
foldl-tally e [] = ground arith
foldl-tally e (c ∷ cs) = ground (arith, foldl-tally (add_to_contract e c) cs)

-- The map holds the tally of each contract that has edges.
by_address-tally :
    (cs : List Conflict)
    → by_address cs
      ≡ map
          (λ a. let e : Address × ContractConflicts = (a, tally (at_address a cs)) in e)
          (addresses_of cs)
unfolding by_address
by_address-tally cs =
    group_loop-eq-map ℕ_discrete (λ c. c.location.address) no_conflicts add_to_contract cs
    ∙ ap (λ (f : Address → Address × ContractConflicts). map f (addresses_of cs))
        (fun_ext (λ a.
          ap (λ (e : ContractConflicts). let p : Address × ContractConflicts = (a, e) in p)
            (foldl-tally no_conflicts (at_address a cs) ∙ ground arith)))

-- No group has more edges than one before it.
abbrev pub IsDescending : List ConflictGroup → Type 0
IsDescending [] = Unit
IsDescending (g ∷ gs) = All (λ h. h.conflict_count ≤ g.conflict_count) gs × IsDescending gs

module _ (display : Display) where
  cmp_group-IsOrder : IsOrder (cmp_group display)
  cmp_group-IsOrder = record { flip = λ x y h. ground arith; le_trans = λ x y z h k. ground arith }

  IsDescending-of_sorted :
      (gs : List ConflictGroup) → IsSorted (cmp_group display) gs → IsDescending gs
  IsDescending-of_sorted [] s = tt
  IsDescending-of_sorted (g ∷ gs) s =
      (All-mono gs (λ h p. ground arith) s.0, IsDescending-of_sorted gs s.1)

module _ {Duration : Type 0} (display : Display) (it : Iteration (Address × ContractConflicts))
    (block_number : ℕ) (lists : List AccessList) (graph : ConflictGraph)
    (fetch_time total_time : Duration) where
  abbrev report : Report Duration
  report = build display it block_number lists graph fetch_time total_time

  -- The group of a contract, read off the edges.
  abbrev pub group_at : Address → ConflictGroup
  group_at a = to_group display (a, tally (at_address a graph.conflicts))

  -- The report has exactly one group for each contract with edges, whose counts are those of the
  -- edges there: distinct slots, distinct transactions, edges, and edges of either kind.
  pub build-perm-groups : Perm report.groups (map group_at (addresses_of graph.conflicts))
  unfolding build
  build-perm-groups =
      let m = by_address graph.conflicts in
      let entry : Address → Address × ContractConflicts =
        λ a. (a, tally (at_address a graph.conflicts)) in
      let listed : map (to_group display) m ≡ map group_at (addresses_of graph.conflicts) =
        ap (map (to_group display)) (by_address-tally graph.conflicts)
        ∙ map-map (to_group display) entry (addresses_of graph.conflicts) in
      Perm.trans (sort_by-perm (cmp_group display) (map (to_group display) (it.arrange m)))
        (rw (← listed) (Perm.map (to_group display) (it.arrange-perm m)))

  -- The groups stand in descending order of their edges.
  pub build-IsDescending : IsDescending report.groups
  unfolding build
  build-IsDescending = IsDescending-of_sorted display report.groups (
      sort_by-IsSorted (cmp_group display) (cmp_group-IsOrder display)
        (map (to_group display) (it.arrange (by_address graph.conflicts))))

  -- Every edge is counted in exactly one group: the groups' counts add up to the total.
  pub build-total_conflicts : sum_by (λ g. g.conflict_count) report.groups ≡ report.total_conflicts
  unfolding build to_group len
  build-total_conflicts =
      let cs = graph.conflicts in
      let ks = addresses_of cs in
      sum_by-perm (λ g. g.conflict_count) build-perm-groups
      ∙ sum_by-map group_at (λ g. g.conflict_count) ks
      ∙ sum_by-ext (λ a. length-eq-sum_by (at_address a cs)) ks
      ∙ sum_by-regroup ℕ_discrete (λ c. c.location.address) (λ _. 1) ks cs
          (key_set-Nodup ℕ_discrete (λ c. c.location.address) [] cs Nodup-nil)
          (All-key_set ℕ_discrete (λ c. c.location.address) [] cs)
      ∙ sym (length-eq-sum_by cs)
