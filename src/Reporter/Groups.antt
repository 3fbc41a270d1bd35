-- ===== src/Reporter/Groups.antt =====
-- The groups of a report, field by field.
use Prim.Native.String.{String, ◌++◌}
use mathlib.Core.Path.{fun_ext}
use mathlib.Core.List.{Perm, map-id}
use argus_core.Base.{
  List, ℕ, zero, suc, map, none, some, ◌≡◌, refl, arith, length, sum_by, Option-cases, inl, inr,
  flat_map, [], ◌∷◌, subst, ℕ_discrete,
}
use argus_core.HashMap.{Iteration}
use argus_core.HashMap.Once.{EachOnce, key_set-EachOnce}
use argus_core.Types.{Address, AccessList, Conflict}
use argus_core.Types.ConflictGraph.{ConflictGraph}
use argus_core.Provider.Labels.{lookup}
use argus_core.Reporter.Build.{
  ContractConflicts, ConflictGroup, Display, label_of, kind_summary_of, to_group, build,
}
use argus_core.Reporter.Totals.{
  is_ww, is_rw, distinct, tally, at_address, addresses_of, build-perm-groups,
}

module _ (display : Display) where
  open display use {show_number, show_address}

  -- The text on the kinds of a number of write-write edges and a number of read-write edges.
  abbrev pub kinds_text : ℕ → ℕ → String
  kinds_text zero rw = show_number rw ++ " R-W"
  kinds_text (suc ww) zero = show_number (suc ww) ++ " W-W"
  kinds_text (suc ww) (suc rw) =
      show_number (suc ww) ++ (" W-W, " ++ (show_number (suc rw) ++ " R-W"))

  -- What a report says of a contract whose edges are listed.
  abbrev pub contract_group : Address → List Conflict → ConflictGroup
  contract_group a edges = record {
    address = a;
    protocol = elim (lookup a) [ some l ↦ l.protocol | none ↦ "Unknown" ];
    label = elim (lookup a) [ some l ↦ l.name | none ↦ show_address a ];
    slot_count = length (distinct (map (λ c. c.location.slot) edges));
    tx_count = length (distinct (flat_map (λ c. c.tx_a ∷ c.tx_b ∷ []) edges));
    conflict_count = length edges;
    kind_summary = kinds_text (sum_by is_ww edges) (sum_by is_rw edges);
  }

  kind_summary_of-kinds_text :
      (cc : ContractConflicts) → kind_summary_of display cc ≡ kinds_text cc.ww_count cc.rw_count
  unfolding kind_summary_of
  kind_summary_of-kinds_text cc = ground arith

  to_group-contract_group :
      (a : Address) (edges : List Conflict)
      → to_group display (a, tally edges) ≡ contract_group a edges
  unfolding to_group label_of
  to_group-contract_group a edges = elim (Option-cases (lookup a)) [
    | inl e ↦ rw (label_of, e, kind_summary_of-kinds_text (tally edges)) refl
    | inr (l, e) ↦ rw (label_of, e, kind_summary_of-kinds_text (tally edges)) refl
  ]

  -- The report has exactly one group for each contract with edges. It has the contract's address and
  -- label, as many slots and transactions as are distinct among its edges, the number of these edges,
  -- and the text on how many of them are of either kind. The list of contracts and those of distinct
  -- slots and transactions have the members of what they are taken from, each once.
  pub build-perm-contract_group :
      {Duration : Type 0} (it : Iteration (Address × ContractConflicts)) (block_number : ℕ)
      (lists : List AccessList) (graph : ConflictGraph) (fetch_time total_time : Duration)
      → Perm (build display it block_number lists graph fetch_time total_time).groups (
          map (λ a. contract_group a (at_address a graph.conflicts)) (addresses_of graph.conflicts))
        × EachOnce (map (λ c. c.location.address) graph.conflicts) (addresses_of graph.conflicts)
        × ((xs : List ℕ) → EachOnce xs (distinct xs))
  build-perm-contract_group it block_number lists graph fetch_time total_time = (
    rw (fun_ext (λ a. to_group-contract_group a (at_address a graph.conflicts))) at
        (build-perm-groups display it block_number lists graph fetch_time total_time),
    key_set-EachOnce ℕ_discrete (λ c. c.location.address) graph.conflicts,
    λ xs.
        subst (λ ys. EachOnce ys (distinct xs)) (map-id xs)
          (key_set-EachOnce ℕ_discrete (λ x. x) xs),
  )
