-- ===== src/Simulator/Dedup/Ascending.antt =====
-- The order of the locations after the deduplication.
use argus_core.Base.{List, [], ◌∷◌, ◌≢◌, All, All-mono, arith}
use Prim.Native.Nat.{Ordering}
use argus_core.Slices.{sort_by}
use argus_core.Slices.Sorted.{IsSorted, sort_by-IsSorted}
use argus_core.Types.{StorageLocation_discrete, AccessEntry}
use argus_core.Simulator.Dedup.{cmp_entry, dedup_after, dedup, canonical}
use argus_core.Simulator.Dedup.Comparison.{
  Before, Before-trans, cmp_entry-precede, cmp_entry-IsOrder, dedup_after_same, dedup_after_ne,
}

-- Each location comes strictly before all later ones; so no location stands twice.
abbrev pub IsAscending : List AccessEntry → Type 0
IsAscending [] = Unit
IsAscending (a ∷ rest) = All (λ b. Before a.location b.location) rest × IsAscending rest

Before-of_ne :
    (a b : AccessEntry)
    → cmp_entry a b ≢ Ordering.gt
    → b.location ≢ a.location
    → Before a.location b.location
Before-of_ne a b h other = ground (arith, cmp_entry-precede a b h)

-- The entries that stay behind `last` come after it, and ascend.
dedup_after-IsAscending :
    (last : AccessEntry) (rest : List AccessEntry)
    → All (λ b. cmp_entry last b ≢ Ordering.gt) rest
    → IsSorted cmp_entry rest
    → All (λ b. Before last.location b.location) (dedup_after last rest)
      × IsAscending (dedup_after last rest)
unfolding dedup_after
dedup_after-IsAscending last [] h s = (tt, tt)
dedup_after-IsAscending last (a ∷ rest) h s =
    elim (StorageLocation_discrete a.location last.location) [
      | yes p ↦ rw (dedup_after_same last a rest p) (dedup_after-IsAscending last rest h.1 s.1)
      | no p ↦
          let (after, ascending) = dedup_after-IsAscending a rest s.0 s.1 in
          let first = Before-of_ne last a h.0 p in
          rw (dedup_after_ne last a rest p) (
            (first, All-mono (dedup_after a rest) (λ b q. Before-trans _ _ _ first q) after),
            (after, ascending),
          )
    ]

pub dedup-IsAscending : (l : List AccessEntry) → IsSorted cmp_entry l → IsAscending (dedup l)
unfolding dedup
dedup-IsAscending [] s = tt
dedup-IsAscending (a ∷ rest) s = dedup_after-IsAscending a rest s.0 s.1

-- The entries of an access list ascend strictly by location, whatever was recorded.
pub canonical-IsAscending : (entries : List AccessEntry) → IsAscending (canonical entries)
unfolding canonical
canonical-IsAscending entries =
    dedup-IsAscending (sort_by cmp_entry entries)
      (sort_by-IsSorted cmp_entry cmp_entry-IsOrder entries)
