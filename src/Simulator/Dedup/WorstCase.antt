-- ===== src/Simulator/Dedup/WorstCase.antt =====
-- Which mode an access list records for a location: the worst one that occurred there.
use Prim.Native.Nat.{Ordering}
use mathlib.Core.List.{Perm, Permᴰ}
use mathlib.Core.Logic.{∥∥₁_elim}
use argus_core.Base.{List, [], ◌∷◌, Option, none, some, ite, ◌≡◌, ◌≢◌, refl, ◌∙◌, All, arith}
use argus_core.Slices.{sort_by}
use argus_core.Slices.Sorted.{IsSorted, sort_by-IsSorted, sort_by-perm}
use argus_core.Types.{
  StorageLocation, StorageLocation_discrete, AccessMode, read, write, AccessEntry,
}
use argus_core.Simulator.Dedup.{cmp_entry, dedup_after, dedup, canonical}
use argus_core.Simulator.Dedup.Comparison.{
  Before-irrefl, cmp_entry-precede, cmp_entry-IsOrder, dedup_after_same, dedup_after_ne,
}

-- The mode of the first entry at a location.
abbrev pub mode_at : StorageLocation → List AccessEntry → Option AccessMode
mode_at location [] = none
mode_at location (a ∷ rest) =
    ite (StorageLocation_discrete a.location location) (some a.mode) (mode_at location rest)

-- A write outweighs a read, and any access outweighs none.
abbrev pub worse : AccessMode → Option AccessMode → Option AccessMode
worse write o = some write
worse read none = some read
worse read (some m) = some m

-- The worst mode with which the location was accessed.
abbrev pub worst : StorageLocation → List AccessEntry → Option AccessMode
worst location [] = none
worst location (a ∷ rest) =
    ite (StorageLocation_discrete a.location location) (worse a.mode (worst location rest))
      (worst location rest)

worse_comm : (m n : AccessMode) (o : Option AccessMode) → worse m (worse n o) ≡ worse n (worse m o)
worse_comm m n o = ground arith

mode_set : IsSet (Option AccessMode)
mode_set = hlevel

module _ (location : StorageLocation) where
  worst-permᴰ : {xs ys : List AccessEntry} → Permᴰ xs ys → worst location xs ≡ worst location ys
  worst-permᴰ Permᴰ.nil = refl
  worst-permᴰ (Permᴰ.cons {a} {b} e p) = ground (arith, worst-permᴰ p)
  worst-permᴰ (Permᴰ.swap {a} {b} {a'} {b'} {l} e d) =
      ground (arith, worse_comm a.mode b.mode (worst location l))
  worst-permᴰ (Permᴰ.trans p q) = worst-permᴰ p ∙ worst-permᴰ q

  pub worst-perm : {xs ys : List AccessEntry} → Perm xs ys → worst location xs ≡ worst location ys
  worst-perm p = ∥∥₁_elim p (mode_set _ _) worst-permᴰ

  -- What comes later in the order at the same location is no worse.
  worse_first :
      (a : AccessEntry) (rest : List AccessEntry)
      → All (λ b. cmp_entry a b ≢ Ordering.gt) rest
      → a.location ≡ location
      → worse a.mode (worst location rest) ≡ some a.mode
  worse_first a [] h e = ground arith
  worse_first a (b ∷ rest) h e =
      ground (arith, cmp_entry-precede a b h.0, Before-irrefl a.location, worse_first a rest h.1 e)

  -- Behind an entry of another location, the first entry that stays has the worst mode.
  mode_at-dedup_after :
      (last : AccessEntry) (rest : List AccessEntry)
      → IsSorted cmp_entry rest
      → last.location ≢ location
      → mode_at location (dedup_after last rest) ≡ worst location rest
  unfolding dedup_after
  mode_at-dedup_after last [] s other = refl
  mode_at-dedup_after last (a ∷ rest) s other = ground (
    arith,
    dedup_after_same last a rest,
    dedup_after_ne last a rest,
    mode_at-dedup_after last rest s.1 other,
    mode_at-dedup_after a rest s.1,
    worse_first a rest s.0,
  )

  pub mode_at-dedup :
      (l : List AccessEntry) → IsSorted cmp_entry l → mode_at location (dedup l) ≡ worst location l
  unfolding dedup
  mode_at-dedup [] s = refl
  mode_at-dedup (a ∷ rest) s =
      ground (arith, mode_at-dedup_after a rest s.1, worse_first a rest s.0)

  -- An access list records for each location the worst mode that was recorded for it.
  pub mode_at-canonical :
      (entries : List AccessEntry) → mode_at location (canonical entries) ≡ worst location entries
  unfolding canonical
  mode_at-canonical entries =
      mode_at-dedup (sort_by cmp_entry entries)
        (sort_by-IsSorted cmp_entry cmp_entry-IsOrder entries)
      ∙ worst-perm (sort_by-perm cmp_entry entries)
