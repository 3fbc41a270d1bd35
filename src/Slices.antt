-- ===== src/Slices.antt =====
-- `sort_by` and `sort_unstable_by` of a slice, by insertion. Where the comparison tells any two
-- different elements apart, every sorting algorithm returns this list.
pub mod Sorted
pub mod Total
pub mod Decided
use Prim.Native.Nat.{Ordering}
use argus_core.Base.{List, [], ◌∷◌, Option, none, some}

module _ {ℓ} {A : Type ℓ} (cmp : A → A → Ordering) where
  unfoldable pub insert_by : A → List A → List A
  insert_by x [] = x ∷ []
  insert_by x (y ∷ ys) = elim (cmp x y) [ Ordering.gt ↦ y ∷ insert_by x ys | _ ↦ x ∷ y ∷ ys ]

  unfoldable pub sort_by : List A → List A
  unfolding insert_by
  sort_by [] = []
  sort_by (x ∷ xs) = insert_by x (sort_by xs)

-- The same with a comparison that may panic: `none` is the panic.
module _ {ℓ} {A : Type ℓ} (cmp : A → A → Option Ordering) where
  unfoldable pub try_insert_by : A → List A → Option (List A)
  try_insert_by x [] = some (x ∷ [])
  try_insert_by x (y ∷ ys) =
      let behind = try_insert_by x ys in
      elim (cmp x y) [
        | none ↦ none
        | some Ordering.gt ↦ elim behind [ none ↦ none | some zs ↦ some (y ∷ zs) ]
        | some _ ↦ some (x ∷ y ∷ ys)
      ]

  unfoldable pub try_sort_by : List A → Option (List A)
  unfolding try_insert_by
  try_sort_by [] = some []
  try_sort_by (x ∷ xs) = elim (try_sort_by xs) [
    | none ↦ none
    | some sorted ↦ try_insert_by x sorted
  ]
