-- ===== src/Slices/Total.antt =====
-- Where the comparison decides every pair at hand, sorting does not panic and only rearranges.
use Prim.Native.Nat.{Ordering}
use mathlib.Core.List.{Perm}
use mathlib.Core.List.Perm
use argus_core.Base.{List, [], ◌∷◌, Option, some, ◌≡◌, refl, All}
use argus_core.Slices.{try_insert_by, try_sort_by}

module _ {ℓ} {A : Type ℓ} (cmp : A → A → Option Ordering) (P : A → Type 0)
    (decided : (x y : A) → P x → P y → (o : Ordering) × (cmp x y ≡ some o)) where
  pub try_insert_by-total :
      (x : A) (ys : List A)
      → P x
      → All P ys
      → (zs : List A) × (try_insert_by cmp x ys ≡ some zs) × Perm zs (x ∷ ys) × All P zs
  unfolding try_insert_by
  try_insert_by-total x [] p ps = (x ∷ [], refl, Perm.rfl, (p, tt))
  try_insert_by-total x (y ∷ ys) p ps =
      let (o, h) = decided x y p ps.0 in place o h (try_insert_by-total x ys p ps.1)
    where
      place :
          (o : Ordering)
          → cmp x y ≡ some o
          → ((zs : List A) × (try_insert_by cmp x ys ≡ some zs) × Perm zs (x ∷ ys) × All P zs)
          → (zs : List A) × (try_insert_by cmp x (y ∷ ys) ≡ some zs)
            × Perm zs (x ∷ y ∷ ys)
            × All P zs
      place Ordering.lt h _ = (x ∷ y ∷ ys, rw (h, try_insert_by), Perm.rfl, (p, ps))
      place Ordering.eq h _ = (x ∷ y ∷ ys, rw (h, try_insert_by), Perm.rfl, (p, ps))
      place Ordering.gt h (zs, e, perm, qs) = (
        y ∷ zs,
        rw (h, try_insert_by, e),
        Perm.trans (Perm.cons y perm) (Perm.swap x y ys),
        (ps.0, qs),
      )

  pub try_sort_by-total :
      (xs : List A)
      → All P xs
      → (ys : List A) × (try_sort_by cmp xs ≡ some ys) × Perm ys xs × All P ys
  unfolding try_sort_by
  try_sort_by-total [] ps = ([], refl, Perm.rfl, tt)
  try_sort_by-total (x ∷ xs) ps =
      let (ys, e, perm, qs) = try_sort_by-total xs ps.1 in
      let (zs, e', perm', rs) = try_insert_by-total x ys ps.0 qs in
      (zs, rw (e, e'), Perm.trans perm' (Perm.cons x perm), rs)
