-- ===== src/Slices/Sorted.antt =====
-- Sorting rearranges, and its result is in order.
use Prim.Native.Nat.{Ordering}
use mathlib.Core.List.{Perm}
use mathlib.Core.List.Perm
use argus_core.Base.{List, [], ◌∷◌, ◌≡◌, ◌≢◌, refl, All, All-mono, arith, ◌⊎◌, inl, inr}
use argus_core.Slices.{insert_by, sort_by}

module _ {ℓ} {A : Type ℓ} (cmp : A → A → Ordering) where
  -- No element stands before a smaller one.
  abbrev pub IsSorted : List A → Type 0
  IsSorted [] = Unit
  IsSorted (x ∷ xs) = All (λ y. cmp x y ≢ Ordering.gt) xs × IsSorted xs

  gt_cases : (o : Ordering) → (o ≡ Ordering.gt) ⊎ (o ≢ Ordering.gt)
  gt_cases Ordering.lt = inr (λ e. cc)
  gt_cases Ordering.eq = inr (λ e. cc)
  gt_cases Ordering.gt = inl refl

  insert_by-gt :
      (x y : A) (ys : List A)
      → cmp x y ≡ Ordering.gt
      → insert_by cmp x (y ∷ ys) ≡ y ∷ insert_by cmp x ys
  unfolding insert_by
  insert_by-gt x y ys h = rw (h, insert_by)

  insert_by-le :
      (x y : A) (ys : List A) → cmp x y ≢ Ordering.gt → insert_by cmp x (y ∷ ys) ≡ x ∷ y ∷ ys
  unfolding insert_by
  insert_by-le x y ys h = ground arith

  insert_by-perm : (x : A) (ys : List A) → Perm (insert_by cmp x ys) (x ∷ ys)
  unfolding insert_by
  insert_by-perm x [] = Perm.rfl
  insert_by-perm x (y ∷ ys) = elim (gt_cases (cmp x y)) [
    | inl g ↦
        rw (insert_by-gt x y ys g)
          (Perm.trans (Perm.cons y (insert_by-perm x ys)) (Perm.swap x y ys))
    | inr l ↦ rw (insert_by-le x y ys l) Perm.rfl
  ]

  pub sort_by-perm : (xs : List A) → Perm (sort_by cmp xs) xs
  unfolding sort_by
  sort_by-perm [] = Perm.rfl
  sort_by-perm (x ∷ xs) =
      Perm.trans (insert_by-perm x (sort_by cmp xs)) (Perm.cons x (sort_by-perm xs))

  -- A comparison that is a total preorder.
  pub record IsOrder : Type ℓ where
    pub flip : (x y : A) → cmp x y ≡ Ordering.gt → cmp y x ≢ Ordering.gt
    pub le_trans :
        (x y z : A) → cmp x y ≢ Ordering.gt → cmp y z ≢ Ordering.gt → cmp x z ≢ Ordering.gt

module _ {ℓ} {A : Type ℓ} (cmp : A → A → Ordering) (order : IsOrder cmp) where
  All-insert_by :
      (z x : A) (ys : List A)
      → cmp z x ≢ Ordering.gt
      → All (λ y. cmp z y ≢ Ordering.gt) ys
      → All (λ y. cmp z y ≢ Ordering.gt) (insert_by cmp x ys)
  unfolding insert_by
  All-insert_by z x [] h hs = (h, tt)
  All-insert_by z x (y ∷ ys) h hs = elim (gt_cases cmp (cmp x y)) [
    | inl g ↦ rw (insert_by-gt cmp x y ys g) (hs.0, All-insert_by z x ys h hs.1)
    | inr l ↦ rw (insert_by-le cmp x y ys l) (h, hs)
  ]

  insert_by-IsSorted : (x : A) (ys : List A) → IsSorted cmp ys → IsSorted cmp (insert_by cmp x ys)
  unfolding insert_by
  insert_by-IsSorted x [] h = (tt, tt)
  insert_by-IsSorted x (y ∷ ys) h = elim (gt_cases cmp (cmp x y)) [
    | inl g ↦
        rw (insert_by-gt cmp x y ys g)
          (All-insert_by y x ys (order.flip x y g) h.0, insert_by-IsSorted x ys h.1)
    | inr l ↦
        rw (insert_by-le cmp x y ys l) ((l, All-mono ys (λ z p. order.le_trans x y z l p) h.0), h)
  ]

  pub sort_by-IsSorted : (xs : List A) → IsSorted cmp (sort_by cmp xs)
  unfolding sort_by
  sort_by-IsSorted [] = tt
  sort_by-IsSorted (x ∷ xs) = insert_by-IsSorted x (sort_by cmp xs) (sort_by-IsSorted xs)
