-- ===== src/Slices/Decided.antt =====
-- Where the comparison decides and orders every pair at hand, sorting with it sorts.
use Prim.Native.Nat.{Ordering}
use argus_core.Base.{List, [], ◌∷◌, Option, some, ◌≡◌, ◌≢◌, refl, sym, ◌∙◌, All, some_inj}
use argus_core.Slices.{try_insert_by, try_sort_by}
use argus_core.Slices.Total.{try_insert_by-total}

module _ {ℓ} {A : Type ℓ} (cmp : A → A → Option Ordering) where
  -- No element is greater than a later one.
  abbrev pub IsOrdered : List A → Type 0
  IsOrdered [] = Unit
  IsOrdered (x ∷ xs) = All (λ y. cmp x y ≢ some Ordering.gt) xs × IsOrdered xs

  module _ (P : A → Type 0) (decided : (x y : A) → P x → P y → (o : Ordering) × (cmp x y ≡ some o))
      (flip : (x y : A) → P x → P y → cmp x y ≡ some Ordering.gt → cmp y x ≢ some Ordering.gt)
      (le_trans : (x y z : A)
        → P x
        → P y
        → P z
        → cmp x y ≢ some Ordering.gt
        → cmp y z ≢ some Ordering.gt
        → cmp x z ≢ some Ordering.gt) where
    -- The inserted element and the others: a bound of all of them bounds the result.
    record Inserted (x : A) (ys zs : List A) : Type ℓ where
      ordered : IsOrdered zs
      bounded :
          (w : A)
          → cmp w x ≢ some Ordering.gt
          → All (λ y. cmp w y ≢ some Ordering.gt) ys
          → All (λ y. cmp w y ≢ some Ordering.gt) zs

    below-All :
        (x y : A) (ys : List A)
        → P x
        → P y
        → All P ys
        → cmp x y ≢ some Ordering.gt
        → All (λ z. cmp y z ≢ some Ordering.gt) ys
        → All (λ z. cmp x z ≢ some Ordering.gt) ys
    below-All x y [] p q qs h k = tt
    below-All x y (z ∷ ys) p q qs h k =
        (le_trans x y z p q qs.0 h k.0, below-All x y ys p q qs.1 h k.1)

    insert-Inserted :
        (x : A) (ys : List A)
        → P x
        → All P ys
        → IsOrdered ys
        → (zs : List A) × (try_insert_by cmp x ys ≡ some zs) × Inserted x ys zs
    unfolding try_insert_by
    insert-Inserted x [] p ps s =
        (x ∷ [], refl, record { ordered = (tt, tt); bounded = λ w h k. (h, tt) })
    insert-Inserted x (y ∷ ys) p ps s =
        let (o, h) = decided x y p ps.0 in place o h (insert-Inserted x ys p ps.1 s.1)
      where
        stops :
            cmp x y ≢ some Ordering.gt
            → try_insert_by cmp x (y ∷ ys) ≡ some (x ∷ y ∷ ys)
            → (zs : List A) × (try_insert_by cmp x (y ∷ ys) ≡ some zs) × Inserted x (y ∷ ys) zs
        stops h e = (
          x ∷ y ∷ ys,
          e,
          record {
            ordered = ((h, below-All x y ys p ps.0 ps.1 h s.0), s);
            bounded = λ w a b. (a, b);
          },
        )

        place :
            (o : Ordering)
            → cmp x y ≡ some o
            → ((zs : List A) × (try_insert_by cmp x ys ≡ some zs) × Inserted x ys zs)
            → (zs : List A) × (try_insert_by cmp x (y ∷ ys) ≡ some zs) × Inserted x (y ∷ ys) zs
        place Ordering.lt h _ = stops (λ q. cc) (rw (h, try_insert_by) refl)
        place Ordering.eq h _ = stops (λ q. cc) (rw (h, try_insert_by) refl)
        place Ordering.gt h (zs, e, i) = (
          y ∷ zs,
          rw (h, try_insert_by, e) refl,
          record {
            ordered = (i.bounded y (flip x y p ps.0 h) s.0, i.ordered);
            bounded = λ w a b. (b.0, i.bounded w a b.1);
          },
        )

    pub try_sort_by-IsOrdered :
        (xs : List A)
        → All P xs
        → (ys : List A) × (try_sort_by cmp xs ≡ some ys) × All P ys × IsOrdered ys
    unfolding try_sort_by
    try_sort_by-IsOrdered [] ps = ([], refl, tt, tt)
    try_sort_by-IsOrdered (x ∷ xs) ps =
        let (ys, e, qs, s) = try_sort_by-IsOrdered xs ps.1 in
        let (zs, e', i) = insert-Inserted x ys ps.0 qs s in
        let (us, f, _, rs) = try_insert_by-total cmp P decided x ys ps.0 qs in
        let same : us ≡ zs = some_inj (sym f ∙ e') in
        (zs, rw (e, e') refl, rw same at rs, i.ordered)
