-- ===== src/HashMap/Regroup.antt =====
-- To walk the groups one after the other is to walk the elements in another order.
use mathlib.Core.Path.{fun_ext, ap₂, subst₂}
use mathlib.Core.List.{
  Mem, Mem-prop, Nodup, Nodup-cons, Perm, append_assoc, not-mem-nil, mem-cons_self, mem-cons_of_mem,
  eq-or-mem_of_mem-cons,
}
use mathlib.Core.List.Perm
use mathlib.Core.Logic.Or
use argus_core.Base.{
  List, [], ◌∷◌, ◌++◌, ite, if_pos, if_neg, ◌≡◌, refl, sym, ap, All, flat_map,
  perm-append_left_comm, ℕ, ◌+◌, ◌∙◌, sum_by, sum_by-append, sum_by-perm,
}
use argus_core.HashMap.Grouping.{members}

-- `emit x later` is what an element yields when the elements behind it are `later`.
module _ {ℓ} {X Y : Type ℓ} (emit : X → List X → List Y) where
  abbrev pub unroll : List X → List Y
  unroll [] = []
  unroll (x ∷ xs) = emit x xs ++ unroll xs

module _ {ℓ} {K Y : Type ℓ} (dec : Discrete K) (k₀ : K) (extra : List Y) (f : K → List Y) where
  -- The function `f`, with more at one key.
  abbrev bump : K → List Y
  bump k = ite (dec k₀ k) (extra ++ f k) (f k)

  flat_map-bump_absent : (ks : List K) → ¬ Mem k₀ ks → flat_map bump ks ≡ flat_map f ks
  flat_map-bump_absent [] h = refl
  flat_map-bump_absent (k ∷ ks) h =
      rw (if_neg (dec k₀ k) (λ e. h (rw e mem-cons_self)))
        (ap (λ t. f k ++ t) (flat_map-bump_absent ks (λ t. h (mem-cons_of_mem k t))))

  flat_map-bump :
      (ks : List K) → Nodup ks → Mem k₀ ks → Perm (flat_map bump ks) (extra ++ flat_map f ks)
  flat_map-bump [] d m = absurd (not-mem-nil m)
  flat_map-bump (k ∷ ks) d m = elim (dec k₀ k) [
    | yes p ↦
        rw
          (
            if_pos (dec k₀ k) p,
            flat_map-bump_absent ks (rw p (Nodup-cons.0 d).0),
            append_assoc extra (f k) (flat_map f ks),
          )
          Perm.rfl
    | no p ↦
        let there : Mem k₀ ks =
          Or.elim Mem-prop (eq-or-mem_of_mem-cons m) (λ e. absurd (p e)) (λ t. t) in
        rw (if_neg (dec k₀ k) p) (
          Perm.trans (Perm.append_left (f k) (flat_map-bump ks (Nodup-cons.0 d).1 there))
            (perm-append_left_comm (f k) extra (flat_map f ks)))
  ]

module _ {ℓ} {K X Y : Type ℓ} (dec : Discrete K) (key : X → K) (emit : X → List X → List Y) where
  abbrev by_group : List X → K → List Y
  by_group xs k = unroll emit (members dec key k xs)

  by_group-cons :
      (x : X) (xs : List X) (k : K)
      → by_group (x ∷ xs) k ≡ bump dec (key x) (emit x (members dec key (key x) xs)) (by_group xs) k
  by_group-cons x xs k = elim (dec (key x) k) [
    | yes p ↦ rw (if_pos (dec (key x) k) p, if_pos (dec (key x) k) p, p)
    | no p ↦ rw (if_neg (dec (key x) k) p, if_neg (dec (key x) k) p)
  ]

  flat_map-nil : (ks : List K) → flat_map {B = Y} (λ k. []) ks ≡ []
  flat_map-nil [] = refl
  flat_map-nil (k ∷ ks) = flat_map-nil ks

  -- Group after group, or element after element with the later ones of its own group.
  pub unroll-regroup :
      (ks : List K) (xs : List X)
      → Nodup ks
      → All (λ x. Mem (key x) ks) xs
      → Perm
          (flat_map (λ k. unroll emit (members dec key k xs)) ks)
          (unroll (λ x later. emit x (members dec key (key x) later)) xs)
  unroll-regroup ks [] d h = rw (flat_map-nil ks) Perm.rfl
  unroll-regroup ks (x ∷ xs) d h =
      let extra = emit x (members dec key (key x) xs) in
      rw (fun_ext (by_group-cons x xs)) (
        Perm.trans (flat_map-bump dec (key x) extra (by_group xs) ks d h.0)
          (Perm.append_left extra (unroll-regroup ks xs d h.1)))

module _ {ℓ} {K X : Type ℓ} (dec : Discrete K) (key : X → K) where
  unroll_singles : (xs : List X) → unroll (λ x later. x ∷ []) xs ≡ xs
  unroll_singles [] = refl
  unroll_singles (x ∷ xs) = ap (◌∷◌ x) (unroll_singles xs)

  flat_map-singles :
      (f : K → List X) (ks : List K)
      → flat_map (λ k. unroll (λ x later. x ∷ []) (f k)) ks ≡ flat_map f ks
  flat_map-singles f [] = refl
  flat_map-singles f (k ∷ ks) = ap₂ ◌++◌ (unroll_singles (f k)) (flat_map-singles f ks)

  -- The groups partition the elements.
  pub members-regroup :
      (ks : List K) (xs : List X)
      → Nodup ks
      → All (λ x. Mem (key x) ks) xs
      → Perm (flat_map (λ k. members dec key k xs) ks) xs
  members-regroup ks xs d h =
      subst₂ Perm (flat_map-singles (λ k. members dec key k xs) ks) (unroll_singles xs)
        (unroll-regroup dec key (λ x later. x ∷ []) ks xs d h)

  sum_by-flat_map :
      (w : X → ℕ) (f : K → List X) (ks : List K)
      → sum_by w (flat_map f ks) ≡ sum_by (λ k. sum_by w (f k)) ks
  sum_by-flat_map w f [] = refl
  sum_by-flat_map w f (k ∷ ks) =
      sum_by-append w (f k) (flat_map f ks) ∙ ap (λ n. sum_by w (f k) + n) (sum_by-flat_map w f ks)

  -- A total over all elements is the total of the groups' totals.
  pub sum_by-regroup :
      (w : X → ℕ) (ks : List K) (xs : List X)
      → Nodup ks
      → All (λ x. Mem (key x) ks) xs
      → sum_by (λ k. sum_by w (members dec key k xs)) ks ≡ sum_by w xs
  sum_by-regroup w ks xs d h =
      sym (sum_by-flat_map w (λ k. members dec key k xs) ks)
      ∙ sum_by-perm w (members-regroup ks xs d h)
