-- ===== src/Base/Perms.antt =====
-- Concatenating over a list respects rearrangement.
use mathlib.Core.List.{List, [], ◌∷◌, ◌++◌, Perm, Permᴰ, append_assoc, perm_append_comm, Perm-prop}
use mathlib.Core.List.Perm
use mathlib.Core.Logic.{∥∥₁_elim}
use mathlib.Core.Path.{subst}
use mathlib.Core.HLevel.{×_prop, Unit-prop}
use argus_core.Base.Lists.{All, flat_map}

module _ {ℓ} {A : Type ℓ} where
  -- The two outer parts of three trade places.
  pub perm-append_left_comm : (a b c : List A) → Perm (a ++ (b ++ c)) (b ++ (a ++ c))
  perm-append_left_comm a b c =
      rw (← append_assoc a b c, ← append_assoc b a c) (Perm.append_right c (perm_append_comm a b))

module _ {ℓ} {A B : Type ℓ} (f : A → List B) where
  flat_map-permᴰ : {xs ys : List A} → Permᴰ xs ys → Perm (flat_map f xs) (flat_map f ys)
  flat_map-permᴰ Permᴰ.nil = Perm.rfl
  flat_map-permᴰ (Permᴰ.cons {b = b} e p) = rw e (Perm.append_left (f b) (flat_map-permᴰ p))
  flat_map-permᴰ (Permᴰ.swap {a' = a'} {b' = b'} {l} e d) =
      rw (e, d) (perm-append_left_comm (f b') (f a') (flat_map f l))
  flat_map-permᴰ (Permᴰ.trans p q) = Perm.trans (flat_map-permᴰ p) (flat_map-permᴰ q)

  pub flat_map-perm : {xs ys : List A} → Perm xs ys → Perm (flat_map f xs) (flat_map f ys)
  flat_map-perm p = ∥∥₁_elim p Perm-prop flat_map-permᴰ

module _ {ℓ κ} {A : Type ℓ} (P : A → Type κ) (prop : (x : A) → IsProp (P x)) where
  All-prop : (xs : List A) → IsProp (All P xs)
  All-prop [] = Unit-prop
  All-prop (x ∷ xs) = ×_prop (prop x) (All-prop xs)

  All-permᴰ : {xs ys : List A} → Permᴰ xs ys → All P xs → All P ys
  All-permᴰ Permᴰ.nil h = h
  All-permᴰ (Permᴰ.cons e p) h = (subst P e h.0, All-permᴰ p h.1)
  All-permᴰ (Permᴰ.swap e d) h = (subst P d h.1.0, (subst P e h.0, h.1.1))
  All-permᴰ (Permᴰ.trans p q) h = All-permᴰ q (All-permᴰ p h)

  -- What holds of every element holds of every element of a rearrangement.
  pub All-perm : {xs ys : List A} → Perm xs ys → All P xs → All P ys
  All-perm {ys} p h = ∥∥₁_elim p (All-prop ys) (λ d. All-permᴰ d h)
