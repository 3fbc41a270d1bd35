-- ===== src/Base/Sums.antt =====
-- Sums of a number over a list, and their independence of the order.
use Prim.Native.Nat.{ℕ, ◌+◌}
use mathlib.Core.Path.{◌≡◌, refl, sym, ◌∙◌}
use mathlib.Core.List.{List, [], ◌∷◌, ◌++◌, map, Perm, Permᴰ}
use mathlib.Core.Logic.{∥∥₁_elim}
use native.Mathlib.Nat.{ℕ_set}
use argus_core.Base.Lists.{length}
use native.Mathlib.Omega.{arith}

module _ {ℓ} {A : Type ℓ} where
  abbrev pub sum_by : (A → ℕ) → List A → ℕ
  sum_by f [] = 0
  sum_by f (x ∷ xs) = f x + sum_by f xs

  module _ (f : A → ℕ) where
    pub sum_by-append : (xs ys : List A) → sum_by f (xs ++ ys) ≡ sum_by f xs + sum_by f ys
    sum_by-append [] ys = omega arith
    sum_by-append (x ∷ xs) ys = omega (arith, sum_by-append xs ys)

    sum_by-permᴰ : {xs ys : List A} → Permᴰ xs ys → sum_by f xs ≡ sum_by f ys
    sum_by-permᴰ Permᴰ.nil = refl
    sum_by-permᴰ (Permᴰ.cons e p) = λ i. f (e i) + sum_by-permᴰ p i
    sum_by-permᴰ (Permᴰ.swap {a} {b} {a'} {b'} {l} e d) =
        let swapped : f a + (f b + sum_by f l) ≡ f b + (f a + sum_by f l) = omega arith in
        swapped ∙ (λ i. f (d i) + (f (e i) + sum_by f l))
    sum_by-permᴰ (Permᴰ.trans p q) = sum_by-permᴰ p ∙ sum_by-permᴰ q

    pub sum_by-perm : {xs ys : List A} → Perm xs ys → sum_by f xs ≡ sum_by f ys
    sum_by-perm p = ∥∥₁_elim p (ℕ_set _ _) sum_by-permᴰ

pub sum_by-map {ℓ κ} :
    {A : Type ℓ} {B : Type κ} (g : B → A) (f : A → ℕ) (xs : List B)
    → sum_by f (map g xs) ≡ sum_by (λ x. f (g x)) xs
sum_by-map g f [] = refl
sum_by-map g f (x ∷ xs) = λ i. f (g x) + sum_by-map g f xs i

pub length-eq-sum_by {ℓ} : {A : Type ℓ} (xs : List A) → length xs ≡ sum_by (λ _. 1) xs
length-eq-sum_by [] = refl
length-eq-sum_by (x ∷ xs) = omega (arith, length-eq-sum_by xs)

pub length-perm {ℓ} : {A : Type ℓ} {xs ys : List A} → Perm xs ys → length xs ≡ length ys
length-perm {xs} {ys} p = length-eq-sum_by xs ∙ sum_by-perm (λ _. 1) p ∙ sym (length-eq-sum_by ys)

pub sum_by-ext {ℓ} :
    {A : Type ℓ} {f g : A → ℕ} → ((x : A) → f x ≡ g x) → (xs : List A) → sum_by f xs ≡ sum_by g xs
sum_by-ext h [] = refl
sum_by-ext h (x ∷ xs) = λ i. h x i + sum_by-ext h xs i
