-- ===== src/Base/Lists.antt =====
-- Lists measured by the native numbers.
use Prim.Native.Nat.{ℕ, suc, ◌+◌, ◌≤◌}
use mathlib.Core.Logic.{if_pos, if_neg}
use mathlib.Core.Path.{◌≡◌, refl, ap, sym, ◌∙◌}
use mathlib.Core.List.{List, [], ◌∷◌, ◌++◌, map, foldl, filter, append-nil, append_assoc}
use native.Mathlib.Omega.{arith}

module _ {ℓ} {A : Type ℓ} where
  abbrev pub length : List A → ℕ
  length [] = 0
  length (x ∷ xs) = suc (length xs)

  pub length-append : (xs ys : List A) → length (xs ++ ys) ≡ length xs + length ys
  length-append [] ys = omega arith
  length-append (x ∷ xs) ys = omega (arith, length-append xs ys)

  -- A predicate holds of every element; it computes to a product.
  abbrev pub All {κ} : (A → Type κ) → List A → Type κ
  All P [] = Unit
  All P (x ∷ xs) = P x × All P xs

  pub All-append {κ} : (P : A → Type κ) (xs ys : List A) → All P xs → All P ys → All P (xs ++ ys)
  All-append P [] ys hx hy = hy
  All-append P (x ∷ xs) ys hx hy = (hx.0, All-append P xs ys hx.1 hy)

pub All-mono {ℓ κ μ} :
    {A : Type ℓ} {P : A → Type κ} {Q : A → Type μ} (xs : List A)
    → ((x : A) → P x → Q x)
    → All P xs
    → All Q xs
All-mono [] f h = tt
All-mono (x ∷ xs) f h = (f x h.0, All-mono xs f h.1)

pub length-map {ℓ κ} :
    {A : Type ℓ} {B : Type κ} (f : A → B) (xs : List A) → length (map f xs) ≡ length xs
length-map f [] = refl
length-map f (x ∷ xs) = ap suc (length-map f xs)

abbrev pub flat_map {ℓ κ} : {A : Type ℓ} {B : Type κ} → (A → List B) → List A → List B
flat_map f [] = []
flat_map f (x ∷ xs) = f x ++ flat_map f xs

pub flat_map-map {ℓ κ μ} :
    {A : Type ℓ} {B : Type κ} {C : Type μ} (f : B → List C) (g : A → B) (xs : List A)
    → flat_map f (map g xs) ≡ flat_map (λ x. f (g x)) xs
flat_map-map f g [] = refl
flat_map-map f g (x ∷ xs) = ap (λ t. f (g x) ++ t) (flat_map-map f g xs)

pub foldl-snoc {ℓ κ} :
    {A : Type ℓ} {B : Type κ} (f : A → B) (ys : List B) (xs : List A)
    → foldl (λ l x. l ++ f x ∷ []) ys xs ≡ ys ++ map f xs
foldl-snoc f ys [] = sym (append-nil ys)
foldl-snoc f ys (x ∷ xs) = foldl-snoc f (ys ++ f x ∷ []) xs ∙ append_assoc ys (f x ∷ []) (map f xs)

pub length-filter-le {ℓ κ} :
    {A : Type ℓ} {P : A → Type κ} (d : (x : A) → Dec (P x)) (xs : List A)
    → length (filter d xs) ≤ length xs
length-filter-le d [] = omega arith
length-filter-le d (x ∷ xs) = elim (d x) [
  | yes p ↦ rw (if_pos (d x) p) (omega (arith, length-filter-le d xs))
  | no p ↦ rw (if_neg (d x) p) (omega (arith, length-filter-le d xs))
]

pub All-map {ℓ κ μ} :
    {A : Type ℓ} {B : Type κ} (P : B → Type μ) (f : A → B) (xs : List A)
    → All (λ x. P (f x)) xs
    → All P (map f xs)
All-map P f [] h = tt
All-map P f (x ∷ xs) h = (h.0, All-map P f xs h.1)

pub All-filter {ℓ κ} :
    {A : Type ℓ} (P : A → Type κ) {D : A → Type ℓ} (d : (x : A) → Dec (D x)) (xs : List A)
    → All P xs
    → All P (filter d xs)
All-filter P d [] h = tt
All-filter P d (x ∷ xs) h = elim (d x) [
  | yes p ↦ rw (if_pos (d x) p) (h.0, All-filter P d xs h.1)
  | no p ↦ rw (if_neg (d x) p) (All-filter P d xs h.1)
]
