-- ===== src/HashMap.antt =====
-- `std::collections::{HashMap, HashSet}` as the program uses them: a map is an association list
-- with at most one entry for a key, a set is a list. The standard library iterates over both in an
-- order of its own; `Iteration` stands for that order wherever the program loops over one of them.
pub mod Grouping
pub mod Sets
pub mod Entries
pub mod Once
pub mod Regroup
pub mod Inserts
pub mod Inhabited
pub mod Renamed
use mathlib.Core.List.{Perm}
use argus_core.Base.{List, [], ◌∷◌, Option, none, some, ite, ◌≡◌}

-- The order in which a loop visits the entries: any rearrangement of them.
pub record Iteration {ℓ} (A : Type ℓ) : Type ℓ where
  pub arrange : List A → List A
  pub arrange-perm : (l : List A) → Perm (arrange l) l

module _ {ℓ} {K V : Type ℓ} (dec : Discrete K) where
  -- `m.get(&k)`
  unfoldable pub get : K → List (K × V) → Option V
  get k [] = none
  get k ((j, v) ∷ m) = ite (dec j k) (some v) (get k m)

  -- `m.entry(k).or_default()`, and `f` applied to the value through the reference it returns
  unfoldable pub update : K → V → (V → V) → List (K × V) → List (K × V)
  update k default f [] = (k, f default) ∷ []
  update k default f ((j, v) ∷ m) = ite (dec j k) ((j, f v) ∷ m) ((j, v) ∷ update k default f m)

  -- `m.insert(k, v)`
  unfoldable pub insert : K → V → List (K × V) → List (K × V)
  unfolding update
  insert k v = update k v (λ _. v)

module _ {ℓ} {K : Type ℓ} (dec : Discrete K) where
  -- `s.insert(k)` of a `HashSet`
  unfoldable pub set_insert : K → List K → List K
  set_insert k [] = k ∷ []
  set_insert k (j ∷ s) = ite (dec j k) (j ∷ s) (j ∷ set_insert k s)
