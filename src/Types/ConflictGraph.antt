-- ===== src/Types/ConflictGraph.antt =====
-- `ConflictGraph` of crates/core/src/types.rs.
pub mod Adjacency
pub mod View
use argus_core.Base.{
  ℕ, List, [], ◌∷◌, ◌++◌, Option, none, some, Bool, true, false, ◌||◌, ◌==◌, length, ℕ_discrete,
}
use argus_core.HashMap.{get, update}
use argus_core.Types.{B256, Conflict}

pub record ConflictGraph : Type 0 where
  pub conflicts : List Conflict
  pub adjacency : List (B256 × List B256)

unfoldable pub new : ConflictGraph
new = record { conflicts = []; adjacency = [] }

-- `adjacency.entry(a).or_default().push(b)`
abbrev pub link : B256 → B256 → List (B256 × List B256) → List (B256 × List B256)
link a b = update ℕ_discrete a [] (λ l. l ++ b ∷ [])

unfoldable pub add_conflict : ConflictGraph → Conflict → ConflictGraph
add_conflict g c = record {
  conflicts = g.conflicts ++ c ∷ [];
  adjacency = link c.tx_b c.tx_a (link c.tx_a c.tx_b g.adjacency);
}

-- `Vec::contains`
unfoldable pub contains : List B256 → B256 → Bool
contains [] b = false
contains (x ∷ xs) b = x == b || contains xs b

unfoldable pub has_conflict : ConflictGraph → B256 → B256 → Bool
has_conflict g a b = elim (get ℕ_discrete a g.adjacency) [
  | none ↦ false
  | some neighbors ↦ contains neighbors b
]

unfoldable pub len : ConflictGraph → ℕ
len g = length g.conflicts

unfoldable pub is_empty : ConflictGraph → Bool
is_empty g = elim g.conflicts [ [] ↦ true | _ ↦ false ]
