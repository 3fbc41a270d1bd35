-- ===== src/Types/ConflictGraph/Adjacency.antt =====
-- The adjacency map of a conflict graph against its flat edge list.
use mathlib.Core.Option
use argus_core.Base.{
  any, List, [], ◌∷◌, ◌++◌, Bool, ◌||◌, ◌&&◌, ◌==◌, ℕ_discrete, ◌≡◌, refl, ap, arith, flat_map,
  length, ◌*◌,
}
use argus_core.HashMap.{get}
use argus_core.HashMap.Grouping.{get-update_self, get-update_ne}
use argus_core.Types.{B256, Conflict}
use argus_core.Types.ConflictGraph.{ConflictGraph, new, link, add_conflict, contains, has_conflict}

-- The edge joins the two transactions, in either order.
abbrev pub joins : B256 → B256 → Conflict → Bool
joins a b c = c.tx_a == a && c.tx_b == b || c.tx_b == a && c.tx_a == b

-- Some edge of the list joins the two.
abbrev pub any_joins : B256 → B256 → List Conflict → Bool
any_joins a b = any (joins a b)

-- The transactions of the edges.
abbrev pub both_ends : List Conflict → List B256
both_ends = flat_map (λ c. c.tx_a ∷ c.tx_b ∷ [])

pub length-both_ends : (cs : List Conflict) → length (both_ends cs) ≡ 2 * length cs
length-both_ends [] = omega arith
length-both_ends (c ∷ cs) = omega (arith, length-both_ends cs)

-- The map answers as a search of the edge list would.
pub record IsConsistent (g : ConflictGraph) : Type 0 where
  pub same : (a b : B256) → has_conflict g a b ≡ any_joins a b g.conflicts

abbrev neighbors : B256 → List (B256 × List B256) → List B256
neighbors a m = Option.get_or (get ℕ_discrete a m) []

has_conflict-contains :
    (g : ConflictGraph) (a b : B256) → has_conflict g a b ≡ contains (neighbors a g.adjacency) b
unfolding has_conflict contains
has_conflict-contains g a b = ground arith

contains-append :
    (xs : List B256) (x b : B256) → contains (xs ++ x ∷ []) b ≡ (contains xs b || x == b)
unfolding contains
contains-append [] x b = ground arith
contains-append (y ∷ xs) x b = ground (arith, contains-append xs x b)

any_joins-append :
    (a b : B256) (cs : List Conflict) (c : Conflict)
    → any_joins a b (cs ++ c ∷ []) ≡ (any_joins a b cs || joins a b c)
any_joins-append a b [] c = ground arith
any_joins-append a b (d ∷ cs) c = ground (arith, any_joins-append a b cs c)

-- Linking `x` to `y` adds `y` to the neighbours of `x` alone.
contains-link :
    (x y a b : B256) (m : List (B256 × List B256))
    → contains (neighbors a (link x y m)) b ≡ (contains (neighbors a m) b || x == a && y == b)
contains-link x y a b m = elim (ℕ_discrete x a) [
  | yes p ↦
      let added =
        ap (λ o. Option.get_or o [])
          (rw p at (get-update_self ℕ_discrete x [] (λ l. l ++ y ∷ []) m)) in
      ground (arith, added, contains-append (neighbors a m) y b)
  | no p ↦ ground (arith, get-update_ne ℕ_discrete x a [] (λ l. l ++ y ∷ []) m p)
]

pub new-IsConsistent : IsConsistent new
unfolding new has_conflict get
new-IsConsistent = record { same = λ a b. refl }

-- If the adjacency map answers as a search of the edge list would, it does so after an edge is
-- added.
pub add_conflict-IsConsistent :
    (g : ConflictGraph) (c : Conflict) → IsConsistent g → IsConsistent (add_conflict g c)
unfolding add_conflict
add_conflict-IsConsistent g c h = record {
  same = λ a b.
      let m = g.adjacency in
      let m' = link c.tx_a c.tx_b m in
      ground (
        arith,
        h.same a b,
        has_conflict-contains g a b,
        has_conflict-contains (add_conflict g c) a b,
        contains-link c.tx_b c.tx_a a b m',
        contains-link c.tx_a c.tx_b a b m,
        any_joins-append a b g.conflicts c,
      );
}

-- If the adjacency map answers as a search of the edge list would, whether two transactions
-- conflict does not depend on which is asked about first.
has_conflict_symm :
    (g : ConflictGraph) (a b : B256) → IsConsistent g → has_conflict g a b ≡ has_conflict g b a
has_conflict_symm g a b h = rw (h.same a b, h.same b a) (any_joins_symm g.conflicts)
  where
    any_joins_symm : (cs : List Conflict) → any_joins a b cs ≡ any_joins b a cs
    any_joins_symm [] = refl
    any_joins_symm (c ∷ cs) = ground (arith, any_joins_symm cs)
