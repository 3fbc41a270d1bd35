-- ===== src/Graph/Queries.antt =====
-- What `has_conflict` answers about the graph of a batch, read off the accesses.
pub mod Invariance
pub mod Irreflexive
pub mod Collisions
use mathlib.Core.List.{Perm, Permᴰ}
use mathlib.Core.List.Perm
use mathlib.Core.Logic.{∥∥₁_elim}
use argus_core.Base.{
  any, any-perm, any-ext, any-or, any-append, any-flat_map, ℕ, List, [], ◌∷◌, ◌++◌, Bool, true,
  false, ◌||◌, ◌&&◌, ◌==◌, flat_map, none, some, ◌≡◌, ◌≢◌, refl, sym, ap, ◌∙◌, arith,
}
use argus_core.HashMap.{Iteration}
use argus_core.Types.{B256, StorageLocation, StorageLocation_discrete, AccessList, Conflict}
use argus_core.Types.ConflictGraph.{has_conflict}
use argus_core.Types.ConflictGraph.Adjacency.{joins, any_joins, IsConsistent}
use argus_core.Graph.{Accessor, build_conflict_graph}
use argus_core.Graph.Hazards.{Access, accesses, is_write, clash, meet, hazards}
use argus_core.Graph.Build.{build-IsConsistent, build-perm-hazards}

-- Two accesses of one location, not both reads.
unfoldable pub clashes : Access → Access → Bool
clashes x y =
    elim (StorageLocation_discrete x.location y.location) [ yes _ ↦ true | no _ ↦ false ]
    && (is_write x.mode || is_write y.mode)

-- Some access of the transaction `a` clashes with some access of the transaction `b`.
abbrev pub interferes : B256 → B256 → List Access → Bool
interferes a b xs = any (λ x. x.tx == a && any (λ y. y.tx == b && clashes x y) xs) xs

clashes_comm : (x y : Access) → clashes x y ≡ clashes y x
unfolding clashes
clashes_comm x y = ground arith

any-joins-meet :
    (a b : B256) (x y : Access)
    → any (joins a b) (meet x y)
      ≡ (clashes x y && (x.tx == a && y.tx == b || y.tx == a && x.tx == b))
unfolding meet clashes
any-joins-meet a b x y = ground arith

module _ (a b : B256) where
  -- Whether the two accesses put an edge between `a` and `b`.
  abbrev pub links : Access → Access → Bool
  links x y = clashes x y && (x.tx == a && y.tx == b || y.tx == a && x.tx == b)

  -- Some access is linked with a later one.
  abbrev pub any_pair : List Access → Bool
  any_pair [] = false
  any_pair (x ∷ xs) = any (links x) xs || any_pair xs

  pub any-joins-hazards : (xs : List Access) → any (joins a b) (hazards xs) ≡ any_pair xs
  any-joins-hazards [] = refl
  any-joins-hazards (x ∷ xs) =
      any-append (joins a b) (flat_map (meet x) xs) (hazards xs)
      ∙ rw
          (
            any-joins-hazards xs,
            any-flat_map (joins a b) (meet x) xs,
            any-ext xs (any-joins-meet a b x),
          )
          refl

  -- The accesses of `b` that clash with `x`.
  abbrev against : List Access → Access → Bool
  against ys x = any (λ y. y.tx == b && clashes x y) ys

  any-links :
      (x : Access) (xs : List Access)
      → any (links x) xs
        ≡ (x.tx == a && against xs x || any (λ y. y.tx == a && (x.tx == b && clashes y x)) xs)
  any-links x [] = ground arith
  any-links x (y ∷ xs) = ground (arith, any-links x xs, clashes_comm x y)

  any-against :
      (x : Access) (ys xs : List Access)
      → any (λ z. z.tx == a && (x.tx == b && clashes z x || against ys z)) xs ≡ (
          any (λ z. z.tx == a && (x.tx == b && clashes z x)) xs
          || any (λ z. z.tx == a && against ys z) xs)
  any-against x ys [] = refl
  any-against x ys (z ∷ xs) = ground (arith, any-against x ys xs)

  any_pair-interferes : (xs : List Access) → a ≢ b → any_pair xs ≡ interferes a b xs
  any_pair-interferes [] h = refl
  any_pair-interferes (x ∷ xs) h =
      ground (arith, h, any_pair-interferes xs h, any-links x xs, any-against x xs xs)

  -- For two different transactions, `has_conflict` of the graph that is built, with any order of
  -- iteration, answers whether some access of the one and some access of the other are at the same
  -- location and not both reads.
  pub has_conflict-interferes :
      (it : Iteration (StorageLocation × List Accessor)) (lists : List AccessList)
      → a ≢ b
      → has_conflict (build_conflict_graph it lists) a b ≡ interferes a b (accesses lists)
  has_conflict-interferes it lists h =
      (build-IsConsistent it lists).same a b
      ∙ any-perm (joins a b) (build-perm-hazards it lists)
      ∙ any-joins-hazards (accesses lists)
      ∙ any_pair-interferes (accesses lists) h
