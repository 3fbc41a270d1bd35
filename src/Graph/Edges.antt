-- ===== src/Graph/Edges.antt =====
-- The pairwise loops at one location, as the list of the edges that they add.
use mathlib.Core.List.{foldl-append}
use argus_core.Base.{
  List, [], ◌∷◌, map, foldl, none, some, flat_map, All, ◌≡◌, refl, arith, if_pos, if_neg,
}
use argus_core.HashMap.Grouping.{members}
use argus_core.HashMap.Regroup.{unroll}
use argus_core.Types.{StorageLocation, StorageLocation_discrete, Conflict, AccessMode, read, write}
use argus_core.Types.ConflictGraph.{ConflictGraph, add_conflict}
use argus_core.Graph.{Accessor, conflict_kind, detect_pair, detect_all, detect}
use argus_core.Graph.Hazards.{Access, clash, meet}

-- The edge of two accessors of one location.
unfoldable pub edge : StorageLocation → Accessor → Accessor → List Conflict
unfolding conflict_kind
edge location (tx_a, mode_a) (tx_b, mode_b) = elim (conflict_kind mode_a mode_b) [
  | none ↦ []
  | some kind ↦ record { tx_a = tx_a; tx_b = tx_b; location = location; kind = kind } ∷ []
]

abbrev pub edges : StorageLocation → List Accessor → List Conflict
edges location = unroll (λ a later. flat_map (edge location a) later)

module _ (location : StorageLocation) where
  detect_pair-edge :
      (a : Accessor) (g : ConflictGraph) (b : Accessor)
      → detect_pair location a g b ≡ foldl add_conflict g (edge location a b)
  unfolding detect_pair edge
  detect_pair-edge a g b = ground arith

  detect_pairs-edges :
      (a : Accessor) (later : List Accessor) (g : ConflictGraph)
      → foldl (detect_pair location a) g later
        ≡ foldl add_conflict g (flat_map (edge location a) later)
  detect_pairs-edges a [] g = refl
  detect_pairs-edges a (b ∷ later) g =
      rw (foldl-append, detect_pair-edge a g b)
        (detect_pairs-edges a later (foldl add_conflict g (edge location a b)))

  detect_all-edges :
      (accessors : List Accessor) (g : ConflictGraph)
      → detect_all location accessors g ≡ foldl add_conflict g (edges location accessors)
  unfolding detect_all
  detect_all-edges [] g = refl
  detect_all-edges (a ∷ later) g =
      rw (foldl-append, detect_pairs-edges a later g) (detect_all-edges later _)

  -- The guard `accessors.len() < 2` skips only work that would add nothing.
  pub detect-edges :
      (accessors : List Accessor) (g : ConflictGraph)
      → detect g (location, accessors) ≡ foldl add_conflict g (edges location accessors)
  unfolding detect
  detect-edges [] g = refl
  detect-edges (a ∷ []) g = refl
  detect-edges (a ∷ b ∷ later) g = ground (arith, detect_all-edges (a ∷ b ∷ later) g)

abbrev pub accessor : Access → Accessor
accessor x = (x.tx, x.mode)

-- The edges at the location of `x` between it and later accessors.
abbrev pub emit : Access → List Access → List Conflict
emit x later = flat_map (edge x.location (accessor x)) (map accessor later)

All-members :
    (k : StorageLocation) (xs : List Access)
    → All (λ x. x.location ≡ k) (members StorageLocation_discrete (λ x. x.location) k xs)
All-members k [] = tt
All-members k (x ∷ xs) = elim (StorageLocation_discrete x.location k) [
  | yes p ↦ rw (if_pos (StorageLocation_discrete x.location k) p) (p, All-members k xs)
  | no p ↦ rw (if_neg (StorageLocation_discrete x.location k) p) (All-members k xs)
]

edges-unroll :
    (k : StorageLocation) (xs : List Access)
    → All (λ x. x.location ≡ k) xs
    → edges k (map accessor xs) ≡ unroll emit xs
edges-unroll k [] h = refl
edges-unroll k (x ∷ xs) h = rw (h.0, edges-unroll k xs h.1)

-- At one location the loops add what `emit` lists for the accesses there.
pub edges-members :
    (k : StorageLocation) (xs : List Access)
    → edges k (map accessor (members StorageLocation_discrete (λ x. x.location) k xs))
      ≡ unroll emit (members StorageLocation_discrete (λ x. x.location) k xs)
edges-members k xs = edges-unroll k _ (All-members k xs)

conflict_kind-clash : (m n : AccessMode) → conflict_kind m n ≡ clash m n
unfolding conflict_kind
conflict_kind-clash read read = refl
conflict_kind-clash read write = refl
conflict_kind-clash write read = refl
conflict_kind-clash write write = refl

emit-meet :
    (x : Access) (later : List Access)
    → emit x (members StorageLocation_discrete (λ y. y.location) x.location later)
      ≡ flat_map (meet x) later
unfolding edge meet
emit-meet x [] = refl
emit-meet x (y ∷ later) = elim (StorageLocation_discrete y.location x.location) [
  | yes p ↦ rw (
    if_pos (StorageLocation_discrete y.location x.location) p,
    if_pos (StorageLocation_discrete y.location x.location) p,
    conflict_kind-clash x.mode y.mode,
    emit-meet x later,
  )
  | no p ↦ rw (
    if_neg (StorageLocation_discrete y.location x.location) p,
    if_neg (StorageLocation_discrete y.location x.location) p,
    emit-meet x later,
  )
]

-- Against the later accesses of its location, an access meets exactly what it meets at all.
pub unroll-meet :
    (xs : List Access)
    → unroll
        (λ x later. emit x (members StorageLocation_discrete (λ y. y.location) x.location later))
        xs
      ≡ unroll (λ x later. flat_map (meet x) later) xs
unroll-meet [] = refl
unroll-meet (x ∷ xs) = rw (emit-meet x xs, unroll-meet xs)
