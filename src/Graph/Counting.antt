-- ===== src/Graph/Counting.antt =====
-- How many edges a batch gives.
use argus_core.Base.{
  ℕ, ◌+◌, ◌*◌, List, [], ◌∷◌, flat_map, ◌≤◌, ◌≡◌, refl, sym, ◌∙◌, arith, length, length-append,
  sum_by, length-perm, All,
}
use argus_core.HashMap.{Iteration}
use argus_core.Types.{StorageLocation, AccessList, read, write}
use argus_core.Types.ConflictGraph.{len}
use argus_core.Graph.{Accessor, build_conflict_graph}
use argus_core.Graph.Build.{build-perm-hazards}
use argus_core.Graph.Hazards.{Access, accesses, meet, hazards}

abbrev pub reads : List Access → ℕ
reads = sum_by (λ x. elim x.mode [ read ↦ 1 | write ↦ 0 ])

abbrev pub writes : List Access → ℕ
writes = sum_by (λ x. elim x.mode [ read ↦ 0 | write ↦ 1 ])

reads-add-writes : (xs : List Access) → reads xs + writes xs ≡ length xs
reads-add-writes [] = refl
reads-add-writes (x ∷ xs) = ground (arith, reads-add-writes xs)

module _ (location : StorageLocation) where
  length-meets :
      (x : Access) (later : List Access)
      → x.location ≡ location
      → All (λ y. y.location ≡ location) later
      → length (flat_map (meet x) later)
        ≡ (elim x.mode [ read ↦ writes later | write ↦ length later ])
  unfolding meet
  length-meets x [] h hs = ground arith
  length-meets x (y ∷ later) h hs =
      let same : y.location ≡ x.location = hs.0 ∙ sym h in
      ground
        (arith, length-append (meet x y) (flat_map (meet x) later), length-meets x later h hs.1)

  length-hazards :
      (xs : List Access)
      → All (λ x. x.location ≡ location) xs
      → 2 * length (hazards xs) + length xs + reads xs * reads xs ≡ length xs * length xs + reads xs
  length-hazards [] h = omega arith
  length-hazards (x ∷ xs) h = ground (
    arith,
    length-append (flat_map (meet x) xs) (hazards xs),
    length-meets x xs h.0 h.1,
    length-hazards xs h.1,
    reads-add-writes xs,
  )

-- If all n accesses of the batch are at one location and r of them read, the graph has
-- n (n - 1) / 2 - r (r - 1) / 2 edges, the equation being written without subtraction and division.
pub build-length :
    (it : Iteration (StorageLocation × List Accessor)) (lists : List AccessList)
    (location : StorageLocation)
    → All (λ x. x.location ≡ location) (accesses lists)
    → 2 * len (build_conflict_graph it lists)
        + length (accesses lists)
        + reads (accesses lists) * reads (accesses lists)
      ≡ length (accesses lists) * length (accesses lists) + reads (accesses lists)
unfolding len
build-length it lists location h =
    omega
      (arith, length-perm (build-perm-hazards it lists), length-hazards location (accesses lists) h)

meet-length : (x y : Access) → length (meet x y) ≤ 1
unfolding meet
meet-length x y = ground arith

meets-length : (x : Access) (later : List Access) → length (flat_map (meet x) later) ≤ length later
meets-length x [] = omega arith
meets-length x (y ∷ later) = omega (
  arith,
  length-append (meet x y) (flat_map (meet x) later),
  meet-length x y,
  meets-length x later,
)

hazards-length : (xs : List Access) → 2 * length (hazards xs) + length xs ≤ length xs * length xs
hazards-length [] = omega arith
hazards-length (x ∷ xs) =
    ground (
      arith,
      length-append (flat_map (meet x) xs) (hazards xs),
      meets-length x xs,
      hazards-length xs,
    )

-- A batch of n accesses gives at most n (n - 1) / 2 edges.
pub build-length-le :
    (it : Iteration (StorageLocation × List Accessor)) (lists : List AccessList)
    → 2 * len (build_conflict_graph it lists) + length (accesses lists)
      ≤ length (accesses lists) * length (accesses lists)
unfolding len
build-length-le it lists =
    omega (arith, length-perm (build-perm-hazards it lists), hazards-length (accesses lists))
