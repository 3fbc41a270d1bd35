-- ===== src/Graph/Views.antt =====
-- What the users of a graph see does not change with the order of the batch.
use mathlib.Core.List.{Perm, Permᴰ, Perm-prop, map-append, append_assoc}
use mathlib.Core.List.Perm
use mathlib.Core.Logic.{∥∥₁_elim}
use mathlib.Core.Quot
use argus_core.Base.{
  subst, List, ◌∷◌, ◌++◌, map, flat_map, flat_map-perm, perm-append_left_comm, ◌≡◌, refl, sym, ◌∙◌,
  arith,
}
use argus_core.HashMap.{Iteration}
use argus_core.Types.{StorageLocation, AccessList}
use argus_core.Types.ConflictGraph.View.{
  upward, SameEdges, of_edges, view, Implements, IsConsistent-Implements,
}
use argus_core.Graph.{Accessor, build_conflict_graph}
use argus_core.Graph.Hazards.{Access, access_of, accesses, meet, hazards}
use argus_core.Graph.Build.{build-IsConsistent, build-perm-hazards}

meet_comm : (x y : Access) → map upward (meet x y) ≡ map upward (meet y x)
unfolding meet
meet_comm x y = ground arith

-- Two neighbours of the batch trade places.
hazards-swap :
    (x y : Access) (l : List Access) → SameEdges (hazards (x ∷ y ∷ l)) (hazards (y ∷ x ∷ l))
hazards-swap x y l =
    rw (← spread x y, ← spread y x, meet_comm x y)
      (Perm.append_left (map upward (meet y x)) (
        perm-append_left_comm (map upward (flat_map (meet x) l)) (map upward (flat_map (meet y) l))
          (map upward (hazards l))))
  where
    spread :
        (a b : Access)
        → map upward (meet a b)
            ++ (map upward (flat_map (meet a) l)
                ++ (map upward (flat_map (meet b) l) ++ map upward (hazards l)))
          ≡ map upward (hazards (a ∷ b ∷ l))
    spread a b =
        rw
          (
            ← append_assoc (map upward (meet a b)) (map upward (flat_map (meet a) l))
                (map upward (flat_map (meet b) l) ++ map upward (hazards l)),
            ← map-append upward (meet a b) (flat_map (meet a) l),
            ← map-append upward (flat_map (meet b) l) (hazards l),
            ← map-append upward (meet a b ++ flat_map (meet a) l)
                (flat_map (meet b) l ++ hazards l),
          )
          refl

hazards-SameEdgesᴰ : {xs ys : List Access} → Permᴰ xs ys → SameEdges (hazards xs) (hazards ys)
hazards-SameEdgesᴰ Permᴰ.nil = Perm.rfl
hazards-SameEdgesᴰ (Permᴰ.cons {b = b} {l₁ = xs} {l₂ = ys} e p) = rw e (
    rw
      (
        map-append upward (flat_map (meet b) xs) (hazards xs),
        map-append upward (flat_map (meet b) ys) (hazards ys),
      )
      (Perm.append (Perm.map upward (flat_map-perm (meet b) ∣ p ∣₁)) (hazards-SameEdgesᴰ p)))
hazards-SameEdgesᴰ (Permᴰ.swap {a} {b} {a' = a'} {b' = b'} {l} e d) =
    subst (λ y. SameEdges (hazards (a ∷ y ∷ l)) (hazards (a' ∷ b' ∷ l))) (sym d)
      (subst (λ x. SameEdges (hazards (x ∷ a' ∷ l)) (hazards (a' ∷ b' ∷ l))) (sym e)
        (hazards-swap b' a' l))
hazards-SameEdgesᴰ (Permᴰ.trans p q) = Perm.trans (hazards-SameEdgesᴰ p) (hazards-SameEdgesᴰ q)

pub hazards-SameEdges : {xs ys : List Access} → Perm xs ys → SameEdges (hazards xs) (hazards ys)
hazards-SameEdges p = ∥∥₁_elim p Perm-prop hazards-SameEdgesᴰ

-- With any order of iteration over the index, the graph that is built implements the bag of the
-- conflicts between every two accesses of the batch: its edges, up to order and direction and each
-- as often, its answers, and their number are those of the bag.
pub build-Implements :
    (it : Iteration (StorageLocation × List Accessor)) (lists : List AccessList)
    → Implements (build_conflict_graph it lists) (of_edges (hazards (accesses lists)))
build-Implements it lists =
    IsConsistent-Implements (build_conflict_graph it lists) (of_edges (hazards (accesses lists)))
      (build-IsConsistent it lists) (Quot.sound (Perm.map upward (build-perm-hazards it lists)))

-- The bag of edges of the graph depends neither on the order of the access lists nor on the orders
-- of iteration over the index.
pub view-build :
    (it it' : Iteration (StorageLocation × List Accessor)) (lists lists' : List AccessList)
    → Perm lists lists'
    → view (build_conflict_graph it lists) ≡ view (build_conflict_graph it' lists')
view-build it it' lists lists' p =
    (build-Implements it lists).edges
    ∙ Quot.sound (hazards-SameEdges (flat_map-perm (λ al. map (access_of al.tx_hash) al.entries) p))
    ∙ sym (build-Implements it' lists').edges
