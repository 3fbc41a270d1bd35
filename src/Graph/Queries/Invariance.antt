-- ===== src/Graph/Queries/Invariance.antt =====
-- What the graph answers when an order is another one.
use mathlib.Core.List.{Perm}
use argus_core.Base.{
  any, any-perm, any-ext, List, map, ◌&&◌, ◌==◌, flat_map-perm, ◌≡◌, ◌≢◌, sym, ap, ◌∙◌,
}
use argus_core.HashMap.{Iteration}
use argus_core.Types.{B256, StorageLocation, AccessList}
use argus_core.Types.ConflictGraph.{has_conflict}
use argus_core.Graph.{Accessor, build_conflict_graph}
use argus_core.Graph.Hazards.{Access, access_of}
use argus_core.Graph.Queries.{clashes, interferes, has_conflict-interferes}

interferes-perm :
    (a b : B256) {xs ys : List Access} → Perm xs ys → interferes a b xs ≡ interferes a b ys
interferes-perm a b {xs} {ys} p =
    any-ext xs (λ x. ap (λ t. x.tx == a && t) (any-perm (λ y. y.tx == b && clashes x y) p))
    ∙ any-perm (λ x. x.tx == a && any (λ y. y.tx == b && clashes x y) ys) p

-- Whether two different transactions conflict depends neither on the order of the access lists nor
-- on the orders of iteration over the index.
pub has_conflict-perm :
    (it it' : Iteration (StorageLocation × List Accessor)) (lists lists' : List AccessList)
    (a b : B256)
    → Perm lists lists'
    → a ≢ b
    → has_conflict (build_conflict_graph it lists) a b
      ≡ has_conflict (build_conflict_graph it' lists') a b
has_conflict-perm it it' lists lists' a b p h =
    has_conflict-interferes a b it lists h
    ∙ interferes-perm a b (flat_map-perm (λ al. map (access_of al.tx_hash) al.entries) p)
    ∙ sym (has_conflict-interferes a b it' lists' h)
