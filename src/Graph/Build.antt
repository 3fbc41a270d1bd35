-- ===== src/Graph/Build.antt =====
-- The graph that `build_conflict_graph` returns.
use mathlib.Core.List.{Perm, append-nil, append_assoc, foldl-append, Nodup-nil}
use mathlib.Core.List.Perm
use argus_core.Base.{
  List, [], ◌∷◌, ◌++◌, map, foldl, flat_map, flat_map-perm, foldl-snoc, ◌≡◌, refl, sym, ap, ◌∙◌,
}
use mathlib.Core.Path.{fun_ext}
use argus_core.HashMap.{Iteration}
use argus_core.HashMap.Grouping.{group_loop, group_loop-append, key_set, members}
use argus_core.HashMap.Entries.{group_loop-eq-map, key_set-Nodup, All-key_set}
use argus_core.HashMap.Regroup.{unroll, unroll-regroup}
use argus_core.Types.{
  B256, StorageLocation, StorageLocation_discrete, AccessEntry, AccessList, Conflict,
}
use argus_core.Types.ConflictGraph.{ConflictGraph, new, add_conflict}
use argus_core.Types.ConflictGraph.Adjacency.{
  IsConsistent, new-IsConsistent, add_conflict-IsConsistent,
}
use argus_core.Graph.{
  Accessor, LocationIndex, index_entry, location_index, detect, build_conflict_graph,
}
use argus_core.Graph.Hazards.{Access, access_of, accesses, hazards}
use argus_core.Graph.Edges.{edges, detect-edges, accessor, emit, edges-members, unroll-meet}

abbrev index_loop : LocationIndex → List Access → LocationIndex
index_loop = group_loop StorageLocation_discrete (λ x. x.location) [] (λ l x. l ++ accessor x ∷ [])

index_entries :
    (tx : B256) (index : LocationIndex) (entries : List AccessEntry)
    → foldl (index_entry tx) index entries ≡ index_loop index (map (access_of tx) entries)
unfolding group_loop
index_entries tx index [] = refl
index_entries tx index (e ∷ entries) = index_entries tx (index_entry tx index e) entries

location_index-accesses :
    (index : LocationIndex) (lists : List AccessList)
    → location_index index lists ≡ index_loop index (accesses lists)
unfolding location_index group_loop
location_index-accesses index [] = refl
location_index-accesses index (al ∷ lists) =
    location_index-accesses (foldl (index_entry al.tx_hash) index al.entries) lists
    ∙ ap (λ m. index_loop m (accesses lists)) (index_entries al.tx_hash index al.entries)
    ∙ sym (
        group_loop-append StorageLocation_discrete (λ x. x.location) []
          (λ l x. l ++ accessor x ∷ []) index (map (access_of al.tx_hash) al.entries)
          (accesses lists))

abbrev all_edges : LocationIndex → List Conflict
all_edges = flat_map (λ e. edges e.0 e.1)

detect_loop :
    (index : LocationIndex) (g : ConflictGraph)
    → foldl detect g index ≡ foldl add_conflict g (all_edges index)
detect_loop [] g = refl
detect_loop ((k, l) ∷ index) g = rw (foldl-append, detect-edges k l g) (detect_loop index _)

-- The whole function adds one edge after the other.
pub build-add_conflicts :
    (it : Iteration (StorageLocation × List Accessor)) (lists : List AccessList)
    → build_conflict_graph it lists
      ≡ foldl add_conflict new (all_edges (it.arrange (location_index [] lists)))
unfolding build_conflict_graph
build-add_conflicts it lists = detect_loop (it.arrange (location_index [] lists)) new

pub conflicts-add_conflicts :
    (cs : List Conflict) (g : ConflictGraph)
    → (foldl add_conflict g cs).conflicts ≡ g.conflicts ++ cs
unfolding add_conflict
conflicts-add_conflicts [] g = sym (append-nil _)
conflicts-add_conflicts (c ∷ cs) g =
    conflicts-add_conflicts cs (add_conflict g c) ∙ append_assoc g.conflicts (c ∷ []) cs

add_conflicts-IsConsistent :
    (cs : List Conflict) (g : ConflictGraph)
    → IsConsistent g
    → IsConsistent (foldl add_conflict g cs)
add_conflicts-IsConsistent [] g h = h
add_conflicts-IsConsistent (c ∷ cs) g h =
    add_conflicts-IsConsistent cs (add_conflict g c) (add_conflict-IsConsistent g c h)

abbrev group_entry : List Access → StorageLocation → StorageLocation × List Accessor
group_entry xs k = (k, map accessor (members StorageLocation_discrete (λ x. x.location) k xs))

-- The index: each location with its accessors, in the order of the accesses.
index_loop-eq-map :
    (xs : List Access)
    → index_loop [] xs
      ≡ map (group_entry xs) (key_set StorageLocation_discrete (λ x. x.location) [] xs)
index_loop-eq-map xs =
    let ks = key_set StorageLocation_discrete (λ (x : Access). x.location) [] xs in
    group_loop-eq-map StorageLocation_discrete (λ x. x.location) [] (λ l x. l ++ accessor x ∷ []) xs
    ∙ ap (λ (f : StorageLocation → StorageLocation × List Accessor). map f ks)
        (fun_ext (λ k.
          ap (λ (l : List Accessor). let e : StorageLocation × List Accessor = (k, l) in e)
            (foldl-snoc accessor [] (members StorageLocation_discrete (λ x. x.location) k xs))))

all_edges-group :
    (xs : List Access) (ks : List StorageLocation)
    → all_edges (map (group_entry xs) ks)
      ≡ flat_map (λ k. unroll emit (members StorageLocation_discrete (λ x. x.location) k xs)) ks
all_edges-group xs [] = refl
all_edges-group xs (k ∷ ks) = rw (edges-members k xs, all_edges-group xs ks)

all_edges-hazards : (xs : List Access) → Perm (all_edges (index_loop [] xs)) (hazards xs)
all_edges-hazards xs =
    let ks = key_set StorageLocation_discrete (λ (x : Access). x.location) [] xs in
    rw (index_loop-eq-map xs, all_edges-group xs ks, ← unroll-meet xs)
      (unroll-regroup StorageLocation_discrete (λ x. x.location) emit ks xs
        (key_set-Nodup StorageLocation_discrete (λ x. x.location) [] xs Nodup-nil)
        (All-key_set StorageLocation_discrete (λ x. x.location) [] xs))

-- In the graph that is built, for every order of iteration, the adjacency map answers as a search
-- of the edge list would.
pub build-IsConsistent :
    (it : Iteration (StorageLocation × List Accessor)) (lists : List AccessList)
    → IsConsistent (build_conflict_graph it lists)
build-IsConsistent it lists = rw (build-add_conflicts it lists) (
    add_conflicts-IsConsistent (all_edges (it.arrange (location_index [] lists))) new
      new-IsConsistent)

-- For every order of iteration over the index, the edges of the graph are, up to order and each as
-- often, the conflicts found by comparing every access of the batch with every later one.
pub build-perm-hazards :
    (it : Iteration (StorageLocation × List Accessor)) (lists : List AccessList)
    → Perm (build_conflict_graph it lists).conflicts (hazards (accesses lists))
unfolding new
build-perm-hazards it lists =
    let index = location_index [] lists in
    rw (build-add_conflicts it lists, conflicts-add_conflicts (all_edges (it.arrange index)) new)
      (Perm.trans (flat_map-perm (λ e. edges e.0 e.1) (it.arrange-perm index))
        (rw (location_index-accesses [] lists) (all_edges-hazards (accesses lists))))
