-- ===== src/Graph/Queries/Irreflexive.antt =====
-- What the graph answers about a transaction and itself.
use mathlib.Core.List.{Mem, Nodup, Nodup-cons, mem-cons_self, mem-cons_of_mem}
use argus_core.Base.{
  any, any-perm, List, [], ◌∷◌, ◌++◌, map, false, ◌≡◌, ◌≢◌, refl, sym, ◌∙◌, arith, All, All-append,
  All-map, All-mono,
}
use argus_core.HashMap.{Iteration}
use argus_core.Types.{B256, StorageLocation, AccessEntry, AccessList}
use argus_core.Types.ConflictGraph.{has_conflict}
use argus_core.Types.ConflictGraph.Adjacency.{joins}
use argus_core.Simulator.Dedup.Comparison.{Before-irrefl}
use argus_core.Simulator.Dedup.Ascending.{IsAscending}
use argus_core.Graph.{Accessor, build_conflict_graph}
use argus_core.Graph.Hazards.{Access, access_of, accesses}
use argus_core.Graph.Build.{build-IsConsistent, build-perm-hazards}
use argus_core.Graph.Queries.{clashes, links, any_pair, any-joins-hazards}

-- Of one transaction, the two accesses do not clash.
abbrev Apart : Access → Access → Type 0
Apart x y = x.tx ≡ y.tx → clashes x y ≡ false

abbrev AllApart : List Access → Type 0
AllApart [] = Unit
AllApart (x ∷ xs) = All (Apart x) xs × AllApart xs

any-links-false :
    (a : B256) (x : Access) (ys : List Access) → All (Apart x) ys → any (links a a x) ys ≡ false
any-links-false a x [] h = refl
any-links-false a x (y ∷ ys) h = ground (arith, h.0, any-links-false a x ys h.1)

any_pair-false : (a : B256) (xs : List Access) → AllApart xs → any_pair a a xs ≡ false
any_pair-false a [] h = refl
any_pair-false a (x ∷ xs) h = ground (arith, any-links-false a x xs h.0, any_pair-false a xs h.1)

AllApart-append :
    (xs ys : List Access)
    → AllApart xs
    → AllApart ys
    → All (λ x. All (Apart x) ys) xs
    → AllApart (xs ++ ys)
AllApart-append [] ys h k c = k
AllApart-append (x ∷ xs) ys h k c =
    (All-append (Apart x) xs ys h.0 c.0, AllApart-append xs ys h.1 k c.1)

clashes-elsewhere : (x y : Access) → x.location ≢ y.location → clashes x y ≡ false
unfolding clashes
clashes-elsewhere x y h = ground arith

-- The entries of one access list are at different locations.
entries-AllApart :
    (tx : B256) (es : List AccessEntry) → IsAscending es → AllApart (map (access_of tx) es)
entries-AllApart tx [] h = tt
entries-AllApart tx (e ∷ es) h = (
  All-map (Apart (access_of tx e)) (access_of tx) es (
      All-mono es
        (λ d before _.
          clashes-elsewhere (access_of tx e) (access_of tx d)
            (λ same. Before-irrefl e.location (rw (sym same) at before)))
        h.0),
  entries-AllApart tx es h.1,
)

-- Accesses of another transaction are apart from all.
others-Apart :
    (x : Access) (lists : List AccessList)
    → ¬ Mem x.tx (map (λ al. al.tx_hash) lists)
    → All (Apart x) (accesses lists)
others-Apart x [] h = tt
others-Apart x (al ∷ lists) h =
    All-append (Apart x) (map (access_of al.tx_hash) al.entries) (accesses lists)
      (All-map (Apart x) (access_of al.tx_hash) al.entries (every al.entries))
      (others-Apart x lists (λ m. h (mem-cons_of_mem al.tx_hash m)))
  where
    every : (es : List AccessEntry) → All (λ e. Apart x (access_of al.tx_hash e)) es
    every [] = tt
    every (e ∷ es) = (λ same. absurd (h (rw same mem-cons_self)), every es)

accesses-AllApart :
    (lists : List AccessList)
    → Nodup (map (λ al. al.tx_hash) lists)
    → All (λ al. IsAscending al.entries) lists
    → AllApart (accesses lists)
accesses-AllApart [] d h = tt
accesses-AllApart (al ∷ lists) d h =
    AllApart-append (map (access_of al.tx_hash) al.entries) (accesses lists)
      (entries-AllApart al.tx_hash al.entries h.0) (accesses-AllApart lists (Nodup-cons.0 d).1 h.1)
      (All-map (λ x. All (Apart x) (accesses lists)) (access_of al.tx_hash) al.entries
        (every al.entries))
  where
    every :
        (es : List AccessEntry)
        → All (λ e. All (Apart (access_of al.tx_hash e)) (accesses lists)) es
    every [] = tt
    every (e ∷ es) = (others-Apart (access_of al.tx_hash e) lists (Nodup-cons.0 d).0, every es)

-- If the transactions of the batch have different hashes and each access list ascends strictly by
-- location, as those of the simulator do, no transaction conflicts with itself.
pub has_conflict_irrefl :
    (it : Iteration (StorageLocation × List Accessor)) (lists : List AccessList) (a : B256)
    → Nodup (map (λ al. al.tx_hash) lists)
    → All (λ al. IsAscending al.entries) lists
    → has_conflict (build_conflict_graph it lists) a a ≡ false
has_conflict_irrefl it lists a d h =
    (build-IsConsistent it lists).same a a
    ∙ any-perm (joins a a) (build-perm-hazards it lists)
    ∙ any-joins-hazards a a (accesses lists)
    ∙ any_pair-false a (accesses lists) (accesses-AllApart lists d h)
