-- ===== src/Graph/Hazards.antt =====
-- What a conflict is, with no index and no hash map: two accesses of the batch, the one before the
-- other, at one location, not both reads.
use argus_core.Base.{
  List, [], ◌∷◌, map, Option, none, some, ite, flat_map, Bool, true, false, ◌&&◌, ◌||◌,
  if◌then◌else◌,
}
use argus_core.HashMap.Regroup.{unroll}
use argus_core.Types.{
  B256, StorageLocation, StorageLocation_discrete, AccessMode, read, write, AccessEntry, AccessList,
  ConflictKind, write_write, read_write, Conflict,
}

-- One storage access of the batch.
pub record Access : Type 0 where
  pub tx : B256
  pub location : StorageLocation
  pub mode : AccessMode

abbrev pub access_of : B256 → AccessEntry → Access
access_of tx e = record { tx = tx; location = e.location; mode = e.mode }

-- All accesses, in the order of the lists.
abbrev pub accesses : List AccessList → List Access
accesses = flat_map (λ al. map (access_of al.tx_hash) al.entries)

abbrev pub is_write : AccessMode → Bool
is_write mode = elim mode [ read ↦ false | write ↦ true ]

-- Two accesses of one location are in each other's way if one of them is a write.
abbrev pub clash : AccessMode → AccessMode → Option ConflictKind
clash m n =
    if is_write m && is_write n
    then some write_write
    else if is_write m || is_write n
    then some read_write
    else none

-- The conflict of an access with a later one, if there is one.
unfoldable pub meet : Access → Access → List Conflict
meet x y =
    ite (StorageLocation_discrete y.location x.location)
      (elim (clash x.mode y.mode) [
        | none ↦ []
        | some kind ↦ record { tx_a = x.tx; tx_b = y.tx; location = x.location; kind = kind } ∷ []
      ])
      []

-- Every conflict of the batch: each access against each later one.
abbrev pub hazards : List Access → List Conflict
hazards = unroll (λ x later. flat_map (meet x) later)
