-- ===== src/Simulator/Dedup/Comparison.antt =====
-- The comparison of entries is a total preorder and sorts by location first; the two steps of the
-- deduplication.
use Prim.Native.Nat.{Ordering}
use argus_core.Base.{List, ◌∷◌, ◌<◌, ◌≡◌, ◌≢◌, arith, ◌⊎◌}
use argus_core.Slices.Sorted.{IsOrder}
use argus_core.Types.{StorageLocation, read, write, AccessEntry}
use argus_core.Types.Order.{cmp_location, cmp_mode}
use argus_core.Simulator.Dedup.{cmp_entry, dedup_after}

-- The strict order of locations.
abbrev pub Before : StorageLocation → StorageLocation → Type 0
Before a b = (a.address < b.address) ⊎ ((a.address ≡ b.address) × (a.slot < b.slot))

-- `a` may stand before `b`.
abbrev pub MayPrecede : AccessEntry → AccessEntry → Type 0
MayPrecede a b =
    Before a.location b.location
    ⊎ ((a.location ≡ b.location) × ((b.mode ≡ read) ⊎ (a.mode ≡ write)))

pub cmp_entry-precede : (a b : AccessEntry) → cmp_entry a b ≢ Ordering.gt → MayPrecede a b
unfolding cmp_entry cmp_location cmp_mode
cmp_entry-precede a b h = ground arith

cmp_entry-flip : (a b : AccessEntry) → cmp_entry a b ≡ Ordering.gt → cmp_entry b a ≢ Ordering.gt
unfolding cmp_entry cmp_location cmp_mode
cmp_entry-flip a b h = ground arith

cmp_entry_trans :
    (a b c : AccessEntry)
    → cmp_entry a b ≢ Ordering.gt
    → cmp_entry b c ≢ Ordering.gt
    → cmp_entry a c ≢ Ordering.gt
unfolding cmp_entry cmp_location cmp_mode
cmp_entry_trans a b c h k = ground arith

pub cmp_entry-IsOrder : IsOrder cmp_entry
cmp_entry-IsOrder = record { flip = cmp_entry-flip; le_trans = cmp_entry_trans }

pub Before-trans : (a b c : StorageLocation) → Before a b → Before b c → Before a c
Before-trans a b c h k = ground arith

pub Before-irrefl : (a : StorageLocation) → ¬ Before a a
Before-irrefl a h = ground arith

pub dedup_after_same :
    (last a : AccessEntry) (rest : List AccessEntry)
    → a.location ≡ last.location
    → dedup_after last (a ∷ rest) ≡ dedup_after last rest
unfolding dedup_after
dedup_after_same last a rest p = ground arith

pub dedup_after_ne :
    (last a : AccessEntry) (rest : List AccessEntry)
    → a.location ≢ last.location
    → dedup_after last (a ∷ rest) ≡ a ∷ dedup_after a rest
unfolding dedup_after
dedup_after_ne last a rest p = ground arith
