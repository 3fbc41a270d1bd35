-- ===== src/Types/Order.antt =====
-- The orders of crates/core/src/types.rs: `AccessMode` by hand, `StorageLocation` derived.
use Prim.Native.Nat.{compare, Ordering}
use argus_core.Base.{ℕ}
use argus_core.Types.{StorageLocation, AccessMode, read, write}

-- `Read = 0`, `Write = 1`
unfoldable pub discriminant : AccessMode → ℕ
discriminant read = 0
discriminant write = 1

-- `Ord::cmp` of `AccessMode`, by the discriminants
unfoldable pub cmp_mode : AccessMode → AccessMode → Ordering
unfolding discriminant
cmp_mode a b = compare (discriminant a) (discriminant b)

-- `Ordering::then`
abbrev pub then_cmp : Ordering → Ordering → Ordering
then_cmp Ordering.eq o = o
then_cmp o _ = o

-- `Ordering::reverse`
abbrev pub reverse_cmp : Ordering → Ordering
reverse_cmp Ordering.lt = Ordering.gt
reverse_cmp Ordering.eq = Ordering.eq
reverse_cmp Ordering.gt = Ordering.lt

-- The derived `Ord::cmp` of `StorageLocation`: field by field
unfoldable pub cmp_location : StorageLocation → StorageLocation → Ordering
cmp_location a b = then_cmp (compare a.address b.address) (compare a.slot b.slot)
