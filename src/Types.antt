-- ===== src/Types.antt =====
-- crates/core/src/types.rs and crates/core/src/error.rs: the domain types. `Address`, `B256` and
-- `U256` are fixed-size big-endian byte strings (20 and 32 bytes), whose derived order is the
-- order of the numbers that they spell; each stands here for that number.
pub mod Order
pub mod ConflictGraph
use argus_core.Base.{ℕ, String, List, Option, ◌≡◌, ℕ_discrete, ap}
use Prim.Native.String.{◌++◌}

abbrev pub Address : Type 0
Address = ℕ

abbrev pub B256 : Type 0
B256 = ℕ

abbrev pub U256 : Type 0
U256 = ℕ

pub record StorageLocation : Type 0 where
  pub address : Address
  pub slot : B256

pub data AccessMode : Type 0 where
  read write : AccessMode

pub record AccessEntry : Type 0 where
  pub location : StorageLocation
  pub mode : AccessMode

pub record AccessList : Type 0 where
  pub tx_hash : B256
  pub entries : List AccessEntry

-- `input` is the list of its bytes.
pub record Transaction : Type 0 where
  pub hash : B256
  pub from : Address
  pub to : Option Address
  pub input : List ℕ
  pub value : U256
  pub gas : ℕ

pub data ConflictKind : Type 0 where
  write_write read_write : ConflictKind

pub record Conflict : Type 0 where
  pub tx_a : B256
  pub tx_b : B256
  pub location : StorageLocation
  pub kind : ConflictKind

pub data ArgusError : Type 0 where
  provider simulation invalid_input internal : String → ArgusError

pub data ArgusResult {ℓ} (A : Type ℓ) : Type ℓ where
  ok : A → ArgusResult A
  err : ArgusError → ArgusResult A

-- The `?` operator.
infixl 5 ◌>>=◌
abbrev pub ◌>>=◌ {ℓ κ} :
    {A : Type ℓ} {B : Type κ} → ArgusResult A → (A → ArgusResult B) → ArgusResult B
ok a >>= f = f a
err e >>= f = err e

-- `Display` of the error.
unfoldable pub display : ArgusError → String
display (provider s) = "Provider error: " ++ s
display (simulation s) = "Simulation error: " ++ s
display (invalid_input s) = "Invalid input: " ++ s
display (internal s) = "Internal error: " ++ s

-- The derived `==` of a location.
unfoldable pub StorageLocation_discrete : Discrete StorageLocation
StorageLocation_discrete a b = elim (ℕ_discrete a.address b.address) [
  | yes p ↦ elim (ℕ_discrete a.slot b.slot) [
    | yes q ↦ yes (λ i. record { address = p i; slot = q i })
    | no q ↦ no (λ e. q (ap (λ (l : StorageLocation). l.slot) e))
  ]
  | no p ↦ no (λ e. p (ap (λ (l : StorageLocation). l.address) e))
]
