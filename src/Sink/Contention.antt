-- ===== src/Sink/Contention.antt =====
-- `ContentionEvent` of crates/analyzer/src/sink/mod.rs and `Report::to_contention_events`. The type
-- `f64` and its operations are parameters.
pub mod Buckets
pub mod Events
pub mod Descending
pub mod Severity
pub mod Agreement
use Prim.Native.Nat.{Ordering}
use Prim.Native.String.{String}
use argus_core.Base.{
  ℕ, ◌+◌, ◌%◌, ◌^◌, List, [], ◌∷◌, map, Option, none, some, Bool, if◌then◌else◌, length, ℕ_discrete,
  String_discrete,
}
use argus_core.HashMap.{Iteration, set_insert}
use argus_core.HashMap.Grouping.{group_loop}
use argus_core.Slices.{try_sort_by}
use argus_core.Types.{Address, B256, Conflict, ConflictKind, write_write, read_write}
use argus_core.Types.ConflictGraph.{ConflictGraph}
use argus_core.Reporter.Build.{Report, Display, label_of}
use argus_core.Sink.Rows.{as_u32}

pub record Float (F : Type 0) : Type 0 where
  -- `as f64`, and the literals
  pub of_nat : ℕ → F
  pub div : F → F → F
  pub mul : F → F → F
  pub round : F → F
  pub ge : F → F → Bool
  pub partial_cmp : F → F → Option Ordering

pub record ContentionEvent (F : Type 0) : Type 0 where
  pub block_number : ℕ
  pub contract_address : String
  pub contract_protocol : String
  pub contract_name : String
  pub slot_id : String
  pub hazard_type : String
  pub affected_tx_count : ℕ
  pub conflict_count : ℕ
  pub conflict_density : F
  pub severity : String
  pub created_at : String

-- Hash set and counter of one key; the counter is a `u32`.
pub record Bucket : Type 0 where
  pub tx_hashes : List B256
  pub count : ℕ

abbrev pub empty_bucket : Bucket
empty_bucket = record { tx_hashes = []; count = 0 }

pub record Key : Type 0 where
  pub address : Address
  pub slot : B256
  pub hazard : String

unfoldable pub Key_discrete : Discrete Key
Key_discrete a b = elim (ℕ_discrete a.address b.address) [
  | no p ↦ no (λ e. p (λ i. (e i).address))
  | yes p ↦ elim (ℕ_discrete a.slot b.slot) [
    | no q ↦ no (λ e. q (λ i. (e i).slot))
    | yes q ↦ elim (String_discrete a.hazard b.hazard) [
      | no r ↦ no (λ e. r (λ i. (e i).hazard))
      | yes r ↦ yes (λ i. record { address = p i; slot = q i; hazard = r i })
    ]
  ]
]

unfoldable pub hazard_of : ConflictKind → String
hazard_of write_write = "WAW"
hazard_of read_write = "RAW"

abbrev pub key_of : Conflict → Key
key_of c = record {
  address = c.location.address;
  slot = c.location.slot;
  hazard = hazard_of c.kind;
}

-- The body of the loop over the conflicts, at the bucket of the key.
unfoldable pub add_to_bucket : Bucket → Conflict → Bucket
add_to_bucket b c = record {
  tx_hashes = set_insert ℕ_discrete c.tx_b (set_insert ℕ_discrete c.tx_a b.tx_hashes);
  count = as_u32 (b.count + 1);
}

unfoldable pub buckets_of : List Conflict → List (Key × Bucket)
unfolding add_to_bucket group_loop
buckets_of = group_loop Key_discrete key_of empty_bucket add_to_bucket []

module _ {F : Type 0} (float : Float F) where
  open float use {of_nat, div, mul, round, ge, partial_cmp}

  -- The guards of `match density`, in their order.
  unfoldable pub severity_label : F → String
  severity_label d =
      if ge d (of_nat 5)
      then "CRITICAL"
      else if ge d (of_nat 3)
      then "HIGH"
      else if ge d (of_nat 1)
      then "MEDIUM"
      else "LOW"

  abbrev pub density_of : ℕ → ℕ → F
  density_of count affected = div (of_nat count) (of_nat affected)

  -- `(density * 100.0).round() / 100.0`
  abbrev pub hundredths : F → F
  hundredths density = div (round (mul density (of_nat 100))) (of_nat 100)

  module _ {Duration : Type 0} (display : Display) (report : Report Duration) (now : String) where
    open display use {show_address, show_word}

    unfoldable pub to_event : Key × Bucket → ContentionEvent F
    unfolding severity_label
    to_event (key, bucket) =
        let affected = as_u32 (length bucket.tx_hashes) in
        record {
          block_number = report.block_number;
          contract_address = show_address key.address;
          contract_protocol = (label_of display key.address).0;
          contract_name = (label_of display key.address).1;
          slot_id = show_word key.slot;
          hazard_type = key.hazard;
          affected_tx_count = affected;
          conflict_count = bucket.count;
          conflict_density = hundredths (density_of bucket.count affected);
          severity = severity_label (density_of bucket.count affected);
          created_at = now;
        }

    -- `b.conflict_density.partial_cmp(&a.conflict_density)`; `unwrap` panics at `none`.
    abbrev pub cmp_event : ContentionEvent F → ContentionEvent F → Option Ordering
    cmp_event a b = partial_cmp b.conflict_density a.conflict_density

    -- `none` is the panic of the `unwrap`.
    unfoldable pub to_contention_events :
        Iteration (Key × Bucket) → ConflictGraph → Option (List (ContentionEvent F))
    unfolding buckets_of to_event try_sort_by
    to_contention_events it graph =
        try_sort_by cmp_event (map to_event (it.arrange (buckets_of graph.conflicts)))
