-- ===== src/Sink/Rows.antt =====
-- `BlockSummaryRow` and `ConflictRow` of crates/analyzer/src/sink/mod.rs, and the methods of
-- `Report` that build them. The time stamp `now` is that of `chrono_now`.
pub mod Edges
use Prim.Native.String.{String}
use argus_core.Base.{ℕ, ◌%◌, ◌^◌, List, [], map, length}
use argus_core.Types.{Conflict, ConflictKind, write_write, read_write}
use argus_core.Types.ConflictGraph.{ConflictGraph}
use argus_core.Reporter.Build.{Report, Display, label_of}

pub record ConflictRow : Type 0 where
  pub block_number : ℕ
  pub tx_a : String
  pub tx_b : String
  pub contract_address : String
  pub contract_protocol : String
  pub contract_name : String
  pub slot : String
  pub conflict_kind : String
  pub created_at : String

pub record BlockSummaryRow : Type 0 where
  pub block_number : ℕ
  pub total_txs : ℕ
  pub txs_with_storage : ℕ
  pub total_entries : ℕ
  pub total_conflicts : ℕ
  pub hotspot_count : ℕ
  pub fetch_time_ms : ℕ
  pub total_time_ms : ℕ
  pub created_at : String

-- `as u32` and `as u64`
abbrev pub as_u32 : ℕ → ℕ
as_u32 n = n % 2 ^ 32

abbrev pub as_u64 : ℕ → ℕ
as_u64 n = n % 2 ^ 64

-- "W-W" or "R-W"
unfoldable pub kind_text : ConflictKind → String
kind_text write_write = "W-W"
kind_text read_write = "R-W"

module _ {Duration : Type 0} (as_millis : Duration → ℕ) (display : Display) where
  open display use {show_address, show_word}

  unfoldable pub summary_row : Report Duration → String → BlockSummaryRow
  summary_row r now = record {
    block_number = r.block_number;
    total_txs = as_u32 r.total_txs;
    txs_with_storage = as_u32 r.txs_with_storage;
    total_entries = as_u32 r.total_entries;
    total_conflicts = as_u32 r.total_conflicts;
    hotspot_count = as_u32 (length r.groups);
    fetch_time_ms = as_u64 (as_millis r.fetch_time);
    total_time_ms = as_u64 (as_millis r.total_time);
    created_at = now;
  }

  -- `to_rows` returns no conflict rows.
  unfoldable pub to_rows : Report Duration → String → BlockSummaryRow × List ConflictRow
  unfolding summary_row
  to_rows r now = (summary_row r now, [])

  unfoldable pub conflict_row : Report Duration → String → Conflict → ConflictRow
  unfolding kind_text
  conflict_row r now c = record {
    block_number = r.block_number;
    tx_a = show_word c.tx_a;
    tx_b = show_word c.tx_b;
    contract_address = show_address c.location.address;
    contract_protocol = (label_of display c.location.address).0;
    contract_name = (label_of display c.location.address).1;
    slot = show_word c.location.slot;
    conflict_kind = kind_text c.kind;
    created_at = now;
  }

  unfoldable pub to_rows_from_graph :
      Report Duration → ConflictGraph → String → BlockSummaryRow × List ConflictRow
  unfolding summary_row conflict_row
  to_rows_from_graph r graph now = (summary_row r now, map (conflict_row r now) graph.conflicts)
