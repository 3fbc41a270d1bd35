-- ===== src/Tests/Repository.antt =====
-- The unit tests that stand in the source files themselves.
use argus_core.Base.{ℕ, [], ◌∷◌, none, some, ◌≡◌, refl, length, ℕ_discrete}
use argus_core.Types.{Transaction, ok}
use argus_core.Simulator.Inspector.{new, into_entries, current_address}
use argus_core.Simulator.Dedup.{canonical}
use argus_core.Simulator.Batch.{Evm, simulate_batch, simulate_one_tx}
use argus_core.Provider.Labels.{lookup}
use argus_core.Provider.Slots.{known_slots}
use argus_core.Sink.Rows.{BlockSummaryRow, ConflictRow}
use argus_core.Sink.JsonStream.{wrote}
use argus_core.Sink.JsonStream.Output.{split_from}
use argus_core.Cli.Output.{write_ndjson}
use argus_core.Tests.Sinks.{buffered}
use argus_core.Tests.Writers.{put_digit}

-- crates/analyzer/src/simulator.rs
inspector_records_nothing_without_execution : into_entries (new (some 0)) ≡ []
unfolding new into_entries
inspector_records_nothing_without_execution = refl

inspector_tracks_initial_address : current_address (new (some 0)) ≡ some 0
unfolding new
inspector_tracks_initial_address = refl

inspector_none_address : current_address (new none) ≡ none
unfolding new
inspector_none_address = refl

empty_batch_returns_empty :
    {Db : Type 0} (evm : Evm Db) (db : Db) → simulate_batch evm db none [] ≡ ok []
unfolding simulate_batch
empty_batch_returns_empty evm db = refl

abbrev single_tx : Transaction
single_tx = record { hash = 0; from = 0; to = some 0; input = []; value = 0; gas = 21_000 }

-- An address without code runs nothing.
abbrev idle : Evm ℕ
idle = record { refuse = λ _. none; execute = λ _ _. [] }

single_tx_does_not_panic :
    simulate_batch idle 0 none (single_tx ∷ []) ≡ ok (record { tx_hash = 0; entries = [] } ∷ [])
unfolding simulate_batch simulate_one_tx canonical into_entries new
single_tx_does_not_panic = refl

-- crates/provider/src/labels.rs and slots.rs
lookup_weth :
    lookup 0xC02aaA39b223FE8D0A0e5C4F27eAD9083C756Cc2
    ≡ some (record { protocol = "WETH"; name = "Wrapped Ether" })
unfolding lookup ℕ_discrete
lookup_weth = refl

unknown_returns_none : lookup 0 ≡ none
unfolding lookup ℕ_discrete
unknown_returns_none = refl

known_uniswap_v3_pool :
    known_slots 0x88e6A0c2dDD26FEEb64F039a2c41296FcB3f5640 ≡ some (0 ∷ 1 ∷ 2 ∷ 3 ∷ 4 ∷ [])
unfolding known_slots ℕ_discrete
known_uniswap_v3_pool = refl

unknown_address_returns_none : known_slots 0 ≡ none
unfolding known_slots ℕ_discrete
unknown_address_returns_none = refl

-- crates/analyzer/src/sink/json_stream.rs
abbrev block_row : BlockSummaryRow
block_row = record {
  block_number = 21_000_000;
  total_txs = 181;
  txs_with_storage = 133;
  total_entries = 304;
  total_conflicts = 70;
  hotspot_count = 3;
  fetch_time_ms = 340;
  total_time_ms = 42_000;
  created_at = "2026-02-28T00:00:00Z";
}

abbrev meme_row : ConflictRow
meme_row = record {
  block_number = 21_000_000;
  tx_a = "0xabc";
  tx_b = "0xdef";
  contract_address = "0x502E";
  contract_protocol = "ERC-20";
  contract_name = "Meme Token";
  slot = "0x02";
  conflict_kind = "W-W";
  created_at = "2026-02-28T00:00:00Z";
}

ndjson_roundtrip :
    (write_ndjson {F = ℕ} buffered
      (put_digit 48)
      (put_digit 49)
      (put_digit 50)
      (record { writer = (100, []); rows_written = 0 })
      block_row
      (meme_row ∷ [])
      []).1
    ≡ wrote 2
unfolding write_ndjson
ndjson_roundtrip = refl

ndjson_lines :
    length (
      split_from []
        (write_ndjson {F = ℕ} buffered
          (put_digit 48)
          (put_digit 49)
          (put_digit 50)
          (record { writer = (100, []); rows_written = 0 })
          block_row
          (meme_row ∷ [])
          []).0.1)
    ≡ 2
unfolding write_ndjson
ndjson_lines = refl
