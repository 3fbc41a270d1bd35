-- ===== src/Tests/Pipelines.antt =====
-- Tests of the pipeline.
use Prim.Native.String.{String, ◌++◌, len}
use mathlib.Core.List.{Perm}
use argus_core.Base.{ℕ, ◌+◌, List, [], ◌∷◌, map, none, some, false, ◌≡◌, ◌≢◌, refl, ap, arith}
use argus_core.Types.{ok}
use argus_core.Types.ConflictGraph.Adjacency.{IsConsistent}
use argus_core.Graph.Hazards.{accesses, hazards}
use argus_core.Simulator.Inspector.{step, opcode_sload, opcode_sstore}
use argus_core.Simulator.Batch.{recorded}
use argus_core.Simulator.Batch.Outcome.{AllDescribe}
use argus_core.Provider.Rpc.{reply, RpcTransaction, to_transaction}
use argus_core.Reporter.Build.{Report, build}
use argus_core.Sink.Rows.{BlockSummaryRow, ConflictRow, to_rows_from_graph}
use argus_core.Sink.JsonStream.{Writer, JsonStreamSink, wrote}
use argus_core.Cli.{Options, Environment, Analysis, state_for, analyze}
use argus_core.Cli.Pipeline.{analyze-perm-hazards}
use argus_core.Cli.Output.{write_ndjson}
use argus_core.Tests.Data.{in_order, plain, three_lists, three_graph}

abbrev pub to_file : Options
to_file = record {
  rpc_url = "http://node";
  block = 17;
  json = false;
  dry_run = false;
  sink = some ("ndjson:" ++ "/tmp/rows");
}

abbrev pub two_transactions : List RpcTransaction
two_transactions =
    record { tx_hash = 1; signer = 10; to = some 20; input = []; value = 0; gas_limit = 21_000 }
    ∷ record { tx_hash = 2; signer = 11; to = some 20; input = []; value = 0; gas_limit = 21_000 }
    ∷ []

-- A node that answers everything with zero, a cache that counts, and transactions that read a slot
-- and write it again.
abbrev pub quiet : Environment ℕ ℕ
quiet = record {
  display = plain;
  dial = λ _. reply 0;
  block_at = λ _ _. reply (some two_transactions);
  node_at = λ _ _. record {
    account_at = λ _ _. record { balance = reply 0; nonce = reply 0; code = reply [] };
    storage_at = λ _ _ _. reply 0;
    task_panic = λ _. none;
    show_address = λ _. "address";
    show_slot = λ _. "slot";
  };
  evm = record {
    refuse = λ _. none;
    execute = λ _ _. step opcode_sload (4 ∷ []) ∷ step opcode_sstore (1 ∷ 4 ∷ []) ∷ [];
  };
  cache = record {
    empty = 0;
    insert_account_info = λ _ _ n. n + 1;
    insert_account_storage = λ _ _ _ n. n + 1;
  };
  batch_panic = none;
  addresses = in_order;
  completion = in_order;
  index = in_order;
}

pub nonempty : ◌≢◌ {A = String} to_file.rpc_url ""
nonempty e = omega (arith, ap len e)

analyze-perm-hazards_example :
    (a : Analysis) × (analyze quiet to_file ≡ ok a)
    × AllDescribe
        (recorded quiet.evm (state_for quiet to_file 0 (map to_transaction two_transactions)))
        (map to_transaction two_transactions)
        a.access_lists
    × Perm a.graph.conflicts (hazards (accesses a.access_lists))
    × IsConsistent a.graph
analyze-perm-hazards_example =
    analyze-perm-hazards quiet to_file 0 two_transactions nonempty refl refl refl (refl, (refl, tt))

-- A writer that counts its writes and never fails.
abbrev pub counting : Writer ℕ String
counting = record { write_all = λ n _. (n + 1, none); flush = λ n. (n, none) }

abbrev pub fresh : JsonStreamSink ℕ
fresh = record { writer = 0; rows_written = 0 }

abbrev three_report : Report ℕ
three_report = build plain in_order 17 three_lists three_graph 3 5

abbrev pub rows : BlockSummaryRow × List ConflictRow
rows = to_rows_from_graph (λ d. d) plain three_report three_graph "now"

reported :
    (write_ndjson {F = ℕ} counting
      (λ n _. (n, none))
      (λ n _. (n, none))
      (λ n _. (n, none))
      fresh
      rows.0
      rows.1
      []).1
    ≡ wrote 4
unfolding write_ndjson to_rows_from_graph
reported = refl
