-- ===== src/Tests/Runs.antt =====
-- Tests of whole runs of the program.
use Prim.Native.String.{String, ◌++◌}
use mathlib.Core.List.{
  Mem, Nodup, Nodup-nil, Nodup-cons, mem-cons_self, mem-cons_of_mem, not-mem-nil,
}
use argus_core.Base.{map, false, ℕ, ◌+◌, [], none, some, true, ◌≡◌, ◌⊎◌, refl, arith, length}
use argus_core.Types.{Transaction, ArgusResult, ArgusError, ok, err, internal}
use argus_core.Types.ConflictGraph.{has_conflict}
use argus_core.Graph.Queries.Collisions.{collide}
use argus_core.Provider.Rpc.{connect, to_transaction, get_block_transactions}
use argus_core.Simulator.Batch.{simulate_batch}
use argus_core.Cli.{Options, Environment, Analysis, analyze, simulate}
use argus_core.Cli.Pipeline.Causes.{Cause, analyze-Cause}
use argus_core.Cli.Pipeline.Collisions.{recorded_of, analyze-collide}
use argus_core.Cli.Main.{Outside, got, refused}
use argus_core.Tests.Data.{in_order, three_lists, three_graph}
use argus_core.Tests.Pipelines.{to_file, quiet, two_transactions, nonempty, counting}
use argus_core.Tests.Queries.{other}
use argus_core.Tests.Rendering.{whole, long, formats}

-- A dry run whose blocking task panics.
abbrev broken : Environment ℕ ℕ
broken = record quiet { batch_panic = some "stack" }

abbrev dry : Options
dry = record to_file { dry_run = true }

panics : analyze broken dry ≡ err (internal ("spawn_blocking panicked: " ++ "stack"))
unfolding analyze connect get_block_transactions simulate simulate_batch
panics = refl

analyze-Cause_example :
    ((a : Analysis) × (analyze broken dry ≡ ok a))
    ⊎ ((e : ArgusError) × (analyze broken dry ≡ err e) × Cause broken dry e)
analyze-Cause_example = analyze-Cause broken dry

abbrev three : Analysis
three = record { transactions = []; access_lists = three_lists; graph = three_graph }

-- Files that cannot be created.
abbrev read_only : Outside ℕ ℕ ℕ String
read_only = record {
  float = whole;
  formats = formats;
  as_millis = λ d. d;
  writer = counting;
  put_summary = λ n _. (n + 1, none);
  put_conflict = λ n _. (n + 1, none);
  put_event = λ n _. (n + 1, none);
  stdout = 0;
  create = λ _. refused "read-only";
  to_string_pretty = λ _. got "{}";
  fetch_time = 3;
  total_time = 5;
  rows_secs = 100;
  events_secs = 101;
  render_secs = 102;
  groups_order = in_order;
  events_order = in_order;
  render_order = in_order;
}

-- The same node, with words that can be cut.
abbrev pub wordy : Environment ℕ ℕ
wordy = record quiet { display = long }

abbrev edges_of : ArgusResult Analysis → ℕ
edges_of (ok a) = length a.graph.conflicts
edges_of (err e) = 0

distinct : Nodup (map (λ tx. tx.hash) (map to_transaction two_transactions))
unfolding to_transaction
distinct =
    Nodup-cons.1
      (other 1 (λ e. omega (arith, e)) not-mem-nil, Nodup-cons.1 (not-mem-nil, Nodup-nil))

abbrev pub first_tx : Transaction
first_tx = record { hash = 1; from = 10; to = some 20; input = []; value = 0; gas = 21_000 }

abbrev pub second_tx : Transaction
second_tx = record { hash = 2; from = 11; to = some 20; input = []; value = 0; gas = 21_000 }

first_among : Mem first_tx (map to_transaction two_transactions)
unfolding to_transaction
first_among = mem-cons_self

second_among : Mem second_tx (map to_transaction two_transactions)
unfolding to_transaction
second_among = mem-cons_of_mem _ mem-cons_self

analyze-collide_example :
    (a : Analysis) × (analyze quiet to_file ≡ ok a)
    × (has_conflict a.graph 1 2
        ≡ collide
            (recorded_of quiet to_file 0 two_transactions first_tx)
            (recorded_of quiet to_file 0 two_transactions second_tx))
    × (has_conflict a.graph 1 1 ≡ false)
analyze-collide_example =
    analyze-collide quiet to_file 0 two_transactions nonempty refl refl refl (refl, (refl, tt))
      first_tx second_tx distinct first_among second_among (λ e. omega (arith, e))
