-- ===== src/Tests/Delivery.antt =====
-- Tests of a whole run into a file that has room for everything.
use Prim.Native.String.{String}
use argus_core.Base.{ℕ, List, [], ◌∷◌, ◌++◌, none, some, Option, ◌≡◌, refl, arith, ℕ_discrete}
use argus_core.HashMap.{update}
use argus_core.Types.{ok, write_write, StorageLocation_discrete}
use argus_core.Types.ConflictGraph as ConflictGraph
use argus_core.Graph.{build_conflict_graph}
use argus_core.Provider.Rpc.{connect, to_transaction, get_block_transactions}
use argus_core.Simulator.Batch.{simulate_batch_with_state, simulate_one_tx}
use argus_core.Simulator.Dedup.{canonical}
use argus_core.Simulator.Inspector as Inspector
use argus_core.Sink.Contention.{ContentionEvent}
use argus_core.Sink.JsonStream.{Bytes, Writer}
use argus_core.Sink.JsonStream.Output.{JsonLaws}
use argus_core.Cli.{Analysis, analyze, simulate, destination}
use argus_core.Cli.Main.{Outside, got, events_of, rendered, main}
use argus_core.Cli.Main.Delivery.{Lawful, Target, to_file, Delivered, main-Delivered}
use argus_core.Tests.Data.{in_order, writes_slot, slot_at}
use argus_core.Tests.Pipelines.{to_file as options}
use argus_core.Tests.Rendering.{whole, whole-NanLaws, formats, cut}
use argus_core.Tests.Runs.{wordy, first_tx, second_tx}

-- Every row is one digit.
abbrev digit : {Row : Type 0} → ℕ → Bytes → Row → Bytes × Option String
digit d held row = (held ++ d ∷ [], none)

abbrev roomy : Writer Bytes String
roomy = record { write_all = λ held b. (held ++ b, none); flush = λ held. (held, none) }

abbrev to_disk : Outside ℕ ℕ Bytes String
to_disk = record {
  float = whole;
  formats = formats;
  as_millis = λ d. d;
  writer = roomy;
  put_summary = digit 48;
  put_conflict = digit 49;
  put_event = digit 50;
  stdout = [];
  create = λ _. got [];
  to_string_pretty = λ _. got "{}";
  fetch_time = 3;
  total_time = 5;
  rows_secs = 100;
  events_secs = 101;
  render_secs = 102;
  groups_order = in_order;
  events_order = in_order;
  render_order = in_order;
}

abbrev digit-JsonLaws : {Row : Type 0} → JsonLaws {Row = Row} (λ (b : Bytes). b) (digit 48)
digit-JsonLaws = record {
  json = λ _. 48 ∷ [];
  one_line = λ _. (λ e. omega (arith, e), tt);
  to_writer-written = λ s row h. refl;
}

abbrev to_disk-Lawful : Lawful to_disk
to_disk-Lawful = record {
  writer = record { written = λ b. b; write_all-written = λ s b h. refl };
  flush = λ w h. refl;
  summary_json = digit-JsonLaws;
  conflict_json = record {
    json = λ _. 49 ∷ [];
    one_line = λ _. (λ e. omega (arith, e), tt);
    to_writer-written = λ s row h. refl;
  };
  event_json = record {
    json = λ _. 50 ∷ [];
    one_line = λ _. (λ e. omega (arith, e), tt);
    to_writer-written = λ s row h. refl;
  };
  never_fails = record {
    writes = λ s b. refl;
    flushes = λ s. refl;
    summaries = λ s row. refl;
    rows = λ s row. refl;
    events = λ s row. refl;
  };
}

-- Both transactions write one slot.
abbrev found : Analysis
found = record {
  transactions = first_tx ∷ second_tx ∷ [];
  access_lists =
      record { tx_hash = 1; entries = writes_slot (slot_at 20 4) ∷ [] }
      ∷ record { tx_hash = 2; entries = writes_slot (slot_at 20 4) ∷ [] }
      ∷ [];
  graph = record {
    conflicts = record { tx_a = 1; tx_b = 2; location = slot_at 20 4; kind = write_write } ∷ [];
    adjacency = (1, 2 ∷ []) ∷ (2, 1 ∷ []) ∷ [];
  };
}

analyzed : analyze wordy options ≡ ok found
unfolding analyze connect get_block_transactions simulate simulate_batch_with_state simulate_one_tx
    build_conflict_graph canonical Inspector.into_entries Inspector.on_hook Inspector.new
    StorageLocation_discrete ℕ_discrete update ConflictGraph.add_conflict ConflictGraph.new
    to_transaction
analyzed = refl

target : Target to_disk (wordy.display) to_disk-Lawful options found
unfolding destination
target = to_file "/tmp/rows" [] refl refl refl

main-Delivered_example :
    (events : List (ContentionEvent ℕ)) × (events_of to_disk wordy.display options found
      ≡ some events)
    × (text : String) × (rendered to_disk wordy.display options found ≡ some text)
    × Delivered to_disk wordy.display to_disk-Lawful options found events text
        (main to_disk wordy options)
main-Delivered_example =
    main-Delivered to_disk wordy to_disk-Lawful options found whole-NanLaws analyzed (omega arith)
      (λ _. cut) target
