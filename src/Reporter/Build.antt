-- ===== src/Reporter/Build.antt =====
-- `Report::build` of crates/analyzer/src/reporter.rs. `Display` of numbers and addresses, and the
-- durations, are parameters.
use Prim.Native.Nat.{compare, Ordering}
use Prim.Native.String.{String, ◌++◌}
use argus_core.Base.{
  ℕ, ◌+◌, List, [], ◌∷◌, map, none, some, Bool, true, false, ◌&&◌, ltb, if◌then◌else◌, length,
  sum_by, ℕ_discrete,
}
use argus_core.HashMap.{Iteration, set_insert}
use argus_core.HashMap.Grouping.{group_loop}
use argus_core.Slices.{sort_by}
use argus_core.Types.{Address, B256, AccessList, Conflict, ConflictKind, write_write, read_write}
use argus_core.Types.ConflictGraph.{ConflictGraph, len}
use argus_core.Provider.Labels.{lookup}

-- Per contract.
pub record ContractConflicts : Type 0 where
  pub slots : List B256
  pub tx_hashes : List B256
  pub conflict_count : ℕ
  pub ww_count : ℕ
  pub rw_count : ℕ

abbrev pub no_conflicts : ContractConflicts
no_conflicts = record { slots = []; tx_hashes = []; conflict_count = 0; ww_count = 0; rw_count = 0 }

-- The `match` on the kind.
unfoldable pub count_kind : ConflictKind → ContractConflicts → ContractConflicts
count_kind write_write e = record e { ww_count = e.ww_count + 1 }
count_kind read_write e = record e { rw_count = e.rw_count + 1 }

-- The body of the loop over the conflicts, at the entry of the contract.
unfoldable pub add_to_contract : ContractConflicts → Conflict → ContractConflicts
unfolding count_kind
add_to_contract e c = count_kind c.kind (record {
  slots = set_insert ℕ_discrete c.location.slot e.slots;
  tx_hashes = set_insert ℕ_discrete c.tx_b (set_insert ℕ_discrete c.tx_a e.tx_hashes);
  conflict_count = e.conflict_count + 1;
  ww_count = e.ww_count;
  rw_count = e.rw_count;
})

-- `by_address.entry(c.location.address).or_default()` for every conflict.
unfoldable pub by_address : List Conflict → List (Address × ContractConflicts)
unfolding add_to_contract group_loop
by_address = group_loop ℕ_discrete (λ c. c.location.address) no_conflicts add_to_contract []

pub record ConflictGroup : Type 0 where
  pub address : Address
  pub protocol : String
  pub label : String
  pub slot_count : ℕ
  pub tx_count : ℕ
  pub conflict_count : ℕ
  pub kind_summary : String

pub record Report (Duration : Type 0) : Type 0 where
  pub block_number : ℕ
  pub total_txs : ℕ
  pub txs_with_storage : ℕ
  pub total_entries : ℕ
  pub total_conflicts : ℕ
  pub groups : List ConflictGroup
  pub fetch_time : Duration
  pub total_time : Duration

-- `Display` for the numbers, addresses and 256-bit words that the texts show.
pub record Display : Type 0 where
  pub show_number : ℕ → String
  pub show_address : Address → String
  pub show_word : B256 → String

abbrev pub has_entries : AccessList → Bool
has_entries al = elim al.entries [ [] ↦ false | _ ↦ true ]

-- `.iter().filter(..).count()`
abbrev pub count_with_storage : List AccessList → ℕ
count_with_storage [] = 0
count_with_storage (al ∷ lists) = (if has_entries al then 1 else 0) + count_with_storage lists

module _ (display : Display) where
  open display use {show_number, show_address}

  -- Protocol and name of a contract, with the fallback.
  unfoldable pub label_of : Address → String × String
  label_of addr = elim (lookup addr) [
    | some l ↦ (l.protocol, l.name)
    | none ↦ ("Unknown", show_address addr)
  ]

  unfoldable pub kind_summary_of : ContractConflicts → String
  kind_summary_of cc =
      if ltb 0 cc.rw_count && ltb 0 cc.ww_count
      then show_number cc.ww_count ++ (" W-W, " ++ (show_number cc.rw_count ++ " R-W"))
      else if ltb 0 cc.ww_count
      then show_number cc.ww_count ++ " W-W"
      else show_number cc.rw_count ++ " R-W"

  unfoldable pub to_group : Address × ContractConflicts → ConflictGroup
  unfolding label_of kind_summary_of
  to_group (addr, cc) = record {
    address = addr;
    protocol = (label_of addr).0;
    label = (label_of addr).1;
    slot_count = length cc.slots;
    tx_count = length cc.tx_hashes;
    conflict_count = cc.conflict_count;
    kind_summary = kind_summary_of cc;
  }

  -- `b.conflict_count.cmp(&a.conflict_count)`
  abbrev pub cmp_group : ConflictGroup → ConflictGroup → Ordering
  cmp_group a b = compare b.conflict_count a.conflict_count

  unfoldable pub build :
      {Duration : Type 0}
      → Iteration (Address × ContractConflicts)
      → ℕ
      → List AccessList
      → ConflictGraph
      → Duration
      → Duration
      → Report Duration
  unfolding by_address to_group sort_by len
  build it block_number access_lists graph fetch_time total_time = record {
    block_number = block_number;
    total_txs = length access_lists;
    txs_with_storage = count_with_storage access_lists;
    total_entries = sum_by (λ al. length al.entries) access_lists;
    total_conflicts = len graph;
    groups = sort_by cmp_group (map to_group (it.arrange (by_address graph.conflicts)));
    fetch_time = fetch_time;
    total_time = total_time;
  }
