-- ===== src/Sink/Contention/Agreement.antt =====
-- The three outputs against each other: the report, the conflict rows and the contention events.
use Prim.Native.String.{String}
use text.Mathlib.Text.{◌==◌ as text_eq}
use text.Mathlib.TextEquality.{eq_iff}
use mathlib.Core.List.{Mem, Nodup-nil, exists_of_mem-map}
use mathlib.Core.List.Perm
use mathlib.Core.HLevel.{×_prop}
use mathlib.Core.Logic.{∥∥₁_elim}
use native.Mathlib.Nat.{ℕ_set}
use argus_core.Base.{
  subst, ℕ, ◌*◌, ◌^◌, ◌<◌, List, [], ◌∷◌, some, ◌==◌, if◌then◌else◌, if_pos, if_neg, ◌≡◌, refl, sym,
  ap, ◌∙◌, arith, length, sum_by, sum_by-perm, sum_by-map, sum_by-ext,
}
use argus_core.HashMap.{Iteration}
use argus_core.HashMap.Entries.{key_set-Nodup, All-key_set}
use argus_core.HashMap.Regroup.{sum_by-regroup}
use argus_core.Types.{Address, AccessList, Conflict}
use argus_core.Types.ConflictGraph.{ConflictGraph}
use argus_core.Reporter.Build.{ContractConflicts, ConflictGroup, Report, Display, to_group, build}
use argus_core.Reporter.Totals.{at_address, group_at, build-perm-groups}
use argus_core.Sink.Rows.{ConflictRow, conflict_row, to_rows_from_graph}
use argus_core.Sink.Contention.{
  Float, ContentionEvent, Key, Key_discrete, key_of, Bucket, to_event, to_contention_events,
}
use argus_core.Sink.Contention.Buckets.{at_key, keys_of}
use argus_core.Sink.Contention.Events.{NanLaws, event_at, event_at-count, returned}

-- The edges that the events of a contract count.
abbrev pub counted_at : {F : Type 0} → String → List (ContentionEvent F) → ℕ
counted_at address =
    sum_by (λ e. if text_eq e.contract_address address then e.conflict_count else 0)

-- The rows of a contract.
abbrev pub rows_at : String → List ConflictRow → ℕ
rows_at address = sum_by (λ r. if text_eq r.contract_address address then 1 else 0)

module _ (a : Address) where
  abbrev here : Conflict → ℕ
  here c = if c.location.address == a then 1 else 0

  sum_by-here : (cs : List Conflict) → sum_by here cs ≡ length (at_address a cs)
  sum_by-here [] = refl
  sum_by-here (c ∷ cs) = ground (arith, sum_by-here cs)

  here-at_key :
      (k : Key) (cs : List Conflict)
      → sum_by here (at_key k cs) ≡ (if k.address == a then length (at_key k cs) else 0)
  here-at_key k [] = ground arith
  here-at_key k (c ∷ cs) = elim (Key_discrete (key_of c) k) [
    | yes p ↦
        rw (if_pos (Key_discrete (key_of c) k) p)
          (ground (arith, ap (λ (k : Key). k.address) p, here-at_key k cs))
    | no p ↦ rw (if_neg (Key_discrete (key_of c) k) p) (here-at_key k cs)
  ]

module _ {F Duration : Type 0} (float : Float F) (laws : NanLaws float) (display : Display)
    (same : (a b : Address) → display.show_address a ≡ display.show_address b → a ≡ b)
    (groups_order : Iteration (Address × ContractConflicts)) (block_number : ℕ)
    (lists : List AccessList) (graph : ConflictGraph) (fetch_time total_time : Duration)
    (as_millis : Duration → ℕ) (rows_now events_now : String)
    (events_order : Iteration (Key × Bucket)) (small : 2 * length graph.conflicts < 2 ^ 32) where
  open display use {show_address}

  abbrev report : Report Duration
  report = build display groups_order block_number lists graph fetch_time total_time

  abbrev rows : List ConflictRow
  rows = (to_rows_from_graph as_millis display report graph rows_now).1

  same_text :
      (a b : Address) (n : ℕ)
      → (if text_eq (show_address b) (show_address a) then n else 0) ≡ (if b == a then n else 0)
  same_text a b n = ground (arith, eq_iff (show_address b) (show_address a), same b a)

  rows_at-length :
      (a : Address) → rows_at (show_address a) rows ≡ length (at_address a graph.conflicts)
  unfolding to_rows_from_graph conflict_row
  rows_at-length a =
      sum_by-map (conflict_row as_millis display report rows_now)
        (λ r. if text_eq r.contract_address (show_address a) then 1 else 0) graph.conflicts
      ∙ sum_by-ext (λ c. same_text a c.location.address 1) graph.conflicts
      ∙ sum_by-here a graph.conflicts

  counted_at-length :
      (events : List (ContentionEvent F)) (a : Address)
      → to_contention_events float display report events_now events_order graph ≡ some events
      → counted_at (show_address a) events ≡ length (at_address a graph.conflicts)
  unfolding to_event
  counted_at-length events a h =
      let cs = graph.conflicts in
      let ks = keys_of cs in
      let ev : Key → ContentionEvent F =
        event_at float laws display report events_now events_order graph small in
      sum_by-perm (λ e. if text_eq e.contract_address (show_address a) then e.conflict_count else 0)
        (returned float laws display report events_now events_order graph small events h)
      ∙ sum_by-map ev
          (λ e. if text_eq e.contract_address (show_address a) then e.conflict_count else 0) ks
      ∙ sum_by-ext
          (λ k.
            same_text a k.address (ev k).conflict_count
            ∙ ap (λ n. if k.address == a then n else 0)
                (event_at-count float laws display report events_now events_order graph small k)
            ∙ sym (here-at_key a k cs))
          ks
      ∙ sum_by-regroup Key_discrete key_of (here a) ks cs
          (key_set-Nodup Key_discrete key_of [] cs Nodup-nil)
          (All-key_set Key_discrete key_of [] cs)
      ∙ sum_by-here a cs

  abbrev Agrees : List (ContentionEvent F) → ConflictGroup → Type 0
  Agrees events g =
      (rows_at (show_address g.address) rows ≡ g.conflict_count)
      × (counted_at (show_address g.address) events ≡ g.conflict_count)

  group_at-Agrees :
      (events : List (ContentionEvent F)) (a : Address)
      → to_contention_events float display report events_now events_order graph ≡ some events
      → Agrees events
          (group_at display groups_order block_number lists graph fetch_time total_time a)
  unfolding to_group
  group_at-Agrees events a h = (rows_at-length a, counted_at-length events a h)

  -- Under the laws of NaN, with fewer than 2 ^ 31 edges and addresses that are told apart by their
  -- texts, the outputs agree on each contract of the report: its group counts as many edges as there
  -- are conflict rows of the contract, and as the contention events of the contract count together.
  pub groups-agree :
      (g : ConflictGroup) (events : List (ContentionEvent F))
      → Mem g report.groups
      → to_contention_events float display report events_now events_order graph ≡ some events
      → (rows_at (show_address g.address) rows ≡ g.conflict_count)
        × (counted_at (show_address g.address) events ≡ g.conflict_count)
  groups-agree g events m h =
      ∥∥₁_elim
        (exists_of_mem-map (
          (Perm.mem_iff (
              build-perm-groups display groups_order block_number lists graph fetch_time
                total_time)).0
            m))
        (×_prop (ℕ_set _ _) (ℕ_set _ _))
        (λ p. subst (Agrees events) p.2 (group_at-Agrees events p.0 h))
