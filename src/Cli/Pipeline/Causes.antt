-- ===== src/Cli/Pipeline/Causes.antt =====
-- Why an analysis fails.
use Prim.Native.String.{String, ◌++◌}
use mathlib.Core.List.{Mem, mem-cons_self, mem-cons_of_mem}
use argus_core.Base.{
  List, [], ◌∷◌, ◌++◌ as list_append, map, Option, none, some, true, Bool-cases, Option-cases,
  String_discrete, inl, inr, ◌⊎◌, ◌≡◌, ◌≢◌, refl, ◌∙◌,
}
use argus_core.Types.{
  Transaction, AccessList, ArgusError, provider, simulation, invalid_input, internal, ArgusResult,
  ok, err,
}
use argus_core.Graph.{build_conflict_graph}
use argus_core.Simulator.Batch.{
  Evm, tx_env, recorded, simulate_one_tx, simulate_from, simulate_batch, simulate_batch_sync,
}
use argus_core.Simulator.Batch.Outcome.{simulate_batch_with_state-eq-sync}
use argus_core.Simulator.Dedup.{canonical}
use argus_core.Provider.Rpc.{
  Reply, reply, failure, RpcTransaction, connect, to_transaction, get_block_transactions,
}
use argus_core.Cli.{Options, Environment, Analysis, state_for, simulate, analyze}
use argus_core.Cli.Pipeline.{connect-reply}

module _ {Db : Type 0} (evm : Evm Db) where
  -- Some transaction is refused, and the error has the text of the refusal.
  pub record Refusal (txs : List Transaction) (e : ArgusError) : Type 0 where
    pub tx : Transaction
    pub text : String
    pub among : Mem tx txs
    pub refused : evm.refuse (tx_env tx) ≡ some text
    pub error : e ≡ simulation ("Failed to build TxEnv: " ++ text)

  -- A value, or the error of a refusal.
  abbrev Outcome : List Transaction → ArgusResult (List AccessList) → Type 0
  Outcome txs r =
      ((lists : List AccessList) × (r ≡ ok lists))
      ⊎ ((e : ArgusError) × (r ≡ err e) × Refusal txs e)

  later-Refusal :
      (tx : Transaction) (txs : List Transaction) {e : ArgusError}
      → Refusal txs e
      → Refusal (tx ∷ txs) e
  later-Refusal tx txs r = record {
    tx = r.tx;
    text = r.text;
    among = mem-cons_of_mem tx r.among;
    refused = r.refused;
    error = r.error;
  }

  later_outcome :
      (tx : Transaction) (txs : List Transaction) {r : ArgusResult (List AccessList)}
      → Outcome txs r
      → Outcome (tx ∷ txs) r
  later_outcome tx txs (inl p) = inl p
  later_outcome tx txs (inr (e, q, r)) = inr (e, q, later-Refusal tx txs r)

  simulate_from-Outcome :
      (db : Db) (lists : List AccessList) (txs : List Transaction)
      → Outcome txs (simulate_from evm db lists txs)
  unfolding simulate_from simulate_one_tx
  simulate_from-Outcome db lists [] = inl (lists, refl)
  simulate_from-Outcome db lists (tx ∷ txs) = elim (Option-cases (evm.refuse (tx_env tx))) [
    | inr (t, e) ↦ inr (
      _,
      rw (simulate_from, e, simulate_one_tx) refl,
      record { tx = tx; text = t; among = mem-cons_self; refused = e; error = refl },
    )
    | inl e ↦
        rw (simulate_from, e, simulate_one_tx)
          (later_outcome tx txs (
            simulate_from-Outcome db
              (list_append lists
                (record { tx_hash = tx.hash; entries = canonical (recorded evm db tx) } ∷ []))
              txs))
  ]

connect-failure :
    {P : Type 0} (dial : String → Reply P) (url text : String)
    → url ≢ ""
    → dial url ≡ failure text
    → connect dial url ≡ err (provider ("Failed to connect to " ++ (url ++ (": " ++ text))))
unfolding connect
connect-failure dial String.[] text h e = absurd (h refl)
connect-failure dial (String.◌∷◌ c s) text h e = rw e

module _ {P Db : Type 0} (env : Environment P Db) (o : Options) where
  open env.display use {show_number}

  -- What has gone wrong, and the error that says so.
  pub data Cause (e : ArgusError) : Type 0 where
    no_url : o.rpc_url ≡ "" → e ≡ invalid_input "RPC URL must not be empty" → Cause e
    unreachable :
        {text : String}
        → env.dial o.rpc_url ≡ failure text
        → e ≡ provider ("Failed to connect to " ++ (o.rpc_url ++ (": " ++ text)))
        → Cause e
    fetch_failed :
        {p : P} {text : String}
        → env.dial o.rpc_url ≡ reply p
        → env.block_at p o.block ≡ failure text
        → e ≡ provider ("Failed to fetch block " ++ (show_number o.block ++ (": " ++ text)))
        → Cause e
    no_block :
        {p : P}
        → env.dial o.rpc_url ≡ reply p
        → env.block_at p o.block ≡ reply none
        → e ≡ provider ("Block " ++ (show_number o.block ++ " not found"))
        → Cause e
    task_panicked :
        {text : String}
        → o.dry_run ≡ true
        → env.batch_panic ≡ some text
        → e ≡ internal ("spawn_blocking panicked: " ++ text)
        → Cause e
    refused :
        {p : P} {block : List RpcTransaction}
        → env.dial o.rpc_url ≡ reply p
        → env.block_at p o.block ≡ reply (some block)
        → Refusal env.evm (map to_transaction block) e
        → Cause e

  -- A value, or an error with its cause.
  abbrev Explained : {A : Type 0} → ArgusResult A → Type 0
  Explained {A} r = ((a : A) × (r ≡ ok a)) ⊎ ((e : ArgusError) × (r ≡ err e) × Cause e)

  module _ (p : P) (dialled : env.dial o.rpc_url ≡ reply p) (block : List RpcTransaction)
      (found : env.block_at p o.block ≡ reply (some block)) where
    batch-Explained :
        (db : Db) → Explained (simulate_batch_sync env.evm db (map to_transaction block))
    unfolding simulate_batch_sync
    batch-Explained db = elim (simulate_from-Outcome env.evm db [] (map to_transaction block)) [
      | inl r ↦ inl r
      | inr (e, q, r) ↦ inr (e, q, refused dialled found r)
    ]

    explain : {A : Type 0} {r r' : ArgusResult A} → r ≡ r' → Explained r' → Explained r
    explain q (inl (a, e)) = inl (a, q ∙ e)
    explain q (inr (e, q', c)) = inr (e, q ∙ q', c)

    simulate-Explained : Explained (simulate env o p (map to_transaction block))
    unfolding simulate simulate_batch
    simulate-Explained = elim (Bool-cases o.dry_run) [
      | inl dry ↦ elim (Option-cases env.batch_panic) [
        | inl quiet ↦ explain (rw (simulate, dry, quiet) refl) (batch-Explained env.cache.empty)
        | inr (text, e) ↦ inr (_, (rw (simulate, dry, e) refl), task_panicked dry e refl)
      ]
      | inr wet ↦
          explain
            ((rw (simulate, wet) refl)
              ∙ simulate_batch_with_state-eq-sync env.evm
                  (state_for env o p (map to_transaction block)) (map to_transaction block))
            (batch-Explained (state_for env o p (map to_transaction block)))
    ]

    -- Only the simulation can still fail.
    analyze_found : o.rpc_url ≢ "" → Explained (analyze env o)
    unfolding analyze get_block_transactions
    analyze_found url = elim simulate-Explained [
      | inl (lists, e) ↦
          let analysis : Analysis = record {
            transactions = map to_transaction block;
            access_lists = lists;
            graph = build_conflict_graph env.index lists;
          } in
          inl (analysis, rw (connect-reply env.dial o.rpc_url p url dialled, found, e) refl)
      | inr (e, q, c) ↦
          inr (e, rw (connect-reply env.dial o.rpc_url p url dialled, found, q) refl, c)
    ]

  analyze_dialled :
      (p : P)
      → o.rpc_url ≢ ""
      → env.dial o.rpc_url ≡ reply p
      → (answer : Reply (Option (List RpcTransaction))) → env.block_at p o.block ≡ answer
      → Explained (analyze env o)
  unfolding analyze get_block_transactions
  analyze_dialled p url dialled (failure text) e =
      inr (
        _,
        rw (connect-reply env.dial o.rpc_url p url dialled, e) refl,
        fetch_failed dialled e refl,
      )
  analyze_dialled p url dialled (reply none) e =
      inr (_, rw (connect-reply env.dial o.rpc_url p url dialled, e) refl, no_block dialled e refl)
  analyze_dialled p url dialled (reply (some block)) e = analyze_found p dialled block e url

  analyze_url :
      o.rpc_url ≢ "" → (answer : Reply P) → env.dial o.rpc_url ≡ answer → Explained (analyze env o)
  unfolding analyze
  analyze_url url (failure text) e =
      inr (_, rw (connect-failure env.dial o.rpc_url text url e) refl, unreachable e refl)
  analyze_url url (reply p) e = analyze_dialled p url e (env.block_at p o.block) refl

  -- The analysis succeeds, or fails with an error that names its cause and carries the text that came
  -- with it, if any: the RPC URL is empty, the node cannot be reached, the fetch of the block fails,
  -- there is no such block, the blocking task of a dry run panics, or revm refuses the environment of
  -- some transaction of the block.
  pub analyze-Cause : Explained (analyze env o)
  unfolding analyze connect
  analyze-Cause = elim (String_discrete o.rpc_url "") [
    | yes e ↦ inr (_, rw (e) refl, no_url e refl)
    | no url ↦ analyze_url url (env.dial o.rpc_url) refl
  ]
