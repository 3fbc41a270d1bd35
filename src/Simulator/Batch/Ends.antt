-- ===== src/Simulator/Batch/Ends.antt =====
-- The two ways in which the simulation of a batch ends.
use Prim.Native.String.{◌++◌ as text_append}
use argus_core.Base.{
  String, List, [], ◌∷◌, ◌++◌, some, Option-cases, inl, inr, ◌⊎◌, ◌≡◌, refl, ap, ◌∙◌, All,
}
use argus_core.Types.{Transaction, AccessList, ArgusResult, simulation, ok, err}
use argus_core.Simulator.Batch.{Evm, recorded, tx_env, simulate_batch_sync}
use argus_core.Simulator.Batch.Outcome.{
  Accepted, AllDescribe, simulate_batch_sync-Accepted, simulate_batch_sync-refused,
}

module _ {Db : Type 0} (evm : Evm Db) (db : Db) where
  -- The first transaction that revm refuses, and the text of the refusal.
  pub record FirstRefused (txs : List Transaction) : Type 0 where
    pub before : List Transaction
    pub tx : Transaction
    pub after : List Transaction
    pub text : String
    pub txs_eq : txs ≡ before ++ tx ∷ after
    pub before_accepted : All (Accepted evm db) before
    pub refused : evm.refuse (tx_env tx) ≡ some text

  later_FirstRefused :
      (tx : Transaction) (txs : List Transaction)
      → Accepted evm db tx
      → FirstRefused txs
      → FirstRefused (tx ∷ txs)
  later_FirstRefused tx txs h r = record {
    before = tx ∷ r.before;
    tx = r.tx;
    after = r.after;
    text = r.text;
    txs_eq = ap (λ l. tx ∷ l) r.txs_eq;
    before_accepted = (h, r.before_accepted);
    refused = r.refused;
  }

  all-or-FirstRefused : (txs : List Transaction) → All (Accepted evm db) txs ⊎ FirstRefused txs
  all-or-FirstRefused [] = inl tt
  all-or-FirstRefused (tx ∷ txs) =
      let rest = all-or-FirstRefused txs in
      elim (Option-cases (evm.refuse (tx_env tx))) [
        | inr (e, q) ↦ inr (record {
          before = [];
          tx = tx;
          after = txs;
          text = e;
          txs_eq = refl;
          before_accepted = tt;
          refused = q;
        })
        | inl h ↦ elim rest [ inl a ↦ inl (h, a) | inr r ↦ inr (later_FirstRefused tx txs h r) ]
      ]

  -- All were simulated, or the first refusal is the error.
  pub data Simulates (txs : List Transaction) (r : ArgusResult (List AccessList)) : Type 0 where
    all_accepted :
        (lists : List AccessList)
        → All (Accepted evm db) txs
        → r ≡ ok lists
        → AllDescribe (recorded evm db) txs lists
        → Simulates txs r
    stopped_at :
        (first : FirstRefused txs)
        → r ≡ err (simulation (text_append "Failed to build TxEnv: " first.text))
        → Simulates txs r

  -- The batch ends in one of two ways. Either revm accepts every environment, and there is one
  -- access list for each transaction, in their order, that describes it: its hash, each location
  -- once and ascending, and the worst mode recorded there. Or revm refuses one, and the error carries
  -- the text of the first refusal.
  pub simulate_batch_sync-Simulates :
      (txs : List Transaction) → Simulates txs (simulate_batch_sync evm db txs)
  simulate_batch_sync-Simulates txs = elim (all-or-FirstRefused txs) [
    | inl h ↦
        let (lists, e, described) = simulate_batch_sync-Accepted evm db txs h in
        all_accepted lists h e described
    | inr r ↦ stopped_at r (
        ap (simulate_batch_sync evm db) r.txs_eq
        ∙ simulate_batch_sync-refused evm db r.before r.after r.tx r.text r.before_accepted
            r.refused)
  ]
