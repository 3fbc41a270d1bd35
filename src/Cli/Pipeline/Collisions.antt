-- ===== src/Cli/Pipeline/Collisions.antt =====
-- What the graph of an analysis answers, in terms of what the inspector recorded.
use mathlib.Core.List.{
  Mem, Nodup, mem-cons_self, mem-cons_of_mem, eq-or-mem_of_mem-cons, not-mem-nil,
}
use mathlib.Core.Logic.Or
use argus_core.Base.{
  Bool_set, List, [], ◌∷◌, map, none, some, false, ◌≡◌, ◌≢◌, refl, sym, ap, ◌∙◌, All,
}
use argus_core.Types.{Transaction, AccessEntry, AccessList, ok}
use argus_core.Types.ConflictGraph.{has_conflict}
use argus_core.Graph.{build_conflict_graph}
use argus_core.Graph.Queries.Collisions.{
  collide, collide-worst_both, worst-mode_at, has_conflict-collide,
}
use argus_core.Graph.Queries.Irreflexive.{has_conflict_irrefl}
use argus_core.Simulator.Dedup.Ascending.{IsAscending}
use argus_core.Simulator.Batch.{tx_env, recorded}
use argus_core.Simulator.Batch.Outcome.{Describes, AllDescribe}
use argus_core.Provider.Rpc.{reply, RpcTransaction, to_transaction}
use argus_core.Cli.{Options, Environment, Analysis, state_for, analyze}
use argus_core.Cli.Pipeline.{analysis_of, analyze-AllDescribe}

module _ (raw : Transaction → List AccessEntry) where
  hashes_of :
      (txs : List Transaction) (lists : List AccessList)
      → AllDescribe raw txs lists
      → map (λ al. al.tx_hash) lists ≡ map (λ tx. tx.hash) txs
  hashes_of [] [] d = refl
  hashes_of (tx ∷ txs) (al ∷ lists) d = rw (d.0.hash, hashes_of txs lists d.1) refl
  hashes_of [] (al ∷ lists) d = absurd d
  hashes_of (tx ∷ txs) [] d = absurd d

  All-IsAscending :
      (txs : List Transaction) (lists : List AccessList)
      → AllDescribe raw txs lists
      → All (λ al. IsAscending al.entries) lists
  All-IsAscending [] [] d = tt
  All-IsAscending (tx ∷ txs) (al ∷ lists) d = (d.0.ascending, All-IsAscending txs lists d.1)
  All-IsAscending [] (al ∷ lists) d = absurd d
  All-IsAscending (tx ∷ txs) [] d = absurd d

  -- A transaction of the batch has its access list.
  with_list :
      {B : Type 0} (txs : List Transaction) (lists : List AccessList) (tx : Transaction)
      → IsProp B
      → AllDescribe raw txs lists
      → Mem tx txs
      → ((al : AccessList) → Mem al lists → Describes tx (raw tx) al → B)
      → B
  with_list [] lists tx prop d m k = absurd (not-mem-nil m)
  with_list (t ∷ txs) [] tx prop d m k = absurd d
  with_list (t ∷ txs) (al ∷ lists) tx prop d m k =
      Or.elim prop (eq-or-mem_of_mem-cons m) (λ e. k al mem-cons_self (rw e d.0))
        (λ m. with_list txs lists tx prop d.1 m (λ bl n. k bl (mem-cons_of_mem al n)))

  -- What was recorded collides as the access lists do.
  collide-Describes :
      (tx ty : Transaction) (al bl : AccessList)
      → Describes tx (raw tx) al
      → Describes ty (raw ty) bl
      → collide al.entries bl.entries ≡ collide (raw tx) (raw ty)
  collide-Describes tx ty al bl d e =
      collide-worst_both al.entries (raw tx) bl.entries (raw ty)
        (λ location. worst-mode_at location al.entries d.ascending ∙ d.mode location)
        (λ location. worst-mode_at location bl.entries e.ascending ∙ e.mode location)

module _ {P Db : Type 0} (env : Environment P Db) (o : Options) (p : P)
    (block : List RpcTransaction) where
  abbrev txs : List Transaction
  txs = map to_transaction block

  -- What the inspector records of a transaction of the block.
  abbrev pub recorded_of : Transaction → List AccessEntry
  recorded_of = recorded env.evm (state_for env o p txs)

  module _ (url : o.rpc_url ≢ "") (dialled : env.dial o.rpc_url ≡ reply p)
      (found : env.block_at p o.block ≡ reply (some block)) (quiet : env.batch_panic ≡ none)
      (accepted : All (λ tx. env.evm.refuse (tx_env tx) ≡ none) txs) where
    -- Where the node is reached and has the block, no task panics, revm accepts the environment of
    -- every transaction of the block and their hashes differ: the analysis succeeds, and in its graph
    -- two transactions of the block with different hashes conflict just when the inspector recorded
    -- for each of them an access at the same location, not both reads; and none with itself.
    pub analyze-collide :
        (tx ty : Transaction)
        → Nodup (map (λ tx. tx.hash) txs)
        → Mem tx txs
        → Mem ty txs
        → tx.hash ≢ ty.hash
        → (a : Analysis) × (analyze env o ≡ ok a)
          × (has_conflict a.graph tx.hash ty.hash ≡ collide (recorded_of tx) (recorded_of ty))
          × (has_conflict a.graph tx.hash tx.hash ≡ false)
    analyze-collide tx ty nodup m n h =
        let (lists, e, d) = analyze-AllDescribe env o p block url dialled found quiet accepted in
        let distinct : Nodup (map (λ al. al.tx_hash) lists) =
          rw (hashes_of recorded_of txs lists d) nodup in
        (
          analysis_of env o p txs lists,
          e,
          with_list recorded_of txs lists tx (Bool_set _ _) d m (λ al i dx.
              with_list recorded_of txs lists ty (Bool_set _ _) d n (λ bl j dy.
                ap (λ x. has_conflict (build_conflict_graph env.index lists) x ty.hash)
                  (sym dx.hash)
                ∙ ap (λ y. has_conflict (build_conflict_graph env.index lists) al.tx_hash y)
                    (sym dy.hash)
                ∙ has_conflict-collide env.index lists al bl distinct i j
                    (λ same. h (sym dx.hash ∙ same ∙ dy.hash))
                ∙ collide-Describes recorded_of tx ty al bl dx dy)),
          has_conflict_irrefl env.index lists tx.hash distinct
              (All-IsAscending recorded_of txs lists d),
        )
