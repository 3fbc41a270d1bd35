-- ===== src/Provider/Prefetcher/Drain/Results.antt =====
-- The results that a fetch may have for its key.
use Prim.Native.String.{String, ◌++◌}
use argus_core.Base.{
  ℕ, List, ◌≡◌, refl, ap, ◌∙◌, ◌⊎◌, ℕ_discrete, Option-cases, inl, inr, if_pos, if_neg,
}
use argus_core.Types.{Address, U256}
use argus_core.Provider.Rpc.{Reply, reply, failure}
use argus_core.Provider.Prefetcher.Retry.{
  AccountState, AccountReplies, account, storage, account_result, ◌>>=◌,
}
use argus_core.Provider.Prefetcher.Retry.Attempts.{
  fetch_account-Settles, fetch_storage-Settles, storage_result,
}
use argus_core.Provider.Prefetcher.Tasks.{FetchTask}
use argus_core.Provider.Prefetcher.Fetches.{Node, run_task}
use argus_core.Provider.Prefetcher.Drain.{finished, panicked}
use argus_core.Provider.Prefetcher.Drain.Contents.{info_in, value_in, Fits}

Reply-cases :
    {A : Type 0} (r : Reply A) → ((e : String) × (r ≡ failure e)) ⊎ ((a : A) × (r ≡ reply a))
Reply-cases (reply a) = inr (a, refl)
Reply-cases (failure e) = inl (e, refl)

-- A fetched account is that of the address asked for.
account_result-cases :
    (addr : Address) (r : AccountReplies)
    → ((e : String) × (account_result addr r ≡ failure e))
      ⊎ ((info : AccountState) × (account_result addr r ≡ reply (account addr info)))
unfolding account_result
account_result-cases addr r = go r.balance r.nonce r.code
  where
    go :
        (b : Reply U256) (n : Reply ℕ) (c : Reply (List ℕ))
        → ((e : String) × ((b >>= λ b. n >>= λ n.
                c >>= λ c. reply (account addr (record { balance = b; nonce = n; code = c })))
              ≡ failure e))
          ⊎ ((info : AccountState) × ((b >>= λ b. n >>= λ n.
                  c >>= λ c. reply (account addr (record { balance = b; nonce = n; code = c })))
                ≡ reply (account addr info)))
    go (failure e) n c = inl (e, refl)
    go (reply b) (failure e) c = inl (e, refl)
    go (reply b) (reply n) (failure e) = inl (e, refl)
    go (reply b) (reply n) (reply c) = inr (_, refl)

module _ (node : Node) where
  open node use {task_panic}

  -- A task's result is an error, or a result for the key of the task.
  pub run_task-account :
      (b : Address)
      → ((e : String) × (run_task node (FetchTask.account b) ≡ panicked e))
        ⊎ (((e : String) × (run_task node (FetchTask.account b) ≡ finished (failure e)))
            ⊎ ((info : AccountState) × (run_task node (FetchTask.account b)
                  ≡ finished (reply (account b info)))))
  unfolding run_task
  run_task-account b =
      let exceeded = "max retries exceeded for " ++ node.show_address b in
      let s = fetch_account-Settles b exceeded (node.account_at b) in
      elim (Option-cases (task_panic (FetchTask.account b))) [
        | inr (e, p) ↦ inl (e, rw (p, run_task) refl)
        | inl p ↦ elim (account_result-cases b (node.account_at b s.last)) [
          | inl (e, q) ↦ inr (inl (e, rw (p, run_task) (ap finished (s.outcome ∙ q))))
          | inr (info, q) ↦ inr (inr (info, rw (p, run_task) (ap finished (s.outcome ∙ q))))
        ]
      ]

  pub run_task-storage :
      (b : Address) (slot : U256)
      → ((e : String) × (run_task node (FetchTask.storage b slot) ≡ panicked e))
        ⊎ (((e : String) × (run_task node (FetchTask.storage b slot) ≡ finished (failure e)))
            ⊎ ((value : U256) × (run_task node (FetchTask.storage b slot)
                  ≡ finished (reply (storage b slot value)))))
  unfolding run_task
  run_task-storage b slot =
      let exceeded =
        "max retries exceeded for " ++ (node.show_address b ++ (" slot " ++ node.show_slot slot)) in
      let s = fetch_storage-Settles b slot exceeded (node.storage_at b slot) in
      elim (Option-cases (task_panic (FetchTask.storage b slot))) [
        | inr (e, p) ↦ inl (e, rw (p, run_task) refl)
        | inl p ↦ elim (Reply-cases (node.storage_at b slot s.last)) [
          | inl (e, q) ↦
              inr
                (inl (e, rw (p, run_task) (ap finished (s.outcome ∙ ap (storage_result b slot) q))))
          | inr (value, q) ↦ inr (
              inr
                (value, rw (p, run_task) (ap finished (s.outcome ∙ ap (storage_result b slot) q))))
        ]
      ]

  -- Whatever a task yields for an account is what the task of that account yields.
  pub Fits-info :
      (a : Address) (info : AccountState)
      → run_task node (FetchTask.account a) ≡ finished (reply (account a info))
      → (t : FetchTask) → Fits info (info_in a (run_task node t))
  Fits-info a info h (FetchTask.account b) = elim (ℕ_discrete b a) [
    | yes p ↦ rw (p, h, if_pos (ℕ_discrete a a) refl) refl
    | no p ↦ elim (run_task-account b) [
      | inl (e, q) ↦ rw q tt
      | inr (inl (e, q)) ↦ rw q tt
      | inr (inr (i, q)) ↦ rw (q, if_neg (ℕ_discrete b a) p) tt
    ]
  ]
  Fits-info a info h (FetchTask.storage b slot) = elim (run_task-storage b slot) [
    | inl (e, q) ↦ rw q tt
    | inr (inl (e, q)) ↦ rw q tt
    | inr (inr (v, q)) ↦ rw q tt
  ]

  pub Fits-value :
      (a : Address) (s value : U256)
      → run_task node (FetchTask.storage a s) ≡ finished (reply (storage a s value))
      → (t : FetchTask) → Fits value (value_in a s (run_task node t))
  Fits-value a s value h (FetchTask.account b) = elim (run_task-account b) [
    | inl (e, q) ↦ rw q tt
    | inr (inl (e, q)) ↦ rw q tt
    | inr (inr (i, q)) ↦ rw q tt
  ]
  Fits-value a s value h (FetchTask.storage b slot) = elim (run_task-storage b slot) [
    | inl (e, q) ↦ rw q tt
    | inr (inl (e, q)) ↦ rw q tt
    | inr (inr (v, q)) ↦ elim (ℕ_discrete b a) [
      | no p ↦ rw (q, if_neg (ℕ_discrete b a) p) tt
      | yes p ↦ elim (ℕ_discrete slot s) [
        | no r ↦ rw (q, if_pos (ℕ_discrete b a) p, if_neg (ℕ_discrete slot s) r) tt
        | yes r ↦ rw (p, r, h, if_pos (ℕ_discrete a a) refl, if_pos (ℕ_discrete s s) refl) refl
      ]
    ]
  ]
