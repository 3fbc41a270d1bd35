-- ===== src/Provider/Prefetcher/Drain/Contents.antt =====
-- What the cache holds after the prefetch, in whatever order the fetches end.
use mathlib.Core.List.{Perm, Mem, eq-or-mem_of_mem-cons, not-mem-nil, mem-map_of_mem}
use mathlib.Core.List.Perm
use mathlib.Core.Logic.Or
use mathlib.Core.HLevel.{Unit-prop}
use argus_core.Base.{
  List, [], ◌∷◌, map, foldl, Option, none, some, ite, ◌≡◌, refl, sym, ◌∙◌, arith, ℕ_discrete, All,
  All-map, All-perm,
}
use argus_core.Types.{Address, U256}
use argus_core.Provider.Rpc.{reply, failure}
use argus_core.Provider.Prefetcher.Retry.{AccountState, account, storage}
use argus_core.Provider.Prefetcher.Tasks.{FetchTask}
use argus_core.Provider.Prefetcher.Drain.{
  CacheDb, Joined, finished, panicked, Progress, drain_one, drain,
}

-- What revm documents of the cache: `insert_account_info` inserts the account info but does not
-- override storage, `insert_account_storage` inserts storage without overriding account info; and
-- what is inserted at one key is found there and changes no other.
pub record CacheLaws {Db : Type 0} (cache : CacheDb Db) : Type 0 where
  pub info_of : Address → Db → Option AccountState
  pub value_of : Address → U256 → Db → Option U256
  pub info_of-insert_info :
      (a b : Address) (info : AccountState) (db : Db)
      → info_of a (cache.insert_account_info b info db)
        ≡ ite (ℕ_discrete b a) (some info) (info_of a db)
  pub info_of-insert_storage :
      (a b : Address) (slot value : U256) (db : Db)
      → info_of a (cache.insert_account_storage b slot value db) ≡ info_of a db
  pub value_of-insert_info :
      (a b : Address) (slot : U256) (info : AccountState) (db : Db)
      → value_of a slot (cache.insert_account_info b info db) ≡ value_of a slot db
  pub value_of-insert_storage :
      (a b : Address) (s slot value : U256) (db : Db)
      → value_of a s (cache.insert_account_storage b slot value db)
        ≡ ite
            (ℕ_discrete b a)
            (ite (ℕ_discrete slot s) (some value) (value_of a s db))
            (value_of a s db)

-- The info that a result carries for the account `a`, if any.
abbrev pub info_in : Address → Joined → Option AccountState
info_in a (finished (reply (account b info))) = ite (ℕ_discrete b a) (some info) none
info_in a (finished (reply (storage _ _ _))) = none
info_in a (finished (failure _)) = none
info_in a (panicked _) = none

abbrev pub value_in : Address → U256 → Joined → Option U256
value_in a s (finished (reply (account _ _))) = none
value_in a s (finished (reply (storage b slot value))) =
    ite (ℕ_discrete b a) (ite (ℕ_discrete slot s) (some value) none) none
value_in a s (finished (failure _)) = none
value_in a s (panicked _) = none

abbrev pub later_or : {V : Type 0} → Option V → Option V → Option V
later_or none o = o
later_or (some v) o = some v

-- Nothing but `v`.
abbrev pub Fits : {V : Type 0} → V → Option V → Type 0
Fits v none = Unit
Fits v (some w) = w ≡ v

Fits-prop : {V : Type 0} → IsSet V → (v : V) (o : Option V) → IsProp (Fits v o)
Fits-prop set v none = Unit-prop
Fits-prop set v (some w) = set w v

-- A fold whose steps each overwrite what is observed, or leave it.
module _ {Db V : Type 0} (cache : CacheDb Db) (set : IsSet V) (observe : Db → Option V)
    (carried : Joined → Option V)
    (step : (p : Progress Db) (j : Joined)
      → observe (drain_one cache p j).warm_db ≡ later_or (carried j) (observe p.warm_db))
    (v : V) where
  observe_kept :
      (js : List Joined) (p : Progress Db)
      → All (λ j. Fits v (carried j)) js
      → observe p.warm_db ≡ some v
      → observe (foldl (drain_one cache) p js).warm_db ≡ some v
  observe_kept [] p h e = e
  observe_kept (j ∷ js) p h e =
      observe_kept js (drain_one cache p j) h.1 (ground (arith, step p j, h.0))

  observe_found :
      (js : List Joined) (p : Progress Db) (k : Joined)
      → All (λ j. Fits v (carried j)) js
      → carried k ≡ some v
      → Mem k js
      → observe (foldl (drain_one cache) p js).warm_db ≡ some v
  observe_found [] p k h e m = absurd (not-mem-nil m)
  observe_found (j ∷ js) p k h e m =
      Or.elim (option_set _ _) (eq-or-mem_of_mem-cons m)
        (λ same. observe_kept js (drain_one cache p j) h.1 (step p j ∙ rw (sym same, e) refl))
        (λ t. observe_found js (drain_one cache p j) k h.1 e t)
    where
      option_set : IsSet (Option V)
      option_set = hlevel

  -- Every task's result fits, and one has the value: then the cache has it when all results, in
  -- whatever order, are drained.
  pub observe-drain :
      (run : FetchTask → Joined) (tasks : List FetchTask) (js : List Joined) (task : FetchTask)
      → ((t : FetchTask) → Fits v (carried (run t)))
      → carried (run task) ≡ some v
      → Perm js (map run tasks)
      → Mem task tasks
      → observe (drain cache js).warm_db ≡ some v
  unfolding drain
  observe-drain run tasks js task fits e p m =
      observe_found js _ (run task)
        (All-perm (λ j. Fits v (carried j)) (λ j. Fits-prop set v (carried j)) (Perm.symm p)
          (All-map (λ j. Fits v (carried j)) run tasks (every tasks)))
        e ((Perm.mem_iff p).1 (mem-map_of_mem run m))
    where
      every : (ts : List FetchTask) → All (λ t. Fits v (carried (run t))) ts
      every [] = tt
      every (t ∷ ts) = (fits t, every ts)
