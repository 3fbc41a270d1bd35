-- ===== src/Provider/Prefetcher/Semaphore.antt =====
-- The tasks of `Prefetcher::prefetch` as they run: each acquires a permit of the semaphore, makes its
-- requests, and gives the permit back when it ends, be it by a panic. The scheduler may let any task
-- that can go on do so.
pub mod Limit
pub mod Finish
pub mod Cached
use argus_core.Base.{ℕ, zero, suc, ◌+◌, List, [], ◌∷◌, ◌++◌, ◌≡◌}
use argus_core.Provider.Prefetcher.Tasks.{FetchTask}
use argus_core.Provider.Prefetcher.Drain.{Joined}

-- One element of a list, and the others.
pub data Pick {ℓ} {A : Type ℓ} (x : A) : List A → List A → Type ℓ where
  here : {rest : List A} → Pick x (x ∷ rest) rest
  there : {y : A} {ys zs : List A} → Pick x ys zs → Pick x (y ∷ ys) (y ∷ zs)

-- `ended` is what `join_next` yields, in the order of the ends.
pub record Pool : Type 0 where
  pub permits : ℕ
  pub waiting : List FetchTask
  pub running : List FetchTask
  pub ended : List Joined

-- Everything is spawned, and the semaphore has its permits.
unfoldable pub spawned : ℕ → List FetchTask → Pool
spawned max_concurrent tasks = record {
  permits = max_concurrent;
  waiting = tasks;
  running = [];
  ended = [];
}

module _ (run : FetchTask → Joined) where
  pub data Step (s t : Pool) : Type 0 where
    -- `sem.acquire().await`
    acquire :
        {task : FetchTask} {rest : List FetchTask} {n : ℕ}
        → Pick task s.waiting rest
        → s.permits ≡ suc n
        → t ≡ record { permits = n; waiting = rest; running = task ∷ s.running; ended = s.ended }
        → Step s t
    -- the task ends, `_permit` is dropped and `join_next` yields the result
    release :
        {task : FetchTask} {rest : List FetchTask}
        → Pick task s.running rest
        → t ≡ record {
          permits = suc s.permits;
          waiting = s.waiting;
          running = rest;
          ended = s.ended ++ run task ∷ [];
        }
        → Step s t

  -- The pools after a number of steps.
  pub data After (s : Pool) : ℕ → Pool → Type 0 where
    start : After s zero s
    later : {n : ℕ} {t u : Pool} → After s n t → Step t u → After s (suc n) u
