-- ===== src/Provider/Prefetcher/Semaphore/Limit.antt =====
-- How many of the fetches run at once.
use argus_core.Base.{ℕ, suc, ◌+◌, ◌≤◌, List, ◌≡◌, refl, ap, arith, length}
use argus_core.Provider.Prefetcher.Tasks.{FetchTask}
use argus_core.Provider.Prefetcher.Drain.{Joined}
use argus_core.Provider.Prefetcher.Semaphore.{
  Pick, here, there, Pool, spawned, Step, acquire, release, After, start, later,
}

pub length-Pick :
    {A : Type 0} {x : A} {xs rest : List A} → Pick x xs rest → length xs ≡ suc (length rest)
length-Pick here = refl
length-Pick (there p) = ap suc (length-Pick p)

module _ (run : FetchTask → Joined) where
  -- Every permit is in the semaphore or with a running task.
  permits-Step :
      {s t : Pool} → Step run s t → t.permits + length t.running ≡ s.permits + length s.running
  permits-Step (acquire p q e) = rw e (omega (arith, q))
  permits-Step (release p e) = rw e (omega (arith, length-Pick p))

  pub permits-After :
      {s t : Pool} {n : ℕ}
      → After run s n t
      → t.permits + length t.running ≡ s.permits + length s.running
  permits-After start = refl
  permits-After (later a st) = omega (arith, permits-After a, permits-Step st)

  -- However the tasks are scheduled, at no time do more of them run than there are permits.
  pub running-le-max_concurrent :
      (max_concurrent : ℕ) (tasks : List FetchTask) {n : ℕ} {t : Pool}
      → After run (spawned max_concurrent tasks) n t
      → length t.running ≤ max_concurrent
  unfolding spawned
  running-le-max_concurrent max_concurrent tasks a = omega (arith, permits-After a)
