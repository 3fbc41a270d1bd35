-- ===== src/Provider/Prefetcher/Semaphore/Finish.antt =====
-- How the schedules of the fetches go on and end.
use mathlib.Core.List.{Perm, append_assoc, append-nil, perm_middle}
use mathlib.Core.List.Perm
use argus_core.Base.{
  ℕ, zero, suc, ◌+◌, ◌*◌, ◌<◌, List, [], ◌∷◌, ◌++◌, map, ◌≡◌, refl, ap, subst, arith, length, ◌⊎◌,
  inl, inr, dec_lt,
}
use argus_core.Provider.Prefetcher.Tasks.{FetchTask}
use argus_core.Provider.Prefetcher.Drain.{Joined}
use argus_core.Provider.Prefetcher.Semaphore.{
  Pick, here, there, Pool, spawned, Step, acquire, release, After, start, later,
}
use argus_core.Provider.Prefetcher.Semaphore.Limit.{length-Pick, permits-After}

Pick-perm : {A : Type 0} {x : A} {xs rest : List A} → Pick x xs rest → Perm (x ∷ rest) xs
Pick-perm here = Perm.rfl
Pick-perm {x = x} (there {y} {ys} {zs} p) =
    Perm.trans (Perm.swap y x zs) (Perm.cons y (Pick-perm p))

module _ (run : FetchTask → Joined) where
  -- Steps that are left.
  abbrev work : Pool → ℕ
  work s = 2 * length s.waiting + length s.running

  work-Step : {s t : Pool} → Step run s t → work s ≡ suc (work t)
  work-Step (acquire p q e) = rw e (omega (arith, length-Pick p))
  work-Step (release p e) = rw e (omega (arith, length-Pick p))

  work-After : {s t : Pool} {n : ℕ} → After run s n t → work t + n ≡ work s
  work-After start = omega arith
  work-After (later a st) = omega (arith, work-After a, work-Step st)

  -- The ends so far, and those to come.
  abbrev results : Pool → List Joined
  results s = s.ended ++ map run (s.running ++ s.waiting)

  results-Step : {s t : Pool} → Step run s t → Perm (results t) (results s)
  results-Step {s} (acquire {task} {rest} p q e) = rw e (
      Perm.append_left s.ended (
        Perm.map run (
          Perm.trans (Perm.symm (perm_middle {a = task} s.running rest))
            (Perm.append_left s.running (Pick-perm p)))))
  results-Step {s} (release {task} {rest} p e) =
      rw (e, append_assoc s.ended (run task ∷ []) (map run (rest ++ s.waiting)))
        (Perm.append_left s.ended (Perm.map run (Perm.append_right s.waiting (Pick-perm p))))

  results-After : {s t : Pool} {n : ℕ} → After run s n t → Perm (results t) (results s)
  results-After start = Perm.rfl
  results-After (later a st) = Perm.trans (results-Step st) (results-After a)

  progress : (s : Pool) → 0 < s.permits + length s.running → 0 < work s → (t : Pool) × Step run s t
  progress s free left = go s.permits s.waiting s.running refl refl refl
    where
      go :
          (n : ℕ) (ws rs : List FetchTask)
          → s.permits ≡ n
          → s.waiting ≡ ws
          → s.running ≡ rs
          → (t : Pool) × Step run s t
      go n ws (r ∷ rs) p w q = (_, release {task = r} {rest = rs} (rw q here) refl)
      go (suc n) (x ∷ ws) [] p w q = (_, acquire {task = x} {rest = ws} {n = n} (rw w here) p refl)
      go zero ws [] p w q = absurd (omega (arith, p, ap length q))
      go n [] [] p w q = absurd (omega (arith, ap length w, ap length q))

  -- Nothing waits or runs, and the results of all tasks have been yielded, each once.
  pub record Drained (tasks : List FetchTask) (t : Pool) : Type 0 where
    pub none_waiting : t.waiting ≡ []
    pub none_running : t.running ≡ []
    pub all_ended : Perm t.ended (map run tasks)

  empty_of_length : {A : Type 0} (l : List A) → length l ≡ 0 → l ≡ []
  empty_of_length [] h = refl
  empty_of_length (x ∷ l) h = absurd (omega (arith, h))

  -- With at least one permit, after any number of steps either the tasks are drained, and there were
  -- exactly two steps for each, or there were fewer and a further step can be taken. So every
  -- schedule ends, after two steps for each task, and then each result has been yielded once.
  pub After-Drained :
      (max_concurrent : ℕ) (tasks : List FetchTask) {n : ℕ} {t : Pool}
      → 0 < max_concurrent
      → After run (spawned max_concurrent tasks) n t
      → ((n ≡ 2 * length tasks) × Drained tasks t)
        ⊎ ((n < 2 * length tasks) × ((u : Pool) × Step run t u))
  unfolding spawned
  After-Drained max_concurrent tasks {n} {t} pos a = elim (dec_lt n (2 * length tasks)) [
    | yes p ↦ inr (p, progress t (omega (arith, permits-After run a)) (omega (arith, work-After a)))
    | no p ↦
        let w : t.waiting ≡ [] = empty_of_length t.waiting (omega (arith, work-After a)) in
        let r : t.running ≡ [] = empty_of_length t.running (omega (arith, work-After a)) in
        inl (
          omega (arith, work-After a),
          record {
            none_waiting = w;
            none_running = r;
            all_ended = rw (w, r, append-nil t.ended) at (results-After a);
          },
        )
  ]

  -- Without a permit no task ever starts.
  pub After-none :
      (tasks : List FetchTask) {n : ℕ} {t : Pool} → After run (spawned 0 tasks) n t → n ≡ 0
  unfolding spawned
  After-none tasks start = refl
  After-none tasks (later a (acquire p q e)) = absurd (omega (arith, permits-After run a, q))
  After-none tasks (later a (release p e)) =
      absurd (omega (arith, permits-After run a, length-Pick p))

  spawned-none : (tasks : List FetchTask) (u : Pool) → ¬ Step run (spawned 0 tasks) u
  unfolding spawned
  spawned-none tasks u (acquire p q e) = absurd (omega (arith, q))
  spawned-none tasks u (release p e) = absurd (omega (arith, length-Pick p))

  After-spawned_none :
      (tasks : List FetchTask) {n : ℕ} {t : Pool}
      → After run (spawned 0 tasks) n t
      → t ≡ spawned 0 tasks
  After-spawned_none tasks start = refl
  After-spawned_none tasks {t} (later a st) =
      absurd (spawned-none tasks t (subst (λ s. Step run s t) (After-spawned_none tasks a) st))

  -- Where the pool stands after some steps.
  pub data Progress (max_concurrent : ℕ) (tasks : List FetchTask) (n : ℕ) (t : Pool) : Type 0 where
    stuck :
        max_concurrent ≡ 0
        → n ≡ 0
        → t ≡ spawned 0 tasks
        → ((u : Pool) → ¬ Step run t u)
        → Progress max_concurrent tasks n t
    drained : n ≡ 2 * length tasks → Drained tasks t → Progress max_concurrent tasks n t
    goes_on : n < 2 * length tasks → (u : Pool) → Step run t u → Progress max_concurrent tasks n t

  -- After any number of steps of any schedule one of three holds. The semaphore has no permit: nothing
  -- has happened, and nothing can, so that no task ever starts. Or the tasks are drained, there were
  -- exactly two steps for each, and each result has been yielded once. Or there were fewer steps, and
  -- a further one can be taken.
  pub After-Progress :
      (max_concurrent : ℕ) (tasks : List FetchTask) {n : ℕ} {t : Pool}
      → After run (spawned max_concurrent tasks) n t
      → Progress max_concurrent tasks n t
  After-Progress zero tasks a =
      let e = After-spawned_none tasks a in
      stuck refl (After-none tasks a) e
        (λ u st. spawned-none tasks u (subst (λ s. Step run s u) e st))
  After-Progress (suc m) tasks a = elim (After-Drained (suc m) tasks (omega arith) a) [
    | inl (e, d) ↦ drained e d
    | inr (less, (u, st)) ↦ goes_on less u st
  ]
