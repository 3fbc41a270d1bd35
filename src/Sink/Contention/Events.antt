-- ===== src/Sink/Contention/Events.antt =====
-- What `to_contention_events` returns.
use Prim.Native.Nat.{Ordering}
use Prim.Native.String.{String}
use mathlib.Core.List.{Perm, Nodup-nil, map-map}
use mathlib.Core.List.Perm
use mathlib.Core.HLevel.{¬_prop}
use text.Mathlib.TextEquality.{eq_iff}
use argus_core.Base.{
  Bool_set, ℕ, ◌*◌, ◌%◌, ◌^◌, ◌<◌, List, [], ◌∷◌, map, some, Bool, false, ◌≡◌, ◌≢◌, sym, ap, ◌∙◌,
  arith, length, length-filter-le, length-eq-sum_by, sum_by, sum_by-perm, sum_by-map, sum_by-ext,
  All, All-mono, All-map, All-perm, some_inj,
}
use argus_core.HashMap.{Iteration}
use argus_core.HashMap.Entries.{key_set-Nodup, All-key_set}
use argus_core.HashMap.Inhabited.{key_set-HasMembers, HasMembers, All-key_set_of}
use argus_core.HashMap.Regroup.{sum_by-regroup}
use argus_core.Slices.Total.{try_sort_by-total}
use argus_core.Types.{Conflict}
use argus_core.Types.ConflictGraph.{ConflictGraph}
use argus_core.Reporter.Build.{Report, Display}
use argus_core.Sink.Contention.{
  Float, ContentionEvent, Key, Key_discrete, key_of, hazard_of, Bucket, buckets_of, density_of,
  hundredths, to_event, cmp_event, to_contention_events,
}
use argus_core.Sink.Contention.Buckets.{
  at_key, keys_of, ends_from, bucket_at, buckets_of-tally, length-ends,
}

-- IEEE 754, as far as sorting needs it: a quotient of 32-bit numbers with a positive divisor is not NaN,
-- rounding it to hundredths does not make it one, and numbers that are not NaN are ordered.
pub record NanLaws {F : Type 0} (float : Float F) : Type 0 where
  pub is_nan : F → Bool
  pub div-not_nan :
      (n d : ℕ) → n < 2 ^ 32 → 0 < d → d < 2 ^ 32 → is_nan (density_of float n d) ≡ false
  pub hundredths-not_nan : (x : F) → is_nan x ≡ false → is_nan (hundredths float x) ≡ false
  pub cmp_of_not_nan :
      (x y : F)
      → is_nan x ≡ false
      → is_nan y ≡ false
      → (o : Ordering) × (float.partial_cmp x y ≡ some o)

module _ {F Duration : Type 0} (float : Float F) (laws : NanLaws float) (display : Display)
    (report : Report Duration) (now : String) (it : Iteration (Key × Bucket))
    (graph : ConflictGraph) (small : 2 * length graph.conflicts < 2 ^ 32) where
  abbrev pub to_ev : Key × Bucket → ContentionEvent F
  to_ev = to_event float display report now

  -- The event of a key, read off the edges.
  abbrev pub event_at : Key → ContentionEvent F
  event_at k = to_ev (bucket_at graph.conflicts k)

  abbrev pub IsSound : ContentionEvent F → Type 0
  IsSound e = laws.is_nan e.conflict_density ≡ false

  affected_pos :
      (k : Key)
      → HasMembers Key_discrete key_of graph.conflicts k
      → (length (ends_from [] (at_key k graph.conflicts)) % 2 ^ 32
          ≡ length (ends_from [] (at_key k graph.conflicts)))
        × (0 < length (ends_from [] (at_key k graph.conflicts)))
  affected_pos k h = omega (
    arith,
    length-ends (at_key k graph.conflicts) h,
    length-filter-le (λ c. Key_discrete (key_of c) k) graph.conflicts,
  )

  event_at-IsSound :
      (k : Key) → HasMembers Key_discrete key_of graph.conflicts k → IsSound (event_at k)
  unfolding to_event
  event_at-IsSound k h = laws.hundredths-not_nan _ (
      laws.div-not_nan (bucket_at graph.conflicts k).1.count _ (omega arith)
        (omega (arith, affected_pos k h)) (omega (arith, affected_pos k h)))

  arranged :
      Perm
        (map to_ev (it.arrange (buckets_of graph.conflicts)))
        (map event_at (keys_of graph.conflicts))
  arranged =
      let listed =
        ap (map to_ev) (buckets_of-tally graph.conflicts)
        ∙ map-map to_ev (bucket_at graph.conflicts) (keys_of graph.conflicts) in
      rw (← listed) (Perm.map to_ev (it.arrange-perm (buckets_of graph.conflicts)))

  pub All-IsSound : All IsSound (map to_ev (it.arrange (buckets_of graph.conflicts)))
  All-IsSound =
      All-perm IsSound (λ e. Bool_set _ _) (Perm.symm arranged)
        (All-map IsSound event_at (keys_of graph.conflicts) (
          All-mono (keys_of graph.conflicts) event_at-IsSound
            (key_set-HasMembers Key_discrete key_of graph.conflicts)))

  pub to_contention_events-perm :
      (events : List (ContentionEvent F)) × (to_contention_events float display report now it graph
        ≡ some events)
      × Perm events (map event_at (keys_of graph.conflicts))
  unfolding to_contention_events
  to_contention_events-perm =
      let (events, e, perm, _) =
        try_sort_by-total (cmp_event float display report now) IsSound
          (λ x y p q. laws.cmp_of_not_nan y.conflict_density x.conflict_density q p)
          (map to_ev (it.arrange (buckets_of graph.conflicts))) All-IsSound in
      (events, e, Perm.trans perm arranged)

  pub returned :
      (events : List (ContentionEvent F))
      → to_contention_events float display report now it graph ≡ some events
      → Perm events (map event_at (keys_of graph.conflicts))
  returned events h =
      let (events', e, perm) = to_contention_events-perm in
      let same : events' ≡ events = some_inj (sym e ∙ h) in rw same at perm

  pub event_at-count : (k : Key) → (event_at k).conflict_count ≡ length (at_key k graph.conflicts)
  unfolding to_event
  event_at-count k =
      omega (arith, length-filter-le (λ c. Key_discrete (key_of c) k) graph.conflicts)

  -- Under the laws of NaN and with fewer than 2 ^ 31 edges, every edge is counted in exactly one
  -- of the events returned: their counts add up to the number of edges.
  pub to_contention_events-counts :
      (events : List (ContentionEvent F))
      → to_contention_events float display report now it graph ≡ some events
      → sum_by (λ e. e.conflict_count) events ≡ length graph.conflicts
  to_contention_events-counts events h =
      let cs = graph.conflicts in
      let ks = keys_of cs in
      sum_by-perm (λ e. e.conflict_count) (returned events h)
      ∙ sum_by-map event_at (λ e. e.conflict_count) ks
      ∙ sum_by-ext (λ k. event_at-count k ∙ length-eq-sum_by (at_key k cs)) ks
      ∙ sum_by-regroup Key_discrete key_of (λ _. 1) ks cs
          (key_set-Nodup Key_discrete key_of [] cs Nodup-nil)
          (All-key_set Key_discrete key_of [] cs)
      ∙ sym (length-eq-sum_by cs)

  not_war : (c : Conflict) → (key_of c).hazard ≢ "WAR"
  unfolding hazard_of
  not_war c = ground (arith, eq_iff "WAW" "WAR", eq_iff "RAW" "WAR")

  keys-not_war : (cs : List Conflict) → All (λ c. (key_of c).hazard ≢ "WAR") cs
  keys-not_war [] = tt
  keys-not_war (c ∷ cs) = (not_war c, keys-not_war cs)

  event_at-not_war : (k : Key) → k.hazard ≢ "WAR" → (event_at k).hazard_type ≢ "WAR"
  unfolding to_event
  event_at-not_war k h = h

  -- Under the laws of NaN and with fewer than 2 ^ 31 edges, none of the events returned has the
  -- hazard WAR.
  pub to_contention_events-not_war :
      (events : List (ContentionEvent F))
      → to_contention_events float display report now it graph ≡ some events
      → All (λ e. e.hazard_type ≢ "WAR") events
  to_contention_events-not_war events h =
      let ks = keys_of graph.conflicts in
      All-perm (λ e. e.hazard_type ≢ "WAR") (λ e. ¬_prop) (Perm.symm (returned events h))
        (All-map (λ e. e.hazard_type ≢ "WAR") event_at ks
          (All-mono ks event_at-not_war (
            All-key_set_of Key_discrete key_of (λ k. k.hazard ≢ "WAR") [] graph.conflicts tt
              (keys-not_war graph.conflicts))))
