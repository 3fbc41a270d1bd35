-- ===== src/Sink/Contention/Descending.antt =====
-- The order of the contention events.
use Prim.Native.Nat.{Ordering}
use Prim.Native.String.{String}
use argus_core.Base.{◌*◌, ◌^◌, ◌<◌, List, [], ◌∷◌, map, some, false, ◌≡◌, ◌≢◌, length, All}
use argus_core.HashMap.{Iteration}
use argus_core.Slices.Decided.{IsOrdered, try_sort_by-IsOrdered}
use argus_core.Types.ConflictGraph.{ConflictGraph}
use argus_core.Reporter.Build.{Report, Display}
use argus_core.Sink.Contention.{
  Float, ContentionEvent, Key, Bucket, buckets_of, cmp_event, to_contention_events,
}
use argus_core.Sink.Contention.Events.{NanLaws, IsSound, All-IsSound, to_ev}

-- `partial_cmp` orders the numbers that are not NaN.
pub record OrderLaws {F : Type 0} (float : Float F) (laws : NanLaws float) : Type 0 where
  pub flip :
      (x y : F)
      → laws.is_nan x ≡ false
      → laws.is_nan y ≡ false
      → float.partial_cmp x y ≡ some Ordering.gt
      → float.partial_cmp y x ≢ some Ordering.gt
  pub le_trans :
      (x y z : F)
      → laws.is_nan x ≡ false
      → laws.is_nan y ≡ false
      → laws.is_nan z ≡ false
      → float.partial_cmp x y ≢ some Ordering.gt
      → float.partial_cmp y z ≢ some Ordering.gt
      → float.partial_cmp x z ≢ some Ordering.gt

-- No later event has a greater density.
abbrev pub IsDescending : {F : Type 0} → Float F → List (ContentionEvent F) → Type 0
IsDescending float [] = Unit
IsDescending float (x ∷ xs) =
    All (λ y. float.partial_cmp y.conflict_density x.conflict_density ≢ some Ordering.gt) xs
    × IsDescending float xs

module _ {F Duration : Type 0} (float : Float F) (laws : NanLaws float)
    (order : OrderLaws float laws) (display : Display) (report : Report Duration) (now : String)
    (it : Iteration (Key × Bucket)) (graph : ConflictGraph)
    (small : 2 * length graph.conflicts < 2 ^ 32) where
  ordered-IsDescending :
      (events : List (ContentionEvent F))
      → IsOrdered (cmp_event float display report now) events
      → IsDescending float events
  ordered-IsDescending [] h = tt
  ordered-IsDescending (e ∷ events) h = (h.0, ordered-IsDescending events h.1)

  -- Under the laws of NaN and of the order of numbers, and with fewer than 2 ^ 31 edges, the events
  -- returned stand in descending order of their densities.
  pub to_contention_events-IsDescending :
      (events : List (ContentionEvent F)) × (to_contention_events float display report now it graph
        ≡ some events)
      × IsDescending float events
  unfolding to_contention_events
  to_contention_events-IsDescending =
      let (events, e, _, s) =
        try_sort_by-IsOrdered (cmp_event float display report now)
          (IsSound float laws display report now it graph small)
          (λ x y p q. laws.cmp_of_not_nan y.conflict_density x.conflict_density q p)
          (λ x y p q. order.flip y.conflict_density x.conflict_density q p)
          (λ x y z p q r h k.
            order.le_trans z.conflict_density y.conflict_density x.conflict_density r q p k h)
          (map (to_ev float laws display report now it graph small)
            (it.arrange (buckets_of graph.conflicts)))
          (All-IsSound float laws display report now it graph small) in
      (events, e, ordered-IsDescending events s)
