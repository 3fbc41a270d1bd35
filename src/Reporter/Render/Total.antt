-- ===== src/Reporter/Render/Total.antt =====
-- What the rendered text shows.
use Prim.Native.String.{String, ◌++◌}
use text.Mathlib.Text.{get?}
use mathlib.Core.List.{Perm}
use mathlib.Core.List.Perm
use mathlib.Core.HLevel.{¬_prop}
use argus_core.Base.{
  ◌*◌, ◌^◌, ◌<◌, List, [], ◌∷◌, map, none, some, ◌≡◌, ◌≢◌, refl, sym, ap, arith, length,
  length-perm, length-map, All, All-map, All-perm, ◌⊎◌, inl, inr,
}
use argus_core.HashMap.{Iteration}
use argus_core.Types.{B256, Conflict}
use argus_core.Types.ConflictGraph.{ConflictGraph}
use argus_core.Reporter.Build.{Report, Display}
use argus_core.Reporter.Render.{Formats, header, footer, no_conflicts_line, hotspots_title, render}
use argus_core.Reporter.Render.Listing.{box, Lists, hotspots-Lists}
use argus_core.Sink.Contention.{Float, ContentionEvent, Key, Bucket, to_event, to_contention_events}
use argus_core.Sink.Contention.Buckets.{keys_of}
use argus_core.Sink.Contention.Events.{
  NanLaws, event_at, to_contention_events-perm, to_contention_events-counts,
}

module _ {F Duration : Type 0} (formats : Formats F Duration) (display : Display) where
  -- The slice of the slot's text is there.
  abbrev IsWide : ContentionEvent F → Type 0
  IsWide ev = get? ev.slot_id 0 10 ≢ none

  module _ (float : Float F) (laws : NanLaws float) (report : Report Duration) (now : String)
      (it : Iteration (Key × Bucket)) (graph : ConflictGraph)
      (small : 2 * length graph.conflicts < 2 ^ 32)
      (wide : (w : B256) → get? (display.show_word w) 0 10 ≢ none) where
    -- The text of a report: the box, and the lines on its events or that there are none.
    pub record Shows (events : List (ContentionEvent F)) (text : String) : Type 0 where
      pub lines : String
      pub listed : Lists formats display 1 events lines
      pub whole :
          ((graph.conflicts ≡ [])
            × (text ≡ box formats display report ++ (no_conflicts_line ++ footer)))
          ⊎ ((graph.conflicts ≢ [])
              × (text ≡ box formats display report ++ (hotspots_title ++ (lines ++ footer))))

    event_at-IsWide : (k : Key) → IsWide (event_at float laws display report now it graph small k)
    unfolding to_event
    event_at-IsWide k = wide k.slot

    All-IsWide :
        (events : List (ContentionEvent F))
        → Perm events
            (map (event_at float laws display report now it graph small) (keys_of graph.conflicts))
        → All IsWide events
    All-IsWide events p =
        All-perm IsWide (λ e. ¬_prop) (Perm.symm p)
          (All-map IsWide (event_at float laws display report now it graph small)
            (keys_of graph.conflicts) (every (keys_of graph.conflicts)))
      where
        every :
            (ks : List Key)
            → All (λ k. IsWide (event_at float laws display report now it graph small k)) ks
        every [] = tt
        every (k ∷ ks) = (event_at-IsWide k, every ks)

    no_events : (cs : List Conflict) → length cs ≡ 0 → cs ≡ []
    no_events [] h = refl
    no_events (c ∷ cs) h = absurd (omega (arith, h))

    conflicts-ne-nil :
        {ev : ContentionEvent F} {evs : List (ContentionEvent F)}
        → Perm
            (ev ∷ evs)
            (map (event_at float laws display report now it graph small) (keys_of graph.conflicts))
        → graph.conflicts ≢ []
    conflicts-ne-nil p q = omega (
      arith,
      length-perm p,
      length-map (event_at float laws display report now it graph small) (keys_of graph.conflicts),
      ap (λ cs. length (keys_of cs)) q,
    )

    shown :
        (events : List (ContentionEvent F))
        → to_contention_events float display report now it graph ≡ some events
        → Perm events
            (map (event_at float laws display report now it graph small) (keys_of graph.conflicts))
        → (text : String) × (render formats display float report now it graph ≡ some text)
          × Shows events text
    unfolding render header
    shown [] e p = (
      _,
      rw (e, render) refl,
      record {
        lines = "";
        listed = refl;
        whole = inl (
          no_events graph.conflicts
              (sym (to_contention_events-counts float laws display report now it graph small [] e)),
          refl,
        );
      },
    )
    shown (ev ∷ evs) e p =
        let (lines, e', listed) =
          hotspots-Lists formats display 0 (ev ∷ evs) (All-IsWide (ev ∷ evs) p) in
        (
          _,
          rw (e, render, e') refl,
          record { lines = lines; listed = listed; whole = inr (conflicts-ne-nil p, refl) },
        )

    -- Under the laws of NaN, with fewer than 2 ^ 31 edges and texts of slots that have a tenth byte to
    -- cut at, rendering does not panic: its text has the box with the counts and times of the report,
    -- and then either there are no edges and it says so, or there are and it has the lines on each
    -- contention event, in their order and numbered from one.
    pub render-Shows :
        (events : List (ContentionEvent F)) × (to_contention_events float display report now it
            graph
          ≡ some events)
        × (text : String) × (render formats display float report now it graph ≡ some text)
        × Shows events text
    render-Shows =
        let (events, e, p) =
          to_contention_events-perm float laws display report now it graph small in
        let (text, e', shows) = shown events e p in (events, e, text, e', shows)
