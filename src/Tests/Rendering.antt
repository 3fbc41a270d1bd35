-- ===== src/Tests/Rendering.antt =====
-- Tests of the order of the events and of the text of the report, with whole numbers for the
-- floating-point ones.
use Prim.Native.Nat.{compare, Ordering}
use Prim.Native.String.{String}
use text.Mathlib.Text.{get?}
use argus_core.Base.{ℕ, ◌*◌, ◌/◌, ◌≤◌, List, leb, false, Option, none, some, ◌≡◌, ◌≢◌, refl, arith}
use argus_core.Reporter.Build.{Display, Report, build}
use argus_core.Reporter.Render.{Formats, render}
use argus_core.Reporter.Render.Total.{Shows, render-Shows}
use argus_core.Sink.Contention.{Float, ContentionEvent, to_contention_events}
use argus_core.Sink.Contention.Events.{NanLaws}
use argus_core.Sink.Contention.Descending.{
  OrderLaws, IsDescending, to_contention_events-IsDescending,
}
use argus_core.Tests.Data.{in_order, three_lists, three_graph}

abbrev pub whole : Float ℕ
whole = record {
  of_nat = λ n. n;
  div = λ x y. x / y;
  mul = λ x y. x * y;
  round = λ x. x;
  ge = λ x y. leb y x;
  partial_cmp = λ x y. some (compare x y);
}

pub whole-NanLaws : NanLaws whole
whole-NanLaws = record {
  is_nan = λ _. false;
  div-not_nan = λ n d hn pos hd. refl;
  hundredths-not_nan = λ x h. refl;
  cmp_of_not_nan = λ x y p q. (compare x y, refl);
}

le-cmp : (x y : ℕ) → ◌≢◌ {A = Option Ordering} (some (compare x y)) (some Ordering.gt) → x ≤ y
le-cmp x y h = ground arith

cmp-le : (x y : ℕ) → x ≤ y → ◌≢◌ {A = Option Ordering} (some (compare x y)) (some Ordering.gt)
cmp-le x y h = ground arith

whole-OrderLaws : OrderLaws whole whole-NanLaws
whole-OrderLaws = record {
  flip = λ x y p q h. ground arith;
  le_trans = λ x y z p q r h k. cmp-le x z (omega (arith, le-cmp x y h, le-cmp y z k));
}

-- Words are long enough for the slice of the report.
abbrev pub long : Display
long = record {
  show_number = λ _. "n";
  show_address = λ _. "address";
  show_word = λ _. "0x0000000000";
}

abbrev pub formats : Formats ℕ ℕ
formats = record { show_duration = λ _. "d"; show_density = λ _. "0" }

abbrev three_report : Report ℕ
three_report = build long in_order 17 three_lists three_graph 3 5

to_contention_events-IsDescending_example :
    (events : List (ContentionEvent ℕ)) × (to_contention_events whole long three_report "now"
        in_order three_graph
      ≡ some events)
    × IsDescending whole events
to_contention_events-IsDescending_example =
    to_contention_events-IsDescending whole whole-NanLaws whole-OrderLaws long three_report "now"
      in_order three_graph (omega arith)

sliced : get? "0x0000000000" 0 10 ≡ some "0x00000000"
sliced = refl

pub cut : get? "0x0000000000" 0 10 ≢ none
cut e = ground (arith, sliced, e)

render-Shows_example :
    (events : List (ContentionEvent ℕ)) × (to_contention_events whole long three_report "now"
        in_order three_graph
      ≡ some events)
    × (text : String) × (render formats long whole three_report "now" in_order three_graph
        ≡ some text)
    × Shows formats long whole whole-NanLaws three_report "now" in_order three_graph
        (omega arith)
        (λ _. cut)
        events
        text
render-Shows_example =
    render-Shows formats long whole whole-NanLaws three_report "now" in_order three_graph
      (omega arith) (λ _. cut)
