-- ===== src/Tests/Reports.antt =====
-- Tests of the report and of the rows that are made of it.
use mathlib.Core.List.{Perm}
use argus_core.Base.{List, ℕ, [], ◌∷◌, map, ◌≡◌, refl, arith, ℕ_discrete}
use argus_core.HashMap.{update, set_insert}
use argus_core.Reporter.Build.{Report, build}
use argus_core.Reporter.Totals.{distinct, at_address, addresses_of}
use argus_core.HashMap.Once.{EachOnce}
use argus_core.Reporter.Groups.{contract_group, build-perm-contract_group}
use argus_core.Sink.Clock.{stamp}
use argus_core.Sink.Clock.Calendar.{read_back, stamp-read_back, Backwards, stamp-Backwards}
use argus_core.Tests.Data.{in_order, plain, three_lists, three_conflicts, three_graph}

abbrev three_report : Report ℕ
three_report = build plain in_order 17 three_lists three_graph 3 5

grouped : map (λ g. g.tx_count) three_report.groups ≡ 3 ∷ []
unfolding build update set_insert ℕ_discrete
grouped = refl

build-perm-contract_group_example :
    Perm three_report.groups (
      map
        (λ a. contract_group plain a (at_address a three_conflicts))
        (addresses_of three_conflicts))
    × EachOnce (map (λ c. c.location.address) three_conflicts) (addresses_of three_conflicts)
    × ((xs : List ℕ) → EachOnce xs (distinct xs))
build-perm-contract_group_example =
    build-perm-contract_group plain in_order 17 three_lists three_graph 3 5

stamp-read_back_example : read_back (stamp 1_735_600_000) ≡ 1_735_600_000
stamp-read_back_example = stamp-read_back 1_735_600_000

-- Of the year 1971, that is.
stamp-Backwards_example : Backwards 1971
stamp-Backwards_example = stamp-Backwards 1 (omega arith)
