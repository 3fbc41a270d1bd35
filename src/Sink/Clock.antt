-- ===== src/Sink/Clock.antt =====
-- `chrono_now` of crates/analyzer/src/sink/mod.rs: the text of a number of seconds since the Unix
-- epoch, as a calendar of years of 365 days and months of 30 days.
pub mod Calendar
use Prim.Native.String.{String, ◌++◌}
use argus_core.Base.{ℕ, ◌+◌, ◌/◌, ◌%◌, ltb, if◌then◌else◌}

-- The six numbers of the time stamp.
pub record Stamp : Type 0 where
  pub year : ℕ
  pub month : ℕ
  pub day : ℕ
  pub hour : ℕ
  pub minute : ℕ
  pub second : ℕ

unfoldable pub stamp : ℕ → Stamp
stamp secs = record {
  year = 1970 + secs / 31_536_000;
  month = secs % 31_536_000 / 2_592_000 + 1;
  day = secs % 2_592_000 / 86_400 + 1;
  hour = secs % 86_400 / 3600;
  minute = secs % 3600 / 60;
  second = secs % 60;
}

-- `{:02}`, over the decimal digits that `show` prints
abbrev pub pad2 : (ℕ → String) → ℕ → String
pad2 show n = if ltb n 10 then "0" ++ show n else show n

unfoldable pub format_stamp : (ℕ → String) → Stamp → String
format_stamp show s =
    show s.year
    ++ ("-"
        ++ (pad2 show s.month
            ++ ("-"
                ++ (pad2 show s.day
                    ++ ("T"
                        ++ (pad2 show s.hour
                            ++ (":"
                                ++ (pad2 show s.minute
                                    ++ (":" ++ (pad2 show s.second ++ "Z"))))))))))

unfoldable pub chrono_now : (ℕ → String) → ℕ → String
unfolding stamp format_stamp
chrono_now show secs = format_stamp show (stamp secs)
