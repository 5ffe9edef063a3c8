-- ===== src/Examples/Throttle.antt =====
-- A logger that prints each key at most every ten nanoseconds.
use homer_cli.Base.{ℕ, String, ◌≡◌, refl, true, none, List, [], ◌∷◌, arith}
use homer_cli.Base.Dict.{lookup}
use homer_cli.Stream.Throttle.{
  ThrottledLogger, printed, IsSpaced, times_of, kept_times, printed-kept_times-IsSpaced,
}

abbrev logger : ThrottledLogger
logger = record { has_logger = true; window = 10; last = [] }

-- The second "retry" comes too soon; "drop" in between does not count for it.
abbrev messages : List (ℕ × String)
messages = (5, "retry") ∷ (9, "drop") ∷ (12, "retry") ∷ (15, "retry") ∷ []

printed-kept_times-IsSpaced_example :
    (printed "retry" messages logger ≡ 5 ∷ 15 ∷ [])
    × IsSpaced 10 none (printed "retry" messages logger)
unfolding lookup times_of kept_times
printed-kept_times-IsSpaced_example =
    printed-kept_times-IsSpaced "retry" messages logger (omega arith) refl
