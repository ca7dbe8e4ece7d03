-- ===== src/Ticker/Tests.antt =====
-- The source's own tests of the ticker, and its theorems at concrete times (in milliseconds).
use tuning_tools.Base.{
  ◌+◌, ◌-◌, ◌*◌, ◌^◌, ◌<◌, ◌≤◌, ◌≡◌, ◌⊎◌, refl, true, false, some, [], ◌∷◌, arith,
}
use tuning_tools.Ticker.{Ticker, new, deadline, poll}
use tuning_tools.Ticker.Polls.{IsValid, run, poll-deadline, run-counts}
use tuning_tools.Ticker.Wrap.{poll_stuck}

abbrev ten : Ticker
ten = record { start = 100; period = 10; next = 1; skipped = 0 }

abbrev ten-IsValid : IsValid ten
ten-IsValid = record { positive = omega arith; near = omega arith; counted = omega arith }

ticks_on_absolute_deadlines : poll ten 113 ≡ (true, record ten { next = 2 })
unfolding poll
ticks_on_absolute_deadlines = refl

counts_skipped_ticks : poll ten 145 ≡ (true, record ten { next = 5; skipped = 3 })
unfolding poll
counts_skipped_ticks = refl

new-ten : new 100 10 ≡ some (record ten { next = 0 })
unfolding new
new-ten = refl

poll-deadline_example :
    ((145 < deadline ten) × (poll ten 145 ≡ (false, ten)))
    ⊎ ((deadline ten ≤ 145)
        × ((poll ten 145).0 ≡ true)
        × ((poll ten 145).1.next + 0 ≡ (poll ten 145).1.skipped + 1 + 1)
        × (145 < deadline (poll ten 145).1)
        × (deadline (poll ten 145).1 ≤ 145 + 10)
        × IsValid (poll ten 145).1)
poll-deadline_example = poll-deadline ten 145 ten-IsValid (omega arith)

run-counts_example :
    (run ten (113 ∷ 119 ∷ 145 ∷ [])).0 + (run ten (113 ∷ 119 ∷ 145 ∷ [])).1.skipped + 1
    ≡ (run ten (113 ∷ 119 ∷ 145 ∷ [])).1.next + 0
run-counts_example = run-counts ten (113 ∷ 119 ∷ 145 ∷ []) ten-IsValid (omega arith)

abbrev late : Ticker
late = record { start = 0; period = 10; next = 2 ^ 32; skipped = 0 }

poll_stuck_example : poll late (10 * 2 ^ 32 - 1) ≡ (true, late)
poll_stuck_example =
    poll_stuck late (10 * 2 ^ 32 - 1) (omega arith) (omega arith) (omega arith) (omega arith)
      (omega arith) (omega arith)
