-- ===== src/Stats/Tests.antt =====
-- Three ticks in the window, and the theorems about windows at them.
use tuning_tools.Base.{ℕ, ◌≡◌, refl, true, List, [], ◌∷◌}
use tuning_tools.Float.{Arithmetic}
use tuning_tools.Stats.{LinkStats, no_stats, restart_window, snapshot}
use tuning_tools.Stats.Window.{Tick, record_all, record_all-recent}

abbrev tick : ℕ → ℕ → Tick
tick at read_us = record { at = at; read_us = read_us; bytes = 8; failed_regions = 0 }

abbrev three : List Tick
three = tick 1000 50 ∷ tick 2000 70 ∷ tick 3000 40 ∷ []

abbrev whole_numbers : Arithmetic
whole_numbers = record {
  of_u64 = λ n. n;
  seconds = λ n. n;
  div = λ a b. a;
  mul = λ a b. a;
  is_positive = λ a. true;
}

abbrev after_three : LinkStats
after_three = record no_stats {
  recent_read_us = 50 ∷ 70 ∷ 40 ∷ [];
  recent_ticks = 1000 ∷ 2000 ∷ 3000 ∷ [];
}

jitter_of_three : (snapshot whole_numbers after_three 0 0 1 1).jitter_us ≡ 30
unfolding snapshot
jitter_of_three = refl

record_all-recent_example :
    ((record_all (restart_window no_stats) three).recent_read_us ≡ 50 ∷ 70 ∷ 40 ∷ [])
    × ((record_all (restart_window no_stats) three).recent_ticks ≡ 1000 ∷ 2000 ∷ 3000 ∷ [])
record_all-recent_example = record_all-recent no_stats three
