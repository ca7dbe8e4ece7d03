-- ===== src/TaskStats/Tests.antt =====
-- A static with two slots, of which one has a task, and the theorem about it.
use tuning_tools.Base.{ℕ, ◌+◌, ◌^◌, ◌≡◌, refl, true, some, List, [], ◌∷◌, arith}
use tuning_tools.Message.{ok}
use tuning_tools.TaskStats.{StatsLayout, decode, task, number}
use tuning_tools.TaskStats.Slots.{IsWhole, value_at, used, decode-ok}

abbrev layout : StatsLayout
layout = record {
  symbol = [];
  address = 512;
  size = 64;
  little_endian = true;
  magic = 0;
  version = 4;
  clock_hz = 8;
  untracked = 12;
  slots = 16;
  stride = 24;
  count = 2;
  slot = record { task = 0; polls = 4; cycles = 8; max_cycles = 12; peak = 16; last_peak = 20 };
}

abbrev static : List ℕ
static =
    82 ∷ 77 ∷ 84 ∷ 83 ∷ 1 ∷ 0 ∷ 0 ∷ 0 ∷ 100 ∷ 0 ∷ 0 ∷ 0 ∷ 0 ∷ 0 ∷ 0 ∷ 0 ∷ 0 ∷ 0 ∷ 0 ∷ 0 ∷ 9 ∷ 9 ∷ 9
    ∷ 9 ∷ 9 ∷ 9 ∷ 9 ∷ 9 ∷ 9 ∷ 9 ∷ 9 ∷ 9 ∷ 9 ∷ 9 ∷ 9 ∷ 9 ∷ 9 ∷ 9 ∷ 9 ∷ 9 ∷ 0 ∷ 1 ∷ 0 ∷ 0 ∷ 2 ∷ 0 ∷ 0
    ∷ 0 ∷ 50 ∷ 0 ∷ 0 ∷ 0 ∷ 40 ∷ 0 ∷ 0 ∷ 0 ∷ 30 ∷ 0 ∷ 0 ∷ 0 ∷ 35 ∷ 0 ∷ 0 ∷ 0 ∷ []

static-IsWhole : IsWhole layout static
static-IsWhole = record {
  magic_in = omega arith;
  version_in = omega arith;
  clock_in = omega arith;
  untracked_in = omega arith;
  slots_in = omega arith;
  task_in = omega arith;
  polls_in = omega arith;
  cycles_in = omega arith;
  max_cycles_in = omega arith;
  peak_in = omega arith;
  last_peak_in = omega arith;
}

decode-ok_example :
    decode layout static
    ≡ ok (record {
      clock_hz = value_at layout static 8;
      untracked = value_at layout static 12;
      slots = used layout static 0 2;
    })
unfolding value_at number
decode-ok_example = decode-ok layout static static-IsWhole refl refl

finds_its_task :
    task
      (record {
        clock_hz = 100;
        untracked = 0;
        slots =
            record { task = 256; polls = 2; cycles = 50; max_cycles = 40; recent_max_cycles = 35 }
            ∷ [];
      })
      (2 ^ 32 + 256)
    ≡ some (record { task = 256; polls = 2; cycles = 50; max_cycles = 40; recent_max_cycles = 35 })
unfolding task
finds_its_task = refl
