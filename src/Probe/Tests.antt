-- ===== src/Probe/Tests.antt =====
-- A probe session on a target without a table, and the theorems about sessions at it.
use tuning_tools.Base.{
  ℕ, Option, ◌≡◌, ◌+◌, ◌%◌, ◌==◌, refl, ◌≢◌, true, false, none, some, List, [], ◌∷◌, arith,
  if◌then◌else◌,
}
use tuning_tools.Carrier
use tuning_tools.Carrier.Mock.{MockLink, mock_memory}
use tuning_tools.Float.Sample.{sample_floats}
use tuning_tools.ReadPlan.{VariableType}
use tuning_tools.Ticker
use tuning_tools.Stats.{no_stats}
use tuning_tools.RttTuning
use tuning_tools.Session.{SessionCommand}
use tuning_tools.Probe.{Worker, Setting, panics}
use tuning_tools.Probe.Turn.{Input}
use tuning_tools.Probe.Loop.{Opening, session, serve}
use tuning_tools.Probe.Still.{Given}
use tuning_tools.Probe.Safe.Loop.{session-panics}
use tuning_tools.Probe.Answers.Loop.{Accounts, taken_turns, serve-Accounts}

abbrev blank : MockLink
blank = record { ram = λ i. 0; faults = []; reads = 0 }

-- The period of a rate; the number 3 stands for one that is not a number.
abbrev period : ℕ → Option ℕ
period hz = if hz % 4 == 3 then none else some (hz + 1)

period_pos : (hz : ℕ) → (hz % 4 == 3) ≡ false → (p : ℕ) × (period hz ≡ some p) × (p ≢ 0)
period_pos hz number = (hz + 1, rw number refl, λ e. ground arith)

abbrev probing : Setting
probing = record {
  memory = mock_memory;
  fl = sample_floats;
  ops = record {
    of_u64 = λ n. n;
    seconds = λ n. n;
    div = λ a b. a;
    mul = λ a b. a;
    is_positive = λ v. true;
  };
  float_bits = λ v. 3;
  lossy = λ bs. bs;
  utf8 = λ bs. some bs;
  clamp = λ hz. hz;
  period_of = period;
  period_pos = period_pos;
  taken = λ outs bytes. true;
  rounds = 65;
}

-- A value is watched, a request and a read are made, and the session stops behind it.
abbrev inputs : List (Input MockLink)
inputs =
    record {
      applied = 10;
      requested = 11;
      now = 1000;
      started = 1001;
      read_us = 5;
      commands =
          SessionCommand.set_watches (
            record {
              id = 5;
              address = 64;
              scalar = VariableType.u8;
              bit_offset = none;
              bit_size = none;
            }
            ∷ [])
          ∷ SessionCommand.save 7
          ∷ SessionCommand.read ((64, 4) ∷ []) 8
          ∷ [];
      hung_up = false;
      target = λ m. m;
    }
    ∷ record {
      applied = 2000;
      requested = 2001;
      now = 2002;
      started = 2003;
      read_us = 5;
      commands = SessionCommand.stop ∷ [];
      hung_up = false;
      target = λ m. m;
    }
    ∷ []

abbrev openings : List (Opening MockLink)
openings =
    record {
      opened = 5;
      memory = some (blank, inputs);
      result = Carrier.ok tt;
      now = 3000;
      waits = [];
    }
    ∷ []

session-panics_example : session probing 0 100 9 false (some 76) (Carrier.ok openings) ≢ panics
session-panics_example =
    session-panics probing 0 100 9 false (some 76) (Carrier.ok openings) refl
      ((((tt, (tt, ((omega arith, tt), tt))), ((tt, tt), tt)), tt), tt)

abbrev worker : Worker
worker =
    let every : ℕ → Ticker.Ticker =
      λ period. record { start = 0; period = period; next = 1; skipped = 0 } in
    record {
      start = 0;
      rate_hz = 100;
      plan = record { items = []; slots = []; regions = [] };
      sampler = none;
      skipped_before = 0;
      frame = record { ids = []; times = []; values = [] };
      stats = no_stats;
      decodes = false;
      rtt = none;
      last_error = none;
      failing_since = none;
      stopping = false;
      log_tick = every 1000;
      frame_tick = every 1000;
      stats_tick = every 1000;
      tuner = none;
      tune_tick = every 1000;
      requests = [];
      reads = [];
      framed = some (RttTuning.new 76 9);
    }

serve-Accounts_example :
    Given
      (Accounts probing 7
        (taken_turns probing 5 inputs ((worker, []), blank))
        ((worker, []), blank))
      (serve probing 5 inputs ((worker, []), blank))
unfolding RttTuning.new
serve-Accounts_example =
    serve-Accounts probing 5 inputs ((worker, []), blank) 7 (tt, tt) (omega arith)
