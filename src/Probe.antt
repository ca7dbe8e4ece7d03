-- ===== src/Probe.antt =====
-- crates/studio-core/src/session.rs: the worker that owns a probe. Its output is a trace, the newest first;
-- an instant is its nanoseconds.
pub mod Requests
pub mod Turn
pub mod Loop
pub mod Safe
pub mod Still
pub mod Answers
mod Tests
use tuning_tools.Base.{
  ℕ, zero, suc, ◌+◌, ◌-◌, ◌*◌, ◌%◌, ◌^◌, ◌≡◌, ◌≢◌, min, Bool, true, false, ◌&&◌, Option, none, some,
  List, [], ◌∷◌, ◌++◌, map, length, ltb, ◌==◌, if◌then◌else◌,
}
use tuning_tools.Carrier.{MemoryAccess}
use tuning_tools.Float.{Floats, Arithmetic}
use tuning_tools.Message.{Message, Text, Except, ok, err}
use tuning_tools.Batch
use tuning_tools.Batch.{FrameBuilder, SampleBatch}
use tuning_tools.ReadPlan
use tuning_tools.ReadPlan.{ReadItem, ReadPlan, Value}
use tuning_tools.Catalog.{Catalog}
use tuning_tools.Catalog.Read.{TableLayout}
use tuning_tools.Tune
use tuning_tools.Tune.{Tuner}
use tuning_tools.Stats.{LinkStats, restart_window, no_stats}
use tuning_tools.Ticker
use tuning_tools.Ticker.{Ticker}
use tuning_tools.Rtt.Channels.{RttReader, new_reader}
use tuning_tools.RttTuning
use tuning_tools.RttTuning.{RttTuning}
use tuning_tools.Session.{SessionEvent, SessionCommand}

abbrev pub frame_period : ℕ
frame_period = 33000000

abbrev pub log_period : ℕ
log_period = 10000000

abbrev pub stats_period : ℕ
stats_period = 500000000

abbrev pub tune_period : ℕ
tune_period = 100000000

abbrev pub link_lost_after : ℕ
link_lost_after = 2000000000

abbrev pub reopen_after : ℕ
reopen_after = 250000000

abbrev pub log_len : ℕ
log_len = 4096

pub data TuneRequest : Type 0 where
  set : ℕ → ℕ → TuneRequest
  discard save : TuneRequest

pub record Worker : Type 0 where
  pub start : ℕ
  pub rate_hz : ℕ
  pub plan : ReadPlan
  pub sampler : Option Ticker
  pub skipped_before : ℕ
  pub frame : FrameBuilder
  pub stats : LinkStats
  -- Whether the ELF's table decodes the log.
  pub decodes : Bool
  pub rtt : Option RttReader
  pub last_error : Option Message
  pub failing_since : Option ℕ
  pub stopping : Bool
  pub log_tick : Ticker
  pub frame_tick : Ticker
  pub stats_tick : Ticker
  pub tuner : Option Tuner
  pub tune_tick : Ticker
  pub requests : List (TuneRequest × ℕ)
  pub reads : List (List (ℕ × ℕ) × ℕ)
  pub framed : Option RttTuning

pub data Output : Type 0 where
  event : SessionEvent → Output
  samples : SampleBatch → Output
  frame : List ℕ → Output
  -- The answers on a channel.
  reply : ℕ → Except Message (Unit {0}) → Output
  read_reply : ℕ → Except Message (List (List ℕ)) → Output
  -- Bytes of the log for the decoder's thread.
  log_bytes : ℕ → List ℕ → Output

-- What the worker calls. `clamp` is `hz.clamp(1.0, MAX_RATE_HZ)`, which leaves a rate that is not a number
-- as it is; `period_of` is `Duration::from_secs_f64(1.0 / hz)`, with `none` for its panic; `taken` is whether the sink delivers a frame, behind what was put out before. `rounds` bounds
-- the reads of a poll of the control channel.
pub record Setting : Type 1 where
  pub memory : MemoryAccess
  pub fl : Floats
  pub ops : Arithmetic
  pub float_bits : Value → ℕ
  pub lossy : List ℕ → List ℕ
  pub utf8 : List ℕ → Option Text
  pub clamp : ℕ → ℕ
  pub period_of : ℕ → Option ℕ
  pub period_pos :
      (hz : ℕ)
      → fl.is_nan hz ≡ false
      → (period : ℕ) × (period_of (clamp hz) ≡ some period) × (period ≢ 0)
  pub taken : List Output → List ℕ → Bool
  pub rounds : ℕ

-- A panic, or a loop that is still running behind its rounds, has no result.
pub data Outcome (A : Type 0) : Type 0 where
  done : A → Outcome A
  panics runs_on : Outcome A

infixl 5 ◌>>=◌
abbrev pub ◌>>=◌ : {A B : Type 0} → Outcome A → (A → Outcome B) → Outcome B
done a >>= f = f a
panics >>= f = panics
runs_on >>= f = runs_on

abbrev pub State : Type 0
State = Worker × List Output

abbrev pub put : Output → State → State
put o (w, outs) = (w, o ∷ outs)

abbrev pub count_frame : Bool → LinkStats → LinkStats
count_frame true s = record s { frames_sent = (s.frames_sent + 1) % 2 ^ 64 }
count_frame false s = record s { frames_dropped = (s.frames_dropped + 1) % 2 ^ 64 }

abbrev pub skipped_of : Option Ticker → ℕ
skipped_of none = 0
skipped_of (some t) = t.skipped

-- A ticker or its period, or the panic of a call that has none.
abbrev pub started : {A : Type 0} → Option A → Outcome A
started none = panics
started (some t) = done t

abbrev pub is_stop : SessionCommand → Bool
is_stop SessionCommand.stop = true
is_stop command = false

module _ (env : Setting) where
  open env use {memory, fl, ops, clamp, period_of, taken}

  -- `Worker::new`, with the decoder and the addresses that the options lead to.
  unfoldable pub new_worker : ℕ → ℕ → ℕ → Bool → Option ℕ → Outcome Worker
  new_worker start rate_hz token decodes address =
      started (Ticker.new start log_period) >>= λ log_tick.
      started (Ticker.new start frame_period) >>= λ frame_tick.
      started (Ticker.new (start + stats_period) stats_period) >>= λ stats_tick.
      started (Ticker.new start tune_period) >>= λ tune_tick. done (record {
        start = start;
        rate_hz = clamp rate_hz;
        plan = record { items = []; slots = []; regions = [] };
        sampler = none;
        skipped_before = 0;
        frame = record { ids = []; times = []; values = [] };
        stats = no_stats;
        decodes = decodes;
        rtt = if decodes then reader_at address else none;
        last_error = none;
        failing_since = none;
        stopping = false;
        log_tick = log_tick;
        frame_tick = frame_tick;
        stats_tick = stats_tick;
        tuner = none;
        tune_tick = tune_tick;
        requests = [];
        reads = [];
        framed = framed_at address;
      })
    where
      reader_at : Option ℕ → Option RttReader
      reader_at none = none
      reader_at (some a) = some (new_reader a)

      framed_at : Option ℕ → Option RttTuning
      framed_at none = none
      framed_at (some a) = some (RttTuning.new a token)

  -- A batch goes to the sink, and its frame; one that cannot be encoded panics.
  unfoldable pub deliver : Option SampleBatch → State → Outcome State
  deliver none s = done s
  deliver (some batch) (w, outs) = elim (Batch.encode batch) [
    | none ↦ panics
    | some bytes ↦
        let given = Output.samples batch ∷ outs in
        done
          (record w { stats = count_frame (taken given bytes) w.stats }, Output.frame bytes ∷ given)
  ]

  unfoldable pub flush_frame : State → Outcome State
  unfolding deliver
  flush_frame (w, outs) =
      let (batch, left) = Batch.take_pending w.frame in
      deliver batch (record w { frame = left }, outs)

  -- The sampler's next ticker, where anything is watched.
  unfoldable pub sampler_for : ℕ → Worker → Outcome (Option Ticker)
  sampler_for at w =
      if length w.plan.items == 0
      then done none
      else (started (period_of w.rate_hz) >>= λ period.
          started (Ticker.new at period) >>= λ t. done (some t))

  unfoldable pub restart_sampler : ℕ → Worker → Outcome Worker
  unfolding sampler_for
  restart_sampler at w = sampler_for at w >>= λ sampler. done (record w {
    skipped_before = (w.skipped_before + skipped_of w.sampler) % 2 ^ 64;
    sampler = sampler;
    stats = restart_window w.stats;
    failing_since = none;
  })

  abbrev pub watching : List ReadItem → Worker → Worker
  watching items w = record w {
    frame = Batch.reset w.frame (map (λ i. i.id) items);
    plan = ReadPlan.new items;
  }

  unfoldable pub set_watches : ℕ → List ReadItem → State → Outcome State
  unfolding flush_frame restart_sampler
  set_watches at items s =
      flush_frame s >>= λ s'. restart_sampler at (watching items s'.0) >>= λ w. done (w, s'.1)

  unfoldable pub set_rate : ℕ → ℕ → State → Outcome State
  unfolding restart_sampler
  set_rate at hz (w, outs) =
      if fl.is_finite hz
      then (restart_sampler at (record w { rate_hz = clamp hz }) >>= λ w'. done (w', outs))
      else done (w, outs)

  abbrev pub tuner_of : Option (TableLayout × Catalog) → Option Tuner
  tuner_of none = none
  tuner_of (some (layout, catalog)) = some (Tune.new layout catalog)

  abbrev pub queue : TuneRequest → ℕ → Worker → Worker
  queue request k w = record w { requests = w.requests ++ ((request, k) ∷ []) }

  unfoldable pub apply : ℕ → SessionCommand → State → Outcome State
  unfolding set_watches set_rate
  apply at (SessionCommand.set_watches items) s = set_watches at items s
  apply at (SessionCommand.set_rate hz) s = set_rate at hz s
  apply at (SessionCommand.set_catalog c) (w, outs) = done (record w { tuner = tuner_of c }, outs)
  apply at (SessionCommand.request id v k) (w, outs) = done (queue (TuneRequest.set id v) k w, outs)
  apply at (SessionCommand.discard k) (w, outs) = done (queue TuneRequest.discard k w, outs)
  apply at (SessionCommand.save k) (w, outs) = done (queue TuneRequest.save k w, outs)
  apply at (SessionCommand.read regions k) (w, outs) =
      done (record w { reads = w.reads ++ ((regions, k) ∷ []) }, outs)
  apply at (SessionCommand.set_cell_watches cells) s = done s
  apply at SessionCommand.stop s = done s

  abbrev pub stopped : State → Bool × State
  stopped (w, outs) = (true, (record w { stopping = true }, outs))

  -- The commands that wait, and whether nobody can send more behind them. One instant stands for those
  -- that are taken on the way.
  unfoldable pub drain_commands : ℕ → List SessionCommand → Bool → State → Outcome (Bool × State)
  unfolding apply
  drain_commands at [] hung_up s = done (if hung_up then stopped s else (false, s))
  drain_commands at (command ∷ commands) hung_up s =
      if is_stop command
      then done (stopped s)
      else (apply at command s >>= λ s'. drain_commands at commands hung_up s')
