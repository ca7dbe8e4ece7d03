-- ===== src/Probe/Turn.antt =====
-- crates/studio-core/src/session.rs: the turns of a probe session's loop, and the session around them.
use tuning_tools.Base.{
  ℕ, zero, suc, ◌+◌, ◌-◌, ◌%◌, ◌^◌, min, max, Bool, false, ◌&&◌, ◌||◌, not, Option, none, some,
  List, ◌∷◌, map, length, ltb, ◌==◌, if◌then◌else◌,
}
use tuning_tools.Carrier
use tuning_tools.Carrier.{CarrierError}
use tuning_tools.Message.{Message}
use tuning_tools.Batch
use tuning_tools.ReadPlan
use tuning_tools.ReadPlan.{SampleOutcome}
use tuning_tools.Stats
use tuning_tools.Stats.{LinkStats, record_tick}
use tuning_tools.Ticker
use tuning_tools.Ticker.{Ticker}
use tuning_tools.Rtt.Channels
use tuning_tools.Rtt.Channels.{RttReader, reader_read}
use tuning_tools.RttTuning.{RttTuning, Polled}
use tuning_tools.RttTuning.Calls.{attach_tuning, poll}
use tuning_tools.Session.{SessionEvent, SessionCommand, StreamState, CoreState}
use tuning_tools.Core.{core_state}
use tuning_tools.Probe.{
  Worker, Output, Setting, Outcome, done, panics, runs_on, ◌>>=◌, State, skipped_of, flush_frame,
  link_lost_after, reopen_after, log_len,
}
use tuning_tools.Probe.Requests.{Open, note, tell_all, report_tune}

-- Why the worker came out of target memory.
pub data Exit : Type 0 where
  stop reopen : Exit
  lost : Message → Exit

-- The instants that a turn of the loop reads, the commands that wait then, whether nobody can send more,
-- and what the target did to its memory since the last turn.
pub record Input (M : Type 0) : Type 0 where
  pub applied : ℕ
  pub requested : ℕ
  pub now : ℕ
  pub started : ℕ
  pub read_us : ℕ
  pub commands : List SessionCommand
  pub hung_up : Bool
  pub target : M → M

-- The state of the log's reader.
abbrev pub stream_state : Option RttReader → StreamState
stream_state none = StreamState.absent
stream_state (some r) = elim r.state [
  | Channels.searching last ↦ StreamState.searching
  | Channels.attached c ↦ StreamState.attached c.name c.blocking
]

abbrev pub known_state : Carrier.Result CoreState → CoreState
known_state (Carrier.ok s) = s
known_state (Carrier.err e) = CoreState.unknown

-- The first instant of failing.
abbrev pub since : Option ℕ → ℕ → ℕ
since none now = now
since (some at) now = at

abbrev pub carrier_error : Option CarrierError → Option Message
carrier_error none = none
carrier_error (some e) = some (Message.carrier e)

abbrev pub known_error : Option Message → Message
known_error none = Message.unknown_error
known_error (some e) = e

-- Whether reads have failed since so long before, in this opening of the memory.
abbrev pub is_stuck : Option ℕ → ℕ → ℕ → Bool
is_stuck none opened now = false
is_stuck (some at) opened now = not (ltb (now - max at opened) reopen_after)

-- The earliest deadline of the tickers that run.
abbrev pub with_ticker : Option Ticker → ℕ → ℕ
with_ticker none next = next
with_ticker (some t) next = min next (Ticker.deadline t)

unfoldable pub wake_at : Worker → ℕ
wake_at w =
    let next =
      min (min (Ticker.deadline w.log_tick) (Ticker.deadline w.frame_tick))
        (Ticker.deadline w.stats_tick) in
    with_ticker w.sampler
      (elim w.tuner [ none ↦ next | some t ↦ min next (Ticker.deadline w.tune_tick) ])

module _ (env : Setting) where
  open env use {memory, ops, float_bits, lossy, rounds}

  -- Whether every read of the tick failed; the failing is lost after two seconds.
  unfoldable pub note_outcome : ℕ → SampleOutcome → Worker → Option Message × Worker
  note_outcome now o w =
      let w' = note (carrier_error o.first_error) w in
      let at = since w'.failing_since now in
      if o.regions_ok == 0 && ltb 0 o.regions_failed
      then (
        if ltb (now - at) link_lost_after
            then none
            else some (Message.reads_failed 2 (known_error w'.last_error)),
        record w' { failing_since = some at },
      )
      else (none, record w' { failing_since = none })

  -- A row of the frame, or a panic where it has not a value for each id.
  unfoldable pub push_row : ℕ → List ℕ → Worker → Outcome Worker
  push_row time row w = elim (Batch.push w.frame time row) [
    | none ↦ panics
    | some frame ↦ done (record w { frame = frame })
  ]

  -- A tick of the sampler, with a message where the link is to be taken as lost.
  unfoldable pub sample :
      ℕ → ℕ → ℕ → Worker → memory.Memory → Outcome (Option Message × (Worker × memory.Memory))
  unfolding note_outcome push_row
  sample now started read_us w m =
      let ((row, o), m') = ReadPlan.sample memory w.plan m in
      push_row (ops.seconds (started - w.start)) (map float_bits row)
        (record w { stats = record_tick w.stats now read_us o.bytes o.regions_failed })
      >>= λ w'. let (failure, w'') = note_outcome now o w' in done (failure, (w'', m'))

  abbrev pub note_log : ℕ → ℕ → List ℕ → State → State
  note_log now start bytes (w, outs) = (
    record w { stats = record w.stats { log_bytes = (w.stats.log_bytes + length bytes) % 2 ^ 64 } },
    Output.log_bytes (ops.seconds (now - start)) bytes ∷ outs,
  )

  -- What a read of the log leads to; `next` goes on behind a full one.
  abbrev pub pumped :
      ℕ
      → (RttReader → Open env → Open env)
      → State
      → Carrier.Result (List ℕ) × (RttReader × memory.Memory)
      → Open env
  pumped now next (w, outs) (Carrier.err e, (r, m)) =
      ((note (some (Message.carrier e)) (record w { rtt = some r }), outs), m)
  pumped now next (w, outs) (Carrier.ok bytes, (r, m)) =
      let kept = record w { rtt = some r } in
      if length bytes == 0
      then ((kept, outs), m)
      else if ltb (length bytes) log_len
      then (note_log now w.start bytes (kept, outs), m)
      else next r (note_log now w.start bytes (kept, outs), m)

  -- The log that is buffered, in at most so many reads.
  unfoldable pub pump : ℕ → ℕ → RttReader → Open env → Open env
  pump now zero r s = s
  pump now (suc n) r (s, m) =
      pumped now (λ r' s'. pump now n r' s') s (reader_read memory lossy now log_len (r, m))

  abbrev pub pump_reader : ℕ → Option RttReader → Open env → Open env
  pump_reader now none s = s
  pump_reader now (some r) s = pump now 8 r s

  unfoldable pub pump_log : ℕ → Open env → Open env
  unfolding pump
  pump_log now ((w, outs), m) =
      if w.decodes then pump_reader now w.rtt ((w, outs), m) else ((w, outs), m)

  -- What a poll of the control channel leads to: whether a request finished.
  abbrev pub polled :
      Worker
      → List Output
      → Option (Polled × (RttTuning × memory.Memory))
      → Outcome (Bool × Open env)
  polled w outs none = runs_on
  polled w outs (some (out, (f, m))) = done (
    out.finished,
    ((note out.error (record w { framed = some f }), tell_all out.answers outs), m),
  )

  unfoldable pub poll_framed : ℕ → Option RttTuning → Open env → Outcome (Bool × Open env)
  poll_framed now none s = done (false, s)
  poll_framed now (some f) ((w, outs), m) =
      let (found, s) = attach_tuning memory lossy now (f, m) in
      polled w outs (poll memory lossy rounds now s)

  unfoldable pub log_turn : ℕ → Open env → Outcome (Bool × Open env)
  unfolding pump_log poll_framed
  log_turn now ((w, outs), m) =
      let (due, tick) = Ticker.poll w.log_tick now in
      let w' = record w { log_tick = tick } in
      if due
      then (let s = pump_log now ((w', outs), m) in poll_framed now s.0.0.framed s)
      else done (false, ((w', outs), m))

  unfoldable pub frame_turn : ℕ → State → Outcome State
  frame_turn now (w, outs) =
      let (due, tick) = Ticker.poll w.frame_tick now in
      let w' = record w { frame_tick = tick } in
      if due then flush_frame env (w', outs) else done (w', outs)

  abbrev pub rate_of : ℕ → Option Ticker → ℕ
  rate_of rate_hz none = ops.of_u64 0
  rate_of rate_hz (some t) = rate_hz

  unfoldable pub report_stats : Open env → Open env
  report_stats ((w, outs), m) =
      let (core, m') = core_state memory m in
      let skipped = (w.skipped_before + skipped_of w.sampler) % 2 ^ 64 in
      let target_hz = rate_of w.rate_hz w.sampler in
      let stats =
        Stats.snapshot ops w.stats target_hz skipped (length w.plan.regions)
          (length w.plan.items) in
      (
        (
          record w { last_error = none },
          Output.event
                (SessionEvent.stats stats (known_state core) (stream_state w.rtt) w.last_error)
              ∷ outs,
        ),
        m',
      )

  unfoldable pub stats_turn : ℕ → Open env → Open env
  unfolding report_stats
  stats_turn now ((w, outs), m) =
      let (due, tick) = Ticker.poll w.stats_tick now in
      let w' = record w { stats_tick = tick } in
      if due then report_stats ((w', outs), m) else ((w', outs), m)

  -- A write is reported at once.
  unfoldable pub tune_turn : ℕ → Bool → Open env → Open env
  tune_turn now wrote ((w, outs), m) =
      let (due, tick) = Ticker.poll w.tune_tick now in
      let w' = record w { tune_tick = tick } in
      if due || wrote then report_tune env ((w', outs), m) else ((w', outs), m)
