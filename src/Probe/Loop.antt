-- ===== src/Probe/Loop.antt =====
-- crates/studio-core/src/session.rs: the loop of a probe session with its memory open, and the session
-- around it, which opens the memory again where it can.
use tuning_tools.Base.{
  ℕ, ◌-◌, Bool, true, false, ◌||◌, Option, none, some, List, [], ◌∷◌, ltb, if◌then◌else◌,
}
use tuning_tools.Carrier
use tuning_tools.Carrier.{CarrierError}
use tuning_tools.Message.{Message, err}
use tuning_tools.Ticker
use tuning_tools.Ticker.{Ticker}
use tuning_tools.RttTuning.{RttTuning}
use tuning_tools.RttTuning.Calls.{close}
use tuning_tools.Session.{SessionEvent, SessionCommand, LinkState}
use tuning_tools.Probe.{
  Worker, TuneRequest, Output, Setting, Outcome, done, ◌>>=◌, State, put, flush_frame,
  drain_commands, new_worker, link_lost_after,
}
use tuning_tools.Probe.Requests.{Open, tell_all, serve_reads, serve_requests}
use tuning_tools.Probe.Turn.{
  Exit, Input, since, is_stuck, sample, log_turn, frame_turn, stats_turn, tune_turn,
}

-- While the memory does not open, each wait has the commands that came in.
pub record Wait : Type 0 where
  pub at : ℕ
  pub commands : List SessionCommand
  pub hung_up : Bool

-- A try to open the memory: the memory and the turns on it where it opens, how the try ends, the instant
-- that is read then, and the waits behind a failure.
pub record Opening (M : Type 0) : Type 0 where
  pub opened : ℕ
  pub memory : Option (M × List (Input M))
  pub result : Carrier.Result (Unit {0})
  pub now : ℕ
  pub waits : List Wait

abbrev pub refuse_requests : List (TuneRequest × ℕ) → List Output → List Output
refuse_requests [] outs = outs
refuse_requests ((request, k) ∷ requests) outs =
    refuse_requests requests (Output.reply k (err Message.memory_not_open) ∷ outs)

abbrev pub refuse_reads : List (List (ℕ × ℕ) × ℕ) → List Output → List Output
refuse_reads [] outs = outs
refuse_reads ((regions, k) ∷ reads) outs =
    refuse_reads reads (Output.read_reply k (err Message.memory_not_open) ∷ outs)

-- Whoever asks while the memory is not open is refused.
unfoldable pub refuse_all : State → State
refuse_all (w, outs) =
    (record w { requests = []; reads = [] }, refuse_reads w.reads (refuse_requests w.requests outs))

module _ (env : Setting) where
  open env use {memory, lossy}

  -- What a turn comes to: an exit, or another turn.
  abbrev pub Turned : Type 0
  Turned = Option Exit × Open env

  unfoldable pub close_framed :
      Option memory.Memory → Option RttTuning → State → State × Option memory.Memory
  close_framed m none s = (s, m)
  close_framed m (some f) (w, outs) =
      let (answers, (f', m')) = close memory lossy m f in
      ((record w { framed = some f' }, tell_all answers outs), m')

  abbrev pub or_memory : memory.Memory → Option memory.Memory → memory.Memory
  or_memory m none = m
  or_memory m (some m') = m'

  -- The tickers behind a tick of the sampler.
  unfoldable pub tick_all : ℕ → Bool → Open env → Outcome Turned
  unfolding log_turn frame_turn stats_turn tune_turn
  tick_all now wrote s = log_turn env now s >>= λ (finished, (s', m')).
      frame_turn env now s' >>= λ s''.
      done (none, tune_turn env now (wrote || finished) (stats_turn env now (s'', m')))

  abbrev pub sampled :
      ℕ → ℕ → Bool → List Output → Option Message × (Worker × memory.Memory) → Outcome Turned
  sampled opened now wrote outs (some message, (w, m)) =
      done (some (Exit.lost message), ((w, outs), m))
  sampled opened now wrote outs (none, (w, m)) =
      if is_stuck w.failing_since opened now
      then done (some Exit.reopen, ((w, outs), m))
      else tick_all now wrote ((w, outs), m)

  -- A turn from the sampler on.
  unfoldable pub after_requests :
      ℕ → Input memory.Memory → Bool → Option Ticker → Open env → Outcome Turned
  unfolding sample tick_all
  after_requests opened input wrote none s = tick_all input.now wrote s
  after_requests opened input wrote (some t) ((w, outs), m) =
      let (due, t') = Ticker.poll t input.now in
      let w' = record w { sampler = some t' } in
      if due
      then (sample env input.now input.started input.read_us w' m >>= λ r.
          sampled opened input.now wrote outs r)
      else tick_all input.now wrote ((w', outs), m)

  unfoldable pub after_commands :
      ℕ → Input memory.Memory → memory.Memory → Bool × State → Outcome Turned
  unfolding after_requests close_framed serve_requests serve_reads
  after_commands opened input m (true, (w, outs)) =
      let (s, m') = close_framed (some m) w.framed (w, outs) in
      done (some Exit.stop, (s, or_memory m m'))
  after_commands opened input m (false, s) =
      let (wrote, s') = serve_requests env input.requested (s, m) in
      serve_reads env s' >>= λ s''. after_requests opened input wrote s''.0.0.sampler s''

  -- One turn of the loop of `serve`, behind its sleep.
  unfoldable pub turn : ℕ → Input memory.Memory → Open env → Outcome Turned
  unfolding after_commands drain_commands
  turn opened input (s, m) =
      drain_commands env input.applied input.commands input.hung_up s >>= λ r.
      after_commands opened input (input.target m) r

  abbrev pub next_turn : (Open env → Outcome Turned) → Turned → Outcome Turned
  next_turn next (none, s) = next s
  next_turn next (some exit, s) = done (some exit, s)

  -- The session loop over the turns; no exit where they end first.
  unfoldable pub serve : ℕ → List (Input memory.Memory) → Open env → Outcome Turned
  unfolding turn
  serve opened [] s = done (none, s)
  serve opened (input ∷ inputs) s = turn opened input s >>= next_turn (λ s'. serve opened inputs s')

  -- Waiting for the memory, still answering; it ends early where the session is to stop.
  abbrev pub waited : (State → Outcome State) → Bool × State → Outcome State
  waited next (true, s) = done s
  waited next (false, s) = next (refuse_all s)

  unfoldable pub wait_all : List Wait → State → Outcome State
  unfolding drain_commands refuse_all
  wait_all [] s = done s
  wait_all (x ∷ waits) s =
      drain_commands env x.at x.commands x.hung_up s >>= waited (λ s'. wait_all waits s')

  -- What an opening comes to: the failure or none that ends the session, another try, or no end yet.
  pub data Next : Type 0 where
    ends : Option Message → Next
    again running : Next

  abbrev pub after_wait : State → Next × State
  after_wait (w, outs) = (if w.stopping then ends none else again, (w, outs))

  unfoldable pub on_failure : ℕ → CarrierError → List Wait → State → Outcome (Next × State)
  unfolding wait_all
  on_failure now e waits (w, outs) =
      let at = since w.failing_since now in
      let w' = record w { failing_since = some at } in
      if ltb (now - at) link_lost_after
      then (wait_all waits (record w' { last_error = some (Message.carrier e) }, outs) >>= λ s.
          done (after_wait s))
      else done (ends (some (Message.carrier e)), (w', outs))

  abbrev pub after_open :
      Opening memory.Memory → Carrier.Result (Unit {0}) → Turned → Outcome (Next × State)
  after_open o r (some Exit.stop, (s, m)) = done (ends none, s)
  after_open o r (some (Exit.lost message), (s, m)) = done (ends (some message), s)
  after_open o (Carrier.ok u) (some Exit.reopen, (s, m)) = done (again, s)
  after_open o (Carrier.err e) (some Exit.reopen, (s, m)) = on_failure o.now e o.waits s
  after_open o r (none, (s, m)) = done (running, s)

  abbrev pub not_opened :
      Opening memory.Memory → Carrier.Result (Unit {0}) → State → Outcome (Next × State)
  not_opened o (Carrier.ok u) s = done (again, s)
  not_opened o (Carrier.err e) s = on_failure o.now e o.waits s

  abbrev pub open_with :
      Opening memory.Memory
      → Option (memory.Memory × List (Input memory.Memory))
      → State
      → Outcome (Next × State)
  open_with o none s = not_opened o o.result s
  open_with o (some (m, inputs)) s = serve o.opened inputs (s, m) >>= after_open o o.result

  unfoldable pub open_once : Opening memory.Memory → State → Outcome (Next × State)
  unfolding serve on_failure
  open_once o s = open_with o o.memory s

  abbrev pub final_state : Option Message → LinkState
  final_state none = LinkState.disconnected
  final_state (some e) = LinkState.failed

  -- The end of a session: whoever waits for the control channel is answered, and the frame is flushed.
  unfoldable pub finish : Option Message → State → Outcome State
  unfolding close_framed
  finish failure (w, outs) = flush_frame env (close_framed none w.framed (w, outs)).0 >>= λ s.
      done (put (Output.event (SessionEvent.status (final_state failure) failure)) s)

  -- Whether the session ended, and its state.
  abbrev pub go_on : (State → Outcome (Bool × State)) → Next × State → Outcome (Bool × State)
  go_on next (ends failure, s) = finish failure s >>= λ s'. done (true, s')
  go_on next (again, s) = next s
  go_on next (running, s) = done (false, s)

  unfoldable pub open_all : List (Opening memory.Memory) → State → Outcome (Bool × State)
  unfolding open_once finish
  open_all [] s = done (false, s)
  open_all (o ∷ openings) s = open_once o s >>= go_on (λ s'. open_all openings s')

  -- `Worker::run`.
  unfoldable pub run : List (Opening memory.Memory) → State → Outcome (Bool × State)
  unfolding open_all
  run openings s =
      open_all openings (put (Output.event (SessionEvent.status LinkState.connected none)) s)

  -- `Session::spawn`'s thread: `connected` is the memory's openings, where the link connects.
  unfoldable pub session :
      ℕ
      → ℕ
      → ℕ
      → Bool
      → Option ℕ
      → Carrier.Result (List (Opening memory.Memory))
      → Outcome (Bool × List Output)
  unfolding run
  session start rate_hz token decodes address connected = elim connected [
    | Carrier.err e ↦ done (
      true,
      Output.event (SessionEvent.status LinkState.failed (some (Message.carrier e)))
          ∷ Output.event (SessionEvent.status LinkState.connecting none)
          ∷ [],
    )
    | Carrier.ok openings ↦ new_worker env start rate_hz token decodes address >>= λ w.
        run openings (w, Output.event (SessionEvent.status LinkState.connecting none) ∷ [])
        >>= λ (ended, (w', outs)). done (ended, outs)
  ]
