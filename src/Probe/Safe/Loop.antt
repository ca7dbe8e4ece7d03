-- ===== src/Probe/Safe/Loop.antt =====
-- crates/studio-core/src/session.rs: the panics that a whole session does not meet.
use tuning_tools.Base.{
  All, ◌≡◌, ℕ, ◌-◌, ◌≢◌, arith, refl, Bool, true, false, ◌||◌, Option, none, some, List, [], ◌∷◌,
  ltb,
}
use tuning_tools.Carrier
use tuning_tools.Carrier.{CarrierError}
use tuning_tools.Message.{Message}
use tuning_tools.Batch.Builder.{HoldsRows}
use tuning_tools.Ticker
use tuning_tools.Ticker.{Ticker}
use tuning_tools.RttTuning.{RttTuning}
use tuning_tools.Probe.{
  Worker, Output, Setting, Outcome, done, panics, runs_on, State, flush_frame, drain_commands,
  new_worker, link_lost_after,
}
use tuning_tools.Probe.Requests.{Open, serve_reads, serve_requests}
use tuning_tools.Probe.Turn.{Exit, Input, since, is_stuck, sample, log_turn, frame_turn}
use tuning_tools.Probe.Loop.{
  Wait, Opening, Turned, Next, refuse_all, close_framed, tick_all, sampled, after_requests,
  after_commands, turn, next_turn, serve, waited, wait_all, on_failure, after_open, not_opened,
  open_with, open_once, finish, go_on, open_all, run, session,
}
use tuning_tools.Probe.Safe.{
  CommandFits, Safe, Safe-bind, if_Safe, Rows, InRange, IsSound, Sound, flush_frame-Safe,
  drain_commands-Safe,
}
use tuning_tools.Probe.Safe.Turn.{
  OpenSound, serve_requests-Sound, serve_reads-Safe, log_turn-Safe, frame_turn-Safe,
  stats_turn-Sound, tune_turn-Sound, sample-Safe,
}

module _ (env : Setting) where
  open env use {memory, fl, lossy, clamp}

  -- No command asks for a read that cannot have a buffer.
  abbrev pub InputFits : Input memory.Memory → Type 0
  InputFits input = All CommandFits input.commands

  abbrev pub WaitFits : Wait → Type 0
  WaitFits x = All CommandFits x.commands

  abbrev pub OpenedFits : Option (memory.Memory × List (Input memory.Memory)) → Type 0
  OpenedFits none = Unit
  OpenedFits (some (m, inputs)) = All InputFits inputs

  abbrev pub OpeningFits : Opening memory.Memory → Type 0
  OpeningFits o = OpenedFits o.memory × All WaitFits o.waits

  abbrev pub ConnectedFits : Carrier.Result (List (Opening memory.Memory)) → Type 0
  ConnectedFits (Carrier.err e) = Unit
  ConnectedFits (Carrier.ok openings) = All OpeningFits openings

  abbrev TurnedSound : Turned env → Type 0
  TurnedSound r = OpenSound env r.1

  tick_all-Safe :
      (now : ℕ) (wrote : Bool) (s : Open env)
      → OpenSound env s
      → Safe TurnedSound (tick_all env now wrote s)
  unfolding tick_all
  tick_all-Safe now wrote s h =
      Safe-bind (λ r. OpenSound env r.1) TurnedSound (log_turn env now s) _
        (log_turn-Safe env now s h)
        (λ r h'.
          Safe-bind (Sound env) TurnedSound (frame_turn env now r.1.0) _
            (frame_turn-Safe env now r.1.0 h')
            (λ s'' h''.
              tune_turn-Sound env now (wrote || r.0) _ (stats_turn-Sound env now (s'', r.1.1) h'')))

  sampled-Safe :
      (opened now : ℕ) (wrote : Bool) (outs : List Output)
      (r : Option Message × (Worker × memory.Memory))
      → IsSound env r.1.0
      → Safe TurnedSound (sampled env opened now wrote outs r)
  sampled-Safe opened now wrote outs (some message, (w, m)) h = h
  sampled-Safe opened now wrote outs (none, (w, m)) h =
      if_Safe TurnedSound (is_stuck w.failing_since opened now) _ _ h
        (tick_all-Safe now wrote ((w, outs), m) h)

  after_requests-Safe :
      (opened : ℕ) (input : Input memory.Memory) (wrote : Bool) (t : Option Ticker) (s : Open env)
      → OpenSound env s
      → Safe TurnedSound (after_requests env opened input wrote t s)
  unfolding after_requests
  after_requests-Safe opened input wrote none s h = tick_all-Safe input.now wrote s h
  after_requests-Safe opened input wrote (some t) ((w, outs), m) h =
      let w' : Worker = record w { sampler = some (Ticker.poll t input.now).1 } in
      if_Safe TurnedSound (Ticker.poll t input.now).0 _ _
        (Safe-bind (λ r. IsSound env r.1.0) TurnedSound
          (sample env input.now input.started input.read_us w' m) _
          (sample-Safe env input.now input.started input.read_us w' m h)
          (λ r h'. sampled-Safe opened input.now wrote outs r h'))
        (tick_all-Safe input.now wrote ((w', outs), m) h)

  close_framed-Sound :
      (m : Option memory.Memory) (f : Option RttTuning) (s : State)
      → Sound env s
      → Sound env (close_framed env m f s).0
  unfolding close_framed
  close_framed-Sound m none s h = h
  close_framed-Sound m (some f) (w, outs) h = h

  after_commands-Safe :
      (opened : ℕ) (input : Input memory.Memory) (m : memory.Memory) (r : Bool × State)
      → Sound env r.1
      → Safe TurnedSound (after_commands env opened input m r)
  unfolding after_commands
  after_commands-Safe opened input m (true, (w, outs)) h =
      close_framed-Sound (some m) w.framed (w, outs) h
  after_commands-Safe opened input m (false, s) h =
      let (wrote, s') = serve_requests env input.requested (s, m) in
      Safe-bind (OpenSound env) TurnedSound (serve_reads env s') _
        (serve_reads-Safe env s' (serve_requests-Sound env input.requested (s, m) h))
        (λ s'' h'. after_requests-Safe opened input wrote s''.0.0.sampler s'' h')

  turn-Safe :
      (opened : ℕ) (input : Input memory.Memory) (s : Open env)
      → InputFits input
      → OpenSound env s
      → Safe TurnedSound (turn env opened input s)
  unfolding turn
  turn-Safe opened input (s, m) fits h =
      Safe-bind (λ r. Sound env r.1) TurnedSound
        (drain_commands env input.applied input.commands input.hung_up s) _
        (drain_commands-Safe env input.applied input.commands input.hung_up s fits h)
        (λ r h'. after_commands-Safe opened input (input.target m) r h')

  serve-Safe :
      (opened : ℕ) (inputs : List (Input memory.Memory)) (s : Open env)
      → All InputFits inputs
      → OpenSound env s
      → Safe TurnedSound (serve env opened inputs s)
  unfolding serve
  serve-Safe opened [] s fits h = h
  serve-Safe opened (input ∷ inputs) s fits h =
      Safe-bind TurnedSound TurnedSound (turn env opened input s) _
        (turn-Safe opened input s fits.0 h)
        (λ r h'. go_next r h' (λ s' h''. serve-Safe opened inputs s' fits.1 h''))
    where
      go_next :
          (r : Turned env)
          → TurnedSound r
          → ((s' : Open env) → OpenSound env s' → Safe TurnedSound (serve env opened inputs s'))
          → Safe TurnedSound (next_turn env (λ s'. serve env opened inputs s') r)
      go_next (none, s') h k = k s' h
      go_next (some exit, s') h k = h

  wait_all-Safe :
      (waits : List Wait) (s : State)
      → All WaitFits waits
      → Sound env s
      → Safe (Sound env) (wait_all env waits s)
  unfolding wait_all refuse_all
  wait_all-Safe [] s fits h = h
  wait_all-Safe (x ∷ waits) s fits h =
      Safe-bind (λ r. Sound env r.1) (Sound env) (drain_commands env x.at x.commands x.hung_up s) _
        (drain_commands-Safe env x.at x.commands x.hung_up s fits.0 h)
        (λ r h'. go_next r h' (λ s' h''. wait_all-Safe waits s' fits.1 h''))
    where
      go_next :
          (r : Bool × State)
          → Sound env r.1
          → ((s' : State) → Sound env s' → Safe (Sound env) (wait_all env waits s'))
          → Safe (Sound env) (waited env (λ s'. wait_all env waits s') r)
      go_next (true, s') h k = h
      go_next (false, s') (rows, (range, reads)) k = k _ (rows, (range, tt))

  abbrev NextSound : Next env × State → Type 0
  NextSound r = Sound env r.1

  on_failure-Safe :
      (now : ℕ) (e : CarrierError) (waits : List Wait) (s : State)
      → All WaitFits waits
      → Sound env s
      → Safe NextSound (on_failure env now e waits s)
  unfolding on_failure
  on_failure-Safe now e waits (w, outs) fits h =
      if_Safe NextSound (ltb (now - since w.failing_since now) link_lost_after) _ _
        (Safe-bind (Sound env) NextSound (wait_all env waits _) _ (wait_all-Safe waits _ fits h)
          (λ s h'. h'))
        h

  after_open-Safe :
      (o : Opening memory.Memory) (r : Carrier.Result (Unit {0})) (x : Turned env)
      → All WaitFits o.waits
      → TurnedSound x
      → Safe NextSound (after_open env o r x)
  after_open-Safe o r (some Exit.stop, (s, m)) fits h = h
  after_open-Safe o r (some (Exit.lost message), (s, m)) fits h = h
  after_open-Safe o (Carrier.ok u) (some Exit.reopen, (s, m)) fits h = h
  after_open-Safe o (Carrier.err e) (some Exit.reopen, (s, m)) fits h =
      on_failure-Safe o.now e o.waits s fits h
  after_open-Safe o r (none, (s, m)) fits h = h

  open_with-Safe :
      (o : Opening memory.Memory) (opened : Option (memory.Memory × List (Input memory.Memory)))
      (s : State)
      → OpenedFits opened
      → All WaitFits o.waits
      → Sound env s
      → Safe NextSound (open_with env o opened s)
  open_with-Safe o none s opens fits h = not_opened-Safe o.result
    where
      not_opened-Safe : (r : Carrier.Result (Unit {0})) → Safe NextSound (not_opened env o r s)
      not_opened-Safe (Carrier.ok u) = h
      not_opened-Safe (Carrier.err e) = on_failure-Safe o.now e o.waits s fits h
  open_with-Safe o (some (m, inputs)) s opens fits h =
      Safe-bind TurnedSound NextSound (serve env o.opened inputs (s, m)) _
        (serve-Safe o.opened inputs (s, m) opens h) (λ x h'. after_open-Safe o o.result x fits h')

  finish-Safe :
      (failure : Option Message) (s : State) → Sound env s → Safe (Sound env) (finish env failure s)
  unfolding finish
  finish-Safe failure (w, outs) h =
      Safe-bind (Sound env) (Sound env) (flush_frame env _) _
        (flush_frame-Safe env _ (close_framed-Sound none w.framed (w, outs) h)) (λ s h'. h')

  abbrev RunSound : Bool × State → Type 0
  RunSound r = Sound env r.1

  go_on-Safe :
      (next : State → Outcome (Bool × State)) (r : Next env × State)
      → NextSound r
      → ((s : State) → Sound env s → Safe RunSound (next s))
      → Safe RunSound (go_on env next r)
  go_on-Safe next (Next.ends failure, s) h k =
      Safe-bind (Sound env) RunSound (finish env failure s) _ (finish-Safe failure s h)
        (λ s' h'. h')
  go_on-Safe next (Next.again, s) h k = k s h
  go_on-Safe next (Next.running, s) h k = h

  open_all-Safe :
      (openings : List (Opening memory.Memory)) (s : State)
      → All OpeningFits openings
      → Sound env s
      → Safe RunSound (open_all env openings s)
  unfolding open_all open_once
  open_all-Safe [] s fits h = h
  open_all-Safe (o ∷ openings) s fits h =
      Safe-bind NextSound RunSound (open_once env o s) _
        (open_with-Safe o o.memory s fits.0.0 fits.0.1 h)
        (λ r h'.
          go_on-Safe (λ s'. open_all env openings s') r h'
            (λ s' h''. open_all-Safe openings s' fits.1 h''))

  new_worker-Safe :
      (start rate_hz token : ℕ) (decodes : Bool) (address : Option ℕ)
      → fl.is_nan rate_hz ≡ false
      → Safe (IsSound env) (new_worker env start rate_hz token decodes address)
  unfolding new_worker Ticker.new Rows InRange HoldsRows
  new_worker-Safe start rate_hz token decodes address number =
      ((([], tt, refl, refl), refl), ((rate_hz, number, refl), tt))

  Safe-panics : {A : Type 0} (P : A → Type 0) (r : Outcome A) → Safe P r → r ≢ panics
  Safe-panics P (done a) h e = ground arith
  Safe-panics P panics h e = h
  Safe-panics P runs_on h e = ground arith

  -- A probe session that starts with a rate that is a number, and is asked for no read of 2 ^ 63 bytes or
  -- more, meets none of these panics from its start to its end, whatever the target's memory holds and does,
  -- however its accesses fail, and whichever frames the sink takes: each row has a value for each column of
  -- the frame, each batch can be encoded, each rate has a period and each period is positive, and each
  -- buffer for a read has a length that can be allocated.
  pub session-panics :
      (start rate_hz token : ℕ) (decodes : Bool) (address : Option ℕ)
      (connected : Carrier.Result (List (Opening memory.Memory)))
      → fl.is_nan rate_hz ≡ false
      → ConnectedFits connected
      → session env start rate_hz token decodes address connected ≢ panics
  unfolding session run
  session-panics start rate_hz token decodes address (Carrier.err e) number fits p = ground arith
  session-panics start rate_hz token decodes address (Carrier.ok openings) number fits p =
      Safe-panics (λ r. Unit {0}) _
        (Safe-bind (IsSound env) (λ r. Unit {0})
          (new_worker env start rate_hz token decodes address) _
          (new_worker-Safe start rate_hz token decodes address number)
          (λ w h.
            Safe-bind RunSound (λ r. Unit {0}) (run env openings _) _
              (open_all-Safe openings _ fits h) (λ r h'. tt)))
        p
