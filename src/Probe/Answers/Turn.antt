-- ===== src/Probe/Answers/Turn.antt =====
-- crates/studio-core/src/session.rs: the turns of a probe session lose no request and answer none twice.
use tuning_tools.Base.{
  ℕ, ◌+◌, ◌*◌, ◌^◌, ◌≡◌, ◌<◌, refl, sym, ap, subst, arith, Bool, true, false, Option, none, some,
  List, [], ◌∷◌, length, length-append, if◌then◌else◌, Bool-cases, inl, inr,
}
use tuning_tools.Ticker
use tuning_tools.Ticker.{Ticker}
use tuning_tools.RttTuning.{RttTuning, Polled}
use tuning_tools.RttTuning.Calls.{attach_tuning, poll}
use tuning_tools.RttTuning.Answers.{owes, owed}
use tuning_tools.RttTuning.Served.{Polls, poll-Polls}
use tuning_tools.Session.{SessionCommand}
use tuning_tools.Probe.{
  Worker, TuneRequest, Output, Setting, Outcome, done, panics, runs_on, State, queue, apply,
  is_stop, drain_commands,
}
use tuning_tools.Probe.Requests.{Open, note, tell_all, serve_queued, serve_requests, attach_framed}
use tuning_tools.Probe.Turn.{polled, pump_log, poll_framed, log_turn}
use tuning_tools.Probe.Still.{
  Given, Given-bind, if_Given, Still, note_Same, set_watches-Still, set_rate-Still, pump_log-Still,
}
use tuning_tools.Probe.Answers.{
  queued, queued-append, asks, owed_by, seq_of, SteadyFor, account, spent, Counts, Counts-trans,
  Same-Counts, Still-Counts, replied-tell_all, serve_all-Counts, Counts-more,
}

-- The requests of a channel that are taken, up to the first order to stop.
unfoldable pub asked : ℕ → List SessionCommand → ℕ
asked k [] = 0
asked k (command ∷ commands) =
    let rest = asked k commands in if is_stop command then 0 else asks k command + rest

module _ (env : Setting) where
  open env use {memory, lossy, rounds}

  attach_framed-Steady :
      (now : ℕ) (f : Option RttTuning) (m : memory.Memory)
      → SteadyFor f
      → let f' = (attach_framed env now f m).1.0 in
        SteadyFor f' × (seq_of f' ≡ seq_of f) × ((k : ℕ) → owed_by k f' ≡ owed_by k f)
  unfolding attach_framed attach_tuning
  attach_framed-Steady now none m h = (h, refl, λ k. refl)
  attach_framed-Steady now (some f) m h = (h, refl, λ k. refl)

  serve_queued-Counts :
      (now : ℕ) (requests : List (TuneRequest × ℕ)) (s : Open env)
      → s.0.0.requests ≡ requests
      → SteadyFor s.0.0.framed
      → spent s.0 < 2 ^ 16
      → Counts 0 (λ j. 0) s.0 (serve_queued env now requests s).1.0
  unfolding serve_queued account queued
  serve_queued-Counts now [] s e h few = (h, omega arith, λ j. omega arith)
  serve_queued-Counts now (r ∷ requests) ((w, outs), m) e h few =
      let (served, (framed, m')) = attach_framed env now w.framed m in
      let (steady, seq, owes) = attach_framed-Steady now w.framed m h in
      let taken : State = (record w { framed = framed; requests = [] }, outs) in
      let len = ap length e in
      let (h', p, q) =
        serve_all-Counts env served now (r ∷ requests) (taken, m') steady
          (omega (arith, seq, len)) in
      (h', omega (arith, p, seq, len), λ j. omega (arith, q j, owes j, ap (queued j) e))

  pub serve_requests-Counts :
      (now : ℕ) (s : Open env)
      → SteadyFor s.0.0.framed
      → spent s.0 < 2 ^ 16
      → Counts 0 (λ j. 0) s.0 (serve_requests env now s).1.0
  unfolding serve_requests
  serve_requests-Counts now ((w, outs), m) h few =
      serve_queued-Counts now w.requests ((w, outs), m) refl h few

  queue-Counts :
      (request : TuneRequest) (k : ℕ) (s : State)
      → SteadyFor s.0.framed
      → Counts 2 (λ j. owes j (some k)) s (queue env request k s.0, s.1)
  unfolding account queued
  queue-Counts request k (w, outs) h = (
    h,
    omega (arith, length-append w.requests ((request, k) ∷ [])),
    λ j. omega (arith, queued-append j w.requests ((request, k) ∷ [])),
  )

  Still-Given :
      (n : ℕ) (s : State) (r : Outcome State)
      → SteadyFor s.0.framed
      → Given (λ s'. Still s s') r
      → Given (λ s'. Counts n (λ j. 0) s s') r
  Still-Given n s (done s') h g = Counts-more env n (λ j. 0) s s' (Still-Counts s s' g h)
  Still-Given n s panics h g = tt
  Still-Given n s runs_on h g = tt

  apply-Counts :
      (at : ℕ) (command : SessionCommand) (s : State)
      → SteadyFor s.0.framed
      → Given (λ s'. Counts 2 (λ j. asks j command) s s') (apply env at command s)
  unfolding apply account
  apply-Counts at (SessionCommand.set_watches items) s h =
      Still-Given 2 s _ h (set_watches-Still env at items s)
  apply-Counts at (SessionCommand.set_rate hz) s h =
      Still-Given 2 s _ h (set_rate-Still env at hz s)
  apply-Counts at (SessionCommand.set_catalog c) s h = (h, omega arith, λ j. omega arith)
  apply-Counts at (SessionCommand.request id v k) s h = queue-Counts _ k s h
  apply-Counts at (SessionCommand.discard k) s h = queue-Counts _ k s h
  apply-Counts at (SessionCommand.save k) s h = queue-Counts _ k s h
  apply-Counts at (SessionCommand.read regions k) s h = (h, omega arith, λ j. omega arith)
  apply-Counts at (SessionCommand.set_cell_watches cells) s h = (h, omega arith, λ j. omega arith)
  apply-Counts at SessionCommand.stop s h = (h, omega arith, λ j. omega arith)

  pub drain_commands-Counts :
      (at : ℕ) (commands : List SessionCommand) (hung_up : Bool) (s : State)
      → SteadyFor s.0.framed
      → Given
          (λ r. Counts (2 * length commands) (λ j. asked j commands) s r.1)
          (drain_commands env at commands hung_up s)
  unfolding drain_commands asked account
  drain_commands-Counts at [] true s h = (h, omega arith, λ j. omega arith)
  drain_commands-Counts at [] false s h = (h, omega arith, λ j. omega arith)
  drain_commands-Counts at (command ∷ commands) hung_up s h = elim (Bool-cases (is_stop command)) [
    | inl stop ↦ rw stop (h, omega arith, λ j. omega arith)
    | inr other ↦ rw other (
        Given-bind (λ s'. Counts 2 (λ j. asks j command) s s')
          (λ r.
            Counts (2 * length (command ∷ commands)) (λ j. asks j command + asked j commands) s r.1)
          (apply env at command s) _ (apply-Counts at command s h)
          (λ s' one.
            given_all s s' one (drain_commands env at commands hung_up s')
              (drain_commands-Counts at commands hung_up s' one.0)))
  ]
    where
      given_all :
          (s s' : State)
          → Counts 2 (λ j. asks j command) s s'
          → (r : Outcome (Bool × State))
          → Given (λ r. Counts (2 * length commands) (λ j. asked j commands) s' r.1) r
          → Given
              (λ r.
                Counts
                  (2 * length (command ∷ commands))
                  (λ j. asks j command + asked j commands)
                  s
                  r.1)
              r
      given_all s s' one (done r) g =
          Counts-trans 2 (2 * length commands) (2 * length (command ∷ commands))
            (λ j. asks j command) (λ j. asked j commands) s s' r.1 (omega arith) one g
      given_all s s' one panics g = tt
      given_all s s' one runs_on g = tt

  -- What a poll comes to, of the end `f` that was looked for.
  polled-Counts :
      (w : Worker) (outs : List Output) (f : RttTuning)
      (r : Option (Polled × (RttTuning × memory.Memory)))
      → seq_of w.framed ≡ f.seq
      → ((k : ℕ) → owed_by k w.framed ≡ owed k f.pending)
      → Polls memory lossy f r
      → Given (λ r. Counts 1 (λ j. 0) (w, outs) r.1.0) (polled env w outs r)
  unfolding account
  polled-Counts w outs f none seq owes h = tt
  polled-Counts w outs f (some (out, (f', m))) seq owes (h, p, q) =
      let w' : Worker = record w { framed = some f' } in
      let outs' = tell_all out.answers outs in
      let one : Counts 1 (λ j. 0) (w, outs) (w', outs') = (
        h,
        omega (arith, seq),
        λ j. omega (arith, replied-tell_all j out.answers outs, q j, owes j),
      ) in
      let (h', p', q') =
        Same-Counts (λ j. 0) (w', outs') (note out.error w', outs')
          (note_Same env out.error w' w' (refl, refl)) h (λ j. omega arith) in
      (h', omega (arith, one.1), λ j. omega (arith, one.2 j, q' j))

  poll_framed-Counts :
      (now : ℕ) (f : Option RttTuning) (s : Open env)
      → s.0.0.framed ≡ f
      → SteadyFor f
      → spent s.0 + 1 < 2 ^ 16
      → Given (λ r. Counts 1 (λ j. 0) s.0 r.1.0) (poll_framed env now f s)
  unfolding poll_framed attach_tuning account
  poll_framed-Counts now none s e h few = (subst SteadyFor (sym e) h, omega arith, λ j. omega arith)
  poll_framed-Counts now (some f) ((w, outs), m) e h few =
      let (found, s) = attach_tuning memory lossy now (f, m) in
      polled-Counts w outs s.0 (poll memory lossy rounds now s) (ap seq_of e)
        (λ k. ap (owed_by k) e)
        (poll-Polls memory lossy rounds now s h (omega (arith, ap seq_of e)))

  pub log_turn-Counts :
      (now : ℕ) (s : Open env)
      → SteadyFor s.0.0.framed
      → spent s.0 + 1 < 2 ^ 16
      → Given (λ r. Counts 1 (λ j. 0) s.0 r.1.0) (log_turn env now s)
  unfolding log_turn account
  log_turn-Counts now ((w, outs), m) h few =
      let w' : Worker = record w { log_tick = (Ticker.poll w.log_tick now).1 } in
      let s' = pump_log env now ((w', outs), m) in
      let still = Still-Counts (w', outs) s'.0 (pump_log-Still env now ((w', outs), m)) h in
      if_Given (λ r. Counts 1 (λ j. 0) (w, outs) r.1.0) (Ticker.poll w.log_tick now).0 _ _
        (behind (w', outs) s'.0 still _
          (poll_framed-Counts now s'.0.0.framed s' refl still.0 (omega (arith, still.1))))
        (h, omega arith, λ j. omega arith)
    where
      behind :
          (a b : State)
          → Counts 0 (λ j. 0) a b
          → (r : Outcome (Bool × Open env)) → Given (λ r. Counts 1 (λ j. 0) b r.1.0) r
          → Given (λ r. Counts 1 (λ j. 0) a r.1.0) r
      behind a b one (done r) (h', p, q) =
          (h', omega (arith, one.1), λ j. omega (arith, one.2 j, q j))
      behind a b one panics g = tt
      behind a b one runs_on g = tt
