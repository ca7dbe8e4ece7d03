-- ===== src/Probe/Answers/Loop.antt =====
-- crates/studio-core/src/session.rs: the loop of a probe session loses no request and answers none twice.
use tuning_tools.Base.{
  ℕ, ◌+◌, ◌*◌, ◌^◌, ◌≡◌, ◌≤◌, ◌<◌, refl, sym, ap, subst, arith, Bool, true, false, ◌||◌, Option,
  none, some, List, [], ◌∷◌, length,
}
use tuning_tools.Message.{Message}
use tuning_tools.Ticker
use tuning_tools.Ticker.{Ticker}
use tuning_tools.RttTuning.{Pending, RttTuning}
use tuning_tools.RttTuning.Calls.{close}
use tuning_tools.Base.Dict.Keys.{IsUnique, total}
use tuning_tools.RttTuning.Answers.{AllBelow, owed}
use tuning_tools.RttTuning.Served.{close-answered, close-seq, close-pending}
use tuning_tools.Probe.{
  Worker, Output, Setting, Outcome, done, panics, runs_on, ◌>>=◌, State, drain_commands,
}
use tuning_tools.Probe.Requests.{Open, serve_requests, serve_reads}
use tuning_tools.Probe.Turn.{Input, is_stuck, sample, log_turn, frame_turn, stats_turn, tune_turn}
use tuning_tools.Probe.Loop.{
  Turned, close_framed, tick_all, sampled, after_requests, after_commands, turn, next_turn, serve,
}
use tuning_tools.Probe.Still.{
  Given, if_Given, SameWaiting, Still, Still-trans, serve_reads-Still, tune_turn-Still,
  stats_turn-Still, frame_turn-Still, sample-Same,
}
use tuning_tools.Probe.Answers.{
  owed_by, seq_of, SteadyFor, account, spent, Counts, Same-Counts, Still-Counts, replied-tell_all,
}
use tuning_tools.Probe.Answers.Turn.{
  asked, serve_requests-Counts, drain_commands-Counts, log_turn-Counts,
}

bind-Counts :
    {A B : Type 0} (n n' all : ℕ) (f g gain : ℕ → ℕ) (a : State) (view : A → State)
    (view' : B → State) (r : Outcome A) (next : A → Outcome B)
    → n + n' ≤ all
    → ((k : ℕ) → gain k ≡ f k + g k)
    → Given (λ x. Counts n f a (view x)) r
    → ((x : A) → Counts n f a (view x) → Given (λ y. Counts n' g (view x) (view' y)) (next x))
    → Given (λ y. Counts all gain a (view' y)) (r >>= next)
bind-Counts {B = B} n n' all f g gain a view view' (done x) next few e h k = both (next x) (k x h)
  where
    both :
        (r : Outcome B)
        → Given (λ y. Counts n' g (view x) (view' y)) r
        → Given (λ y. Counts all gain a (view' y)) r
    both (done y) (h', p, q) = (h', omega (arith, h.1), λ j. omega (arith, h.2 j, q j, e j))
    both panics h' = tt
    both runs_on h' = tt
bind-Counts n n' all f g gain a view view' panics next few e h k = tt
bind-Counts n n' all f g gain a view view' runs_on next few e h k = tt

module _ (env : Setting) where
  open env use {memory, lossy}

  close_framed-Counts :
      (m : Option memory.Memory) (f : Option RttTuning) (s : State)
      → s.0.framed ≡ f
      → Counts 1 (λ k. 0) s (close_framed env m f s).0
  unfolding close_framed account total
  close_framed-Counts m none (w, outs) e =
      (subst SteadyFor (sym e) tt, omega arith, λ k. omega arith)
  close_framed-Counts m (some f) (w, outs) e =
      let (answers, (f', m')) = close memory lossy m f in
      let empty = close-pending memory lossy m f in
      (
        (subst (λ p. IsUnique p) (sym empty) tt, subst (λ p. AllBelow f'.seq p) (sym empty) tt),
        omega (arith, ap seq_of e, close-seq memory lossy m f),
        λ k. omega (
          arith,
          replied-tell_all k answers outs,
          close-answered memory lossy k m f,
          ap (owed_by k) e,
          nothing k f'.pending empty,
        ),
      )
    where
      nothing : (k : ℕ) (p : List (ℕ × Pending)) → p ≡ [] → owed k p ≡ 0
      nothing k p e = ap (owed k) e

  -- What a turn comes to, when it takes so many numbers.
  abbrev pub Turns : ℕ → (ℕ → ℕ) → State → Outcome (Turned env) → Type 0
  Turns n gain a r = Given (λ x. Counts n gain a x.1.0) r

  Still-done :
      (a : State) (r : Outcome State)
      → SteadyFor a.0.framed
      → Given (λ s. Still a s) r
      → Given (λ s. Counts 0 (λ k. 0) a s) r
  Still-done a (done s) h g = Still-Counts a s g h
  Still-done a panics h g = tt
  Still-done a runs_on h g = tt

  tick_all-Turns :
      (now : ℕ) (wrote : Bool) (s : Open env)
      → SteadyFor s.0.0.framed
      → spent s.0 + 1 < 2 ^ 16
      → Turns 1 (λ k. 0) s.0 (tick_all env now wrote s)
  unfolding tick_all
  tick_all-Turns now wrote s h few =
      bind-Counts 1 0 1 (λ k. 0) (λ k. 0) (λ k. 0) s.0 (λ r. r.1.0) (λ x. x.1.0)
        (log_turn env now s) _ (omega arith) (λ k. omega arith) (log_turn-Counts env now s h few)
        (λ r one.
          bind-Counts 0 0 0 (λ k. 0) (λ k. 0) (λ k. 0) r.1.0 (λ s. s) (λ x. x.1.0)
            (frame_turn env now r.1.0) _ (omega arith) (λ k. omega arith)
            (Still-done r.1.0 (frame_turn env now r.1.0) one.0 (frame_turn-Still env now r.1.0))
            (λ s'' two.
              let s' = stats_turn env now (s'', r.1.1) in
              Still-Counts s'' _
                (Still-trans s'' s'.0 (tune_turn env now (wrote || r.0) s').0
                  (stats_turn-Still env now (s'', r.1.1))
                  (tune_turn-Still env now (wrote || r.0) s'))
                two.0))

  sampled-Turns :
      (opened now : ℕ) (wrote : Bool) (outs : List Output)
      (r : Option Message × (Worker × memory.Memory))
      → SteadyFor r.1.0.framed
      → spent (r.1.0, outs) + 1 < 2 ^ 16
      → Turns 1 (λ k. 0) (r.1.0, outs) (sampled env opened now wrote outs r)
  unfolding account
  sampled-Turns opened now wrote outs (some message, (w, m)) h few =
      (h, omega arith, λ k. omega arith)
  sampled-Turns opened now wrote outs (none, (w, m)) h few =
      if_Given (λ x. Counts 1 (λ k. 0) (w, outs) x.1.0) (is_stuck w.failing_since opened now) _ _
        (h, omega arith, λ k. omega arith) (tick_all-Turns now wrote ((w, outs), m) h few)

  after_requests-Turns :
      (opened : ℕ) (input : Input memory.Memory) (wrote : Bool) (t : Option Ticker) (s : Open env)
      → SteadyFor s.0.0.framed
      → spent s.0 + 1 < 2 ^ 16
      → Turns 1 (λ k. 0) s.0 (after_requests env opened input wrote t s)
  unfolding after_requests account
  after_requests-Turns opened input wrote none s h few = tick_all-Turns input.now wrote s h few
  after_requests-Turns opened input wrote (some t) ((w, outs), m) h few =
      let w' : Worker = record w { sampler = some (Ticker.poll t input.now).1 } in
      if_Given (λ x. Counts 1 (λ k. 0) (w, outs) x.1.0) (Ticker.poll t input.now).0 _ _
        (bind-Counts 0 1 1 (λ k. 0) (λ k. 0) (λ k. 0) (w, outs) (λ r. (r.1.0, outs)) (λ x. x.1.0)
          (sample env input.now input.started input.read_us w' m) _ (omega arith) (λ k. omega arith)
          (same (sample env input.now input.started input.read_us w' m)
            (sample-Same env input.now input.started input.read_us w' m))
          (λ r one. sampled-Turns opened input.now wrote outs r one.0 (omega (arith, one.1))))
        (tick_all-Turns input.now wrote ((w', outs), m) h few)
    where
      same :
          (r : Outcome (Option Message × (Worker × memory.Memory)))
          → Given (λ r. SameWaiting w r.1.0) r
          → Given (λ r. Counts 0 (λ k. 0) (w, outs) (r.1.0, outs)) r
      same (done r) g = Same-Counts (λ k. 0) (w, outs) (r.1.0, outs) g h (λ k. omega arith)
      same panics g = tt
      same runs_on g = tt

  after_commands-Turns :
      (opened : ℕ) (input : Input memory.Memory) (m : memory.Memory) (r : Bool × State)
      → SteadyFor r.1.0.framed
      → spent r.1 + 1 < 2 ^ 16
      → Turns 1 (λ k. 0) r.1 (after_commands env opened input m r)
  unfolding after_commands
  after_commands-Turns opened input m (true, (w, outs)) h few =
      close_framed-Counts (some m) w.framed (w, outs) refl
  after_commands-Turns opened input m (false, s) h few =
      let (wrote, s') = serve_requests env input.requested (s, m) in
      let one = serve_requests-Counts env input.requested (s, m) h (omega arith) in
      bind-Counts 0 1 1 (λ k. 0) (λ k. 0) (λ k. 0) s (λ x. x.0) (λ x. x.1.0) (serve_reads env s')
        (λ x. after_requests env opened input wrote x.0.0.sampler x) (omega arith)
        (λ k. omega arith) (behind s'.0 one (serve_reads env s') (serve_reads-Still env s'))
        (λ x both.
          after_requests-Turns opened input wrote x.0.0.sampler x both.0 (omega (arith, both.1)))
    where
      behind :
          (b : State)
          → Counts 0 (λ k. 0) s b
          → (x : Outcome (Open env)) → Given (λ s'. Still b s'.0) x
          → Given (λ s'. Counts 0 (λ k. 0) s s'.0) x
      behind b (h', p, q) (done s') still =
          let (h'', p', q') = Still-Counts b s'.0 still h' in
          (h'', omega arith, λ k. omega (arith, q k, q' k))
      behind b one panics still = tt
      behind b one runs_on still = tt

  -- The commands of the turns, and one more number for each.
  abbrev pub numbers : List (Input memory.Memory) → ℕ
  numbers [] = 0
  numbers (input ∷ inputs) = 2 * length input.commands + 1 + numbers inputs

  abbrev pub asked_all : ℕ → List (Input memory.Memory) → ℕ
  asked_all k [] = 0
  asked_all k (input ∷ inputs) = asked k input.commands + asked_all k inputs

  turn-Turns :
      (opened : ℕ) (input : Input memory.Memory) (s : Open env)
      → SteadyFor s.0.0.framed
      → spent s.0 + (2 * length input.commands + 1) < 2 ^ 16
      → Turns
          (2 * length input.commands + 1)
          (λ k. asked k input.commands)
          s.0
          (turn env opened input s)
  unfolding turn
  turn-Turns opened input (s, m) h few =
      bind-Counts (2 * length input.commands) 1 (2 * length input.commands + 1)
        (λ k. asked k input.commands) (λ k. 0) (λ k. asked k input.commands) s (λ r. r.1)
        (λ x. x.1.0) (drain_commands env input.applied input.commands input.hung_up s) _
        (omega arith) (λ k. omega arith)
        (drain_commands-Counts env input.applied input.commands input.hung_up s h)
        (λ r one. after_commands-Turns opened input (input.target m) r one.0 (omega (arith, one.1)))

  -- The turns at hand that the loop takes: up to the first that exits.
  abbrev pub taken_behind :
      (Open env → List (Input memory.Memory)) → Outcome (Turned env) → List (Input memory.Memory)
  taken_behind next (done (none, s)) = next s
  taken_behind next (done (some exit, s)) = []
  taken_behind next panics = []
  taken_behind next runs_on = []

  pub taken_turns : ℕ → List (Input memory.Memory) → Open env → List (Input memory.Memory)
  unfolding turn
  taken_turns opened [] s = []
  taken_turns opened (input ∷ inputs) s =
      input ∷ taken_behind (λ s'. taken_turns opened inputs s') (turn env opened input s)

  -- What the turns that the loop takes ask for on a channel is accounted for, with what stood before.
  abbrev pub Accounts : ℕ → List (Input memory.Memory) → Open env → Turned env → Type 0
  Accounts k taken s x = account k x.1.0 ≡ asked_all k taken + account k s.0

  -- The loop over the turns, from a worker whose requests have numbers of their own, while the numbers do
  -- not wrap around: the requests of each channel that the commands of the turns ask for, up to the turn
  -- that the loop exits from, and those that stood before, are answered once, still queued, or still
  -- waiting for the firmware, where the loop returns.
  pub serve-Accounts :
      (opened : ℕ) (inputs : List (Input memory.Memory)) (s : Open env) (k : ℕ)
      → SteadyFor s.0.0.framed
      → spent s.0 + numbers inputs < 2 ^ 16
      → Given (Accounts k (taken_turns opened inputs s) s) (serve env opened inputs s)
  unfolding serve taken_turns
  serve-Accounts opened [] s k h few = omega arith
  serve-Accounts opened (input ∷ inputs) s k h few =
      from_turn (turn env opened input s) (turn-Turns opened input s h (omega arith))
        (λ s' h' few'. serve-Accounts opened inputs s' k h' few')
    where
      step :
          (s' : Open env) (taken : List (Input memory.Memory))
          → account k s'.0 ≡ asked k input.commands + account k s.0
          → (r : Outcome (Turned env)) → Given (Accounts k taken s') r
          → Given (Accounts k (input ∷ taken) s) r
      step s' taken e (done x) q = omega (arith, q, e)
      step s' taken e panics g = tt
      step s' taken e runs_on g = tt

      from_turn :
          (r : Outcome (Turned env))
          → Turns (2 * length input.commands + 1) (λ k. asked k input.commands) s.0 r
          → ((s' : Open env)
              → SteadyFor s'.0.0.framed
              → spent s'.0 + numbers inputs < 2 ^ 16
              → Given (Accounts k (taken_turns opened inputs s') s') (serve env opened inputs s'))
          → Given
              (Accounts k (input ∷ taken_behind (λ s'. taken_turns opened inputs s') r) s)
              (r >>= next_turn env (λ s'. serve env opened inputs s'))
      from_turn (done (none, s')) (h', p, q) next =
          step s' (taken_turns opened inputs s') (q k) (serve env opened inputs s')
            (next s' h' (omega (arith, p)))
      from_turn (done (some exit, s')) (h', p, q) next = omega (arith, q k)
      from_turn panics g next = tt
      from_turn runs_on g next = tt
