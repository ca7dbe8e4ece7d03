-- ===== src/Probe/Answers.antt =====
-- crates/studio-core/src/session.rs: what becomes of the requests that a probe session is asked for.
pub mod Turn
pub mod Loop
use tuning_tools.Base.{
  ℕ, zero, suc, ◌+◌, ◌*◌, ◌^◌, ◌≡◌, ◌≤◌, ◌<◌, refl, sym, ap, subst, ◌∙◌, arith, Bool, true, false,
  ◌||◌, Option, none, some, List, [], ◌∷◌, ◌++◌, length, length-append, if◌then◌else◌,
}
use tuning_tools.Message.{Message, Except, ok, err}
use tuning_tools.ReadPlan.{ReadItem}
use tuning_tools.Tune
use tuning_tools.Tune.{Tuner}
use tuning_tools.Ticker
use tuning_tools.Ticker.{Ticker}
use tuning_tools.RttTuning.{Pending, RttTuning, FramedRequest, Polled, Answer}
use tuning_tools.RttTuning.Calls.{attach_tuning, submit, poll, close}
use tuning_tools.RttTuning.Answers.{owes, owed, answered, IsSteady, submit-Submits}
use tuning_tools.RttTuning.Served.{Polls, poll-Polls, close-answered}
use tuning_tools.Session.{SessionCommand}
use tuning_tools.Probe.{
  Worker, TuneRequest, Output, Setting, Outcome, done, panics, runs_on, ◌>>=◌, State, queue, apply,
  is_stop, stopped, drain_commands,
}
use tuning_tools.Probe.Requests.{
  Open, note, tell_all, into_cells, through, framed_request, submit_framed, request_cells,
  serve_request, serve_all, serve_queued, serve_requests, serve_reads, attach_framed,
}
use tuning_tools.Probe.Turn.{Input, polled, pump_log, poll_framed, log_turn}
use tuning_tools.Probe.Loop.{close_framed}
use tuning_tools.Probe.Still.{
  Given, Given-bind, if_Given, replied, SameWaiting, Still, note_Same, set_watches-Still,
  set_rate-Still, pump_log-Still,
}

-- The requests of a channel that are queued.
unfoldable pub queued : ℕ → List (TuneRequest × ℕ) → ℕ
unfolding owes
queued k [] = 0
queued k ((request, j) ∷ requests) = owes k (some j) + queued k requests

pub queued-append :
    (k : ℕ) (xs ys : List (TuneRequest × ℕ)) → queued k (xs ++ ys) ≡ queued k xs + queued k ys
unfolding queued
queued-append k [] ys = omega arith
queued-append k ((request, j) ∷ xs) ys = omega (arith, queued-append k xs ys)

abbrev pub asks : ℕ → SessionCommand → ℕ
asks k (SessionCommand.request id value j) = owes k (some j)
asks k (SessionCommand.discard j) = owes k (some j)
asks k (SessionCommand.save j) = owes k (some j)
asks k command = 0

-- What the firmware owes to a channel.
abbrev pub owed_by : ℕ → Option RttTuning → ℕ
owed_by k none = 0
owed_by k (some f) = owed k f.pending

abbrev pub seq_of : Option RttTuning → ℕ
seq_of none = 0
seq_of (some f) = f.seq

abbrev pub SteadyFor : Option RttTuning → Type 0
SteadyFor none = Unit
SteadyFor (some f) = IsSteady f

-- The answers that went to a channel, and those that it is to have.
unfoldable pub account : ℕ → State → ℕ
account k (w, outs) = replied k outs + (queued k w.requests + owed_by k w.framed)

-- The numbers that were given out, and those that the queued requests may take.
abbrev pub spent : State → ℕ
spent (w, outs) = seq_of w.framed + 2 * length w.requests

-- A step that takes so many numbers, and asks for that much.
abbrev pub Counts : ℕ → (ℕ → ℕ) → State → State → Type 0
Counts n gain s s' =
    SteadyFor s'.0.framed
    × (spent s' ≤ spent s + n)
    × ((k : ℕ) → account k s' ≡ gain k + account k s)

pub Counts-trans :
    (n n' all : ℕ) (f g : ℕ → ℕ) (a b c : State)
    → n + n' ≤ all
    → Counts n f a b
    → Counts n' g b c
    → Counts all (λ k. f k + g k) a c
Counts-trans n n' all f g a b c few (h, p, q) (h', p', q') =
    (h', omega arith, λ k. omega (arith, q k, q' k))

-- Where only answers were given.
pub Same-Counts :
    (gain : ℕ → ℕ) (s s' : State)
    → SameWaiting s.0 s'.0
    → SteadyFor s.0.framed
    → ((k : ℕ) → replied k s'.1 ≡ gain k + replied k s.1)
    → Counts 0 gain s s'
unfolding account
Same-Counts gain (w, outs) (w', outs') (p, q) h e = (
  subst SteadyFor (sym q) h,
  omega (arith, ap seq_of q, ap length p),
  λ k. omega (arith, ap (queued k) p, ap (owed_by k) q, e k),
)

pub Still-Counts : (s s' : State) → Still s s' → SteadyFor s.0.framed → Counts 0 (λ k. 0) s s'
Still-Counts s s' (same, e) h = Same-Counts (λ k. 0) s s' same h (λ k. omega (arith, e k))

pub replied-tell_all :
    (k : ℕ) (answers : List Answer) (outs : List Output)
    → replied k (tell_all answers outs) ≡ answered k answers + replied k outs
unfolding replied answered
replied-tell_all k [] outs = omega arith
replied-tell_all k ((j, r) ∷ answers) outs =
    omega (arith, replied-tell_all k answers (Output.reply j r ∷ outs))

module _ (env : Setting) where
  open env use {memory, lossy, rounds}

  submit_framed-Counts :
      (now k : ℕ) (f : RttTuning) (r : Except Message FramedRequest) (s : Open env)
      → s.0.0.framed ≡ some f
      → IsSteady f
      → f.seq + 2 < 2 ^ 16
      → Counts 2 (λ j. owes j (some k)) s.0 (submit_framed env now k f r s).0
  unfolding submit_framed account replied
  submit_framed-Counts now k f (ok request) ((w, outs), m) e h few =
      let (h', seqs, counts) = submit-Submits memory lossy now request k (f, m) h few in
      let answers = (submit memory lossy now request k (f, m)).0 in
      (
        h',
        omega (arith, ap seq_of e),
        λ j. omega (arith, replied-tell_all j answers outs, counts j, ap (owed_by j) e),
      )
  submit_framed-Counts now k f (err x) ((w, outs), m) e h few =
      (subst SteadyFor (sym e) h, omega arith, λ j. omega arith)

  request_cells-Counts :
      (request : TuneRequest) (k : ℕ) (t : Tuner) (s : Open env)
      → SteadyFor s.0.0.framed
      → Counts 0 (λ j. owes j (some k)) s.0 (request_cells env request k t s).0
  unfolding request_cells replied
  request_cells-Counts request k t ((w, outs), m) h =
      Same-Counts (λ j. owes j (some k)) (w, outs) _ (note_Same env _ w _ (refl, refl)) h
        (λ j. refl)

  pub Counts-more : (n : ℕ) (gain : ℕ → ℕ) (s s' : State) → Counts 0 gain s s' → Counts n gain s s'
  Counts-more n gain s s' (h, p, q) = (h, omega arith, q)

  through-Counts :
      (served : Bool) (f : Option RttTuning) (now : ℕ) (request : TuneRequest) (k : ℕ) (t : Tuner)
      (s : Open env)
      → s.0.0.framed ≡ f
      → SteadyFor s.0.0.framed
      → spent s.0 + 2 < 2 ^ 16
      → Counts 2 (λ j. owes j (some k)) s.0 (through env served f now request k t s).0
  through-Counts true (some f) now request k t s e h few =
      submit_framed-Counts now k f (framed_request env t request) s e (subst SteadyFor e h)
        (omega (arith, ap seq_of e))
  through-Counts true none now request k t s e h few =
      Counts-more 2 _ s.0 _ (request_cells-Counts request k t s h)
  through-Counts false f now request k t s e h few =
      Counts-more 2 _ s.0 _ (request_cells-Counts request k t s h)

  serve_request-Counts :
      (served : Bool) (now : ℕ) (request : TuneRequest) (k : ℕ) (t : Option Tuner) (s : Open env)
      → SteadyFor s.0.0.framed
      → spent s.0 + 2 < 2 ^ 16
      → Counts 2 (λ j. owes j (some k)) s.0 (serve_request env served now request k t s).0
  unfolding serve_request account replied
  serve_request-Counts served now request k none ((w, outs), m) h few =
      (h, omega arith, λ j. omega arith)
  serve_request-Counts served now request k (some t) ((w, outs), m) h few =
      through-Counts served w.framed now request k t ((w, outs), m) refl h few

  pub serve_all-Counts :
      (served : Bool) (now : ℕ) (requests : List (TuneRequest × ℕ)) (s : Open env)
      → SteadyFor s.0.0.framed
      → spent s.0 + 2 * length requests < 2 ^ 16
      → Counts
          (2 * length requests)
          (λ j. queued j requests)
          s.0
          (serve_all env served now requests s).0
  unfolding serve_all queued
  serve_all-Counts served now [] s h few = (h, omega arith, λ j. omega arith)
  serve_all-Counts served now ((request, k) ∷ requests) ((w, outs), m) h few =
      let s' = serve_request env served now request k w.tuner ((w, outs), m) in
      let one = serve_request-Counts served now request k w.tuner ((w, outs), m) h (omega arith) in
      Counts-trans 2 (2 * length requests) (2 * length ((request, k) ∷ requests))
        (λ j. owes j (some k)) (λ j. queued j requests) (w, outs) s'.0
        (serve_all env served now requests s').0 (omega arith) one
        (serve_all-Counts served now requests s' one.0 (omega (arith, one.1)))
