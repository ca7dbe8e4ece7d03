-- ===== src/RttTuning/History.antt =====
-- crates/studio-core/src/rtt_tuning.rs: whoever asks is answered once, over the calls of a whole session.
use tuning_tools.Base.{
  ℕ, ◌+◌, ◌*◌, ◌≡◌, refl, ap, arith, Option, none, some, List, [], ◌∷◌, ◌++◌, length, ◌≤◌, ◌<◌, ◌^◌,
}
use tuning_tools.Base.Dict.Keys.{total}
use tuning_tools.Carrier.{MemoryAccess}
use tuning_tools.RttTuning.{RttTuning, Answer, FramedRequest, Polled, new}
use tuning_tools.RttTuning.Calls.{State, attach_tuning, submit, poll, close}
use tuning_tools.RttTuning.Answers.{owes, owed, answered, answered-append, IsSteady, submit-Submits}
use tuning_tools.RttTuning.Served.{Polls, poll-Polls, close-answered}

-- A call of the session.
pub data Call : Type 0 where
  attaches polls : Call
  submits : FramedRequest → ℕ → Call

-- The channel of a request is owed an answer.
abbrev asks : ℕ → Call → ℕ
asks k attaches = 0
asks k polls = 0
asks k (submits request j) = owes k (some j)

module _ (c : MemoryAccess) (lossy : List ℕ → List ℕ) where
  open c use {Memory}

  abbrev answers_of : Option (Polled × State c lossy) → Option (List Answer × RttTuning)
  answers_of none = none
  answers_of (some (out, (t, m))) = some (out.answers, t)

  -- A call at an instant, with the memory that it finds then: its answers, and what it leaves.
  abbrev serve : ℕ → Call × (ℕ × Memory) → RttTuning → Option (List Answer × RttTuning)
  serve rounds (attaches, (now, m)) t = some ([], (attach_tuning c lossy now (t, m)).1.0)
  serve rounds (polls, (now, m)) t = answers_of (poll c lossy rounds now (t, m))
  serve rounds (submits request k, (now, m)) t =
      let (answers, (t', m')) = submit c lossy now request k (t, m) in some (answers, t')

  -- The answers of a call before those of the others.
  abbrev join : List Answer → Option (List Answer × RttTuning) → Option (List Answer × RttTuning)
  join answers none = none
  join answers (some (more, t)) = some (answers ++ more, t)

  abbrev then_serve :
      (RttTuning → Option (List Answer × RttTuning))
      → Option (List Answer × RttTuning)
      → Option (List Answer × RttTuning)
  then_serve next none = none
  then_serve next (some (answers, t)) = join answers (next t)

  -- The calls of a session, each with its instant and the memory that it finds.
  pub history : ℕ → List (Call × (ℕ × Memory)) → RttTuning → Option (List Answer × RttTuning)
  history rounds [] t = some ([], t)
  history rounds (call ∷ calls) t = then_serve (λ t'. history rounds calls t') (serve rounds call t)

  -- The requests of a channel in the calls.
  pub asked : ℕ → List (Call × (ℕ × Memory)) → ℕ
  asked k [] = 0
  asked k ((call, found) ∷ calls) = asks k call + asked k calls

  -- What becomes of `n` requests of a channel in calls that take `few` numbers.
  abbrev Serves : ℕ → (ℕ → ℕ) → RttTuning → Option (List Answer × RttTuning) → Type 0
  Serves few n t none = Unit
  Serves few n t (some (answers, t')) =
      IsSteady t'
      × (t'.seq ≤ t.seq + few)
      × ((k : ℕ) → answered k answers + owed k t'.pending ≡ n k + owed k t.pending)

  answers_of-Serves :
      (t : RttTuning) (r : Option (Polled × State c lossy))
      → Polls c lossy t r
      → Serves 2 (λ k. 0) t (answers_of r)
  answers_of-Serves t none h = tt
  answers_of-Serves t (some (out, (t', m))) (h, seqs, counts) =
      (h, omega arith, λ k. omega (arith, counts k))

  serve-Serves :
      (rounds : ℕ) (call : Call × (ℕ × Memory)) (t : RttTuning)
      → IsSteady t
      → t.seq + 2 < 2 ^ 16
      → Serves 2 (λ k. asks k call.0) t (serve rounds call t)
  unfolding answered attach_tuning
  serve-Serves rounds (attaches, (now, m)) t h few = (h, omega arith, λ k. refl)
  serve-Serves rounds (polls, (now, m)) t h few =
      answers_of-Serves t _ (poll-Polls c lossy rounds now (t, m) h (omega arith))
  serve-Serves rounds (submits request k, (now, m)) t h few =
      submit-Submits c lossy now request k (t, m) h few

  join-Serves :
      (few all : ℕ) (n n' : ℕ → ℕ) (t t' : RttTuning) (answers : List Answer)
      (r : Option (List Answer × RttTuning))
      → 2 + few ≤ all
      → Serves 2 n t (some (answers, t'))
      → Serves few n' t' r
      → Serves all (λ k. n k + n' k) t (join answers r)
  join-Serves few all n n' t t' answers none w h g = tt
  join-Serves few all n n' t t' answers (some (more, t'')) w (h, seqs, counts)
        (h', seqs', counts') =
      (h', omega arith, λ k. omega (arith, answered-append k answers more, counts k, counts' k))

  then_serve-Serves :
      (few all : ℕ) (n n' : ℕ → ℕ) (t : RttTuning)
      (next : RttTuning → Option (List Answer × RttTuning)) (r : Option (List Answer × RttTuning))
      → 2 + few ≤ all
      → Serves 2 n t r
      → ((t' : RttTuning) → IsSteady t' → t'.seq ≤ t.seq + 2 → Serves few n' t' (next t'))
      → Serves all (λ k. n k + n' k) t (then_serve next r)
  then_serve-Serves few all n n' t next none w h g = tt
  then_serve-Serves few all n n' t next (some (answers, t')) w h g =
      join-Serves few all n n' t t' answers (next t') w h (g t' h.0 h.1)

  history-Serves :
      (rounds : ℕ) (calls : List (Call × (ℕ × Memory))) (t : RttTuning)
      → IsSteady t
      → t.seq + 2 * length calls < 2 ^ 16
      → Serves (2 * length calls) (λ k. asked k calls) t (history rounds calls t)
  unfolding history asked answered
  history-Serves rounds [] t h few = (h, omega arith, λ k. refl)
  history-Serves rounds (call ∷ calls) t h few =
      then_serve-Serves (2 * length calls) (2 * length (call ∷ calls)) (λ k. asks k call.0)
        (λ k. asked k calls) t (λ t'. history rounds calls t') (serve rounds call t) (omega arith)
        (serve-Serves rounds call t h (omega arith))
        (λ t' h' few'. history-Serves rounds calls t' h' (omega arith))

  abbrev then_close : Option Memory → Option (List Answer × RttTuning) → Option (List Answer)
  then_close end none = none
  then_close end (some (answers, t)) = some (answers ++ (close c lossy end t).0)

  -- The answers of a whole session, which is closed with the memory or without it.
  unfoldable pub session :
      ℕ → List (Call × (ℕ × Memory)) → Option Memory → RttTuning → Option (List Answer)
  unfolding history
  session rounds calls end t = then_close end (history rounds calls t)

  -- A session of fewer than 2 ^ 15 calls, each at an instant of its own and on whatever memory it finds,
  -- that is closed then, with or without the memory, gives each channel exactly as many answers as the
  -- channel's requests, where every poll of it returned.
  pub answered-session :
      (rounds : ℕ) (calls : List (Call × (ℕ × Memory))) (end : Option Memory) (address token : ℕ)
      (answers : List Answer) (k : ℕ)
      → length calls < 2 ^ 15
      → session rounds calls end (new address token) ≡ some answers
      → answered k answers ≡ asked k calls
  unfolding new total session
  answered-session rounds calls end address token answers k few e =
      closed (history rounds calls (new address token))
        (history-Serves rounds calls (new address token) (tt, tt) (omega arith)) e
    where
      closed :
          (r : Option (List Answer × RttTuning))
          → Serves (2 * length calls) (λ k. asked k calls) (new address token) r
          → then_close end r ≡ some answers
          → answered k answers ≡ asked k calls
      closed none h e = absurd (ground arith)
      closed (some (given, t)) (h, seqs, counts) e =
          let same : given ++ (close c lossy end t).0 ≡ answers = some_inj e in
          omega (
            arith,
            ap (λ l. answered k l) same,
            answered-append k given (close c lossy end t).0,
            close-answered c lossy k end t,
            counts k,
          )
        where
          some_inj : {x y : List Answer} → some x ≡ some y → x ≡ y
          some_inj p = ground arith
