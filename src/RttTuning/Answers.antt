-- ===== src/RttTuning/Answers.antt =====
-- crates/studio-core/src/rtt_tuning.rs: everyone who asks is answered once.
use tuning_tools.Base.{
  ℕ, ◌+◌, ◌≡◌, refl, ◌∙◌, arith, Bool, true, false, Option, none, some, List, [], ◌∷◌, ◌++◌, ◌==◌,
  if◌then◌else◌, Bool-cases, inl, inr, All, All-map, ◌≤◌, ◌<◌, ◌^◌,
}
use tuning_tools.Base.Bytes.{to_le_bytes}
use tuning_tools.Base.Dict.{lookup, remove, insert}
use tuning_tools.Base.Dict.Keys.{
  IsUnique, remove-none, remove-IsUnique, insert-IsUnique, total, total-remove, total-insert,
}
use tuning_tools.Carrier
use tuning_tools.Carrier.{MemoryAccess, Result}
use tuning_tools.Message.{Message, Except, ok, err}
use tuning_tools.Wire.{Frame}
use tuning_tools.Wire.Cmd
use tuning_tools.Rtt.Channels.{RttDuplex, duplex_write}
use tuning_tools.Link.{next_seq, reply_timeout}
use tuning_tools.RttTuning.{
  Pending, RttTuning, Answer, FramedRequest, Polled, code_of, payload_of, timeout_of, frame, sent,
  tell, note_reply, result_of, status_of, on_pending, on_frames, tell_late, give_up, expire_all,
}
use tuning_tools.RttTuning.Calls.{
  State, send, leased, lease, answer_failure, send_request, submit_behind, submit_under, submit,
}

-- How many answers the channel of the number is owed by a request.
unfoldable pub owes : ℕ → Option ℕ → ℕ
owes k none = 0
owes k (some j) = if j == k then 1 else 0

abbrev pub owed : ℕ → List (ℕ × Pending) → ℕ
owed k pending = total (λ p. owes k p.reply) pending

-- How many answers went to it.
unfoldable pub answered : ℕ → List Answer → ℕ
answered k [] = 0
answered k ((j, r) ∷ rest) = owes k (some j) + answered k rest

pub answered-append :
    (k : ℕ) (xs ys : List Answer) → answered k (xs ++ ys) ≡ answered k xs + answered k ys
unfolding answered
answered-append k [] ys = omega arith
answered-append k (x ∷ xs) ys = omega (arith, answered-append k xs ys)

answered-tell :
    (k : ℕ) (reply : Option ℕ) (r : Except Message (Unit {0})) (out : Polled)
    → answered k (tell reply r out).answers ≡ answered k out.answers + owes k reply
unfolding answered owes
answered-tell k none r out = omega arith
answered-tell k (some j) r out = omega (arith, answered-append k out.answers ((j, r) ∷ []))

-- The keys are numbers that were given out.
abbrev pub AllBelow : ℕ → List (ℕ × Pending) → Type 0
AllBelow n = All (λ e. e.0 ≤ n)

lookup-above : (n : ℕ) (m : List (ℕ × Pending)) → AllBelow n m → lookup (n + 1) m ≡ none
unfolding lookup
lookup-above n [] h = refl
lookup-above n ((j, p) ∷ m) h = ground (arith, lookup-above n m h.1)

remove-AllBelow : (n seq : ℕ) (m : List (ℕ × Pending)) → AllBelow n m → AllBelow n (remove seq m)
unfolding remove
remove-AllBelow n seq [] h = tt
remove-AllBelow n seq ((j, p) ∷ m) h = elim (Bool-cases (j == seq)) [
  | inl same ↦ rw same (remove-AllBelow n seq m h.1)
  | inr other ↦ rw other (h.0, remove-AllBelow n seq m h.1)
]

insert-AllBelow :
    (n : ℕ) (p : Pending) (m : List (ℕ × Pending))
    → AllBelow n m
    → AllBelow (n + 1) (insert (n + 1) p m)
unfolding insert
insert-AllBelow n p m h =
    (omega arith, All-map (λ e b. omega arith) (remove (n + 1) m) (remove-AllBelow n (n + 1) m h))

-- Each request has a number of its own, and numbers have not wrapped around.
abbrev pub IsSteady : RttTuning → Type 0
IsSteady t = IsUnique t.pending × AllBelow t.seq t.pending

-- What is owed and what was answered, together.
abbrev pub account : ℕ → Polled × RttTuning → ℕ
account k (out, t) = answered k out.answers + owed k t.pending

-- A step that loses no answer and gives none twice.
abbrev pub Keeps : Polled × RttTuning → Polled × RttTuning → Type 0
Keeps s s' = IsSteady s'.1 × (s'.1.seq ≡ s.1.seq) × ((k : ℕ) → account k s' ≡ account k s)

pub Keeps-trans : (a b d : Polled × RttTuning) → Keeps a b → Keeps b d → Keeps a d
Keeps-trans a b d (x, p, f) (y, q, g) = (y, q ∙ p, λ k. g k ∙ f k)

on_pending-Keeps :
    (f : Frame) (p : Option Pending) (s : Polled × RttTuning)
    → IsSteady s.1
    → lookup f.seq s.1.pending ≡ p
    → Keeps s (on_pending f p s)
unfolding on_pending note_reply
on_pending-Keeps f none s h e = (h, refl, λ k. refl)
on_pending-Keeps f (some p) (out, t) (u, b) e = (
  (remove-IsUnique f.seq t.pending u, remove-AllBelow t.seq f.seq t.pending b),
  refl,
  λ k. omega (
    arith,
    answered-tell k p.reply (result_of (status_of f.payload) (note_reply f t).lease_refused) out,
    total-remove (λ p. owes k p.reply) f.seq p t.pending u e,
  ),
)

pub on_frames-Keeps :
    (fs : List Frame) (s : Polled × RttTuning) → IsSteady s.1 → Keeps s (on_frames fs s)
unfolding on_frames
on_frames-Keeps [] s h = (h, refl, λ k. refl)
on_frames-Keeps (f ∷ fs) (out, t) h =
    let next = on_pending f (lookup f.seq t.pending) (out, t) in
    let one = on_pending-Keeps f (lookup f.seq t.pending) (out, t) h refl in
    Keeps-trans (out, t) next (on_frames fs next) one (on_frames-Keeps fs next one.0)

give_up-Keeps :
    (seq : ℕ) (out : Polled) (t : RttTuning) (p : Option Pending)
    → IsSteady t
    → lookup seq t.pending ≡ p
    → Keeps (out, t) (give_up p out, record t { pending = remove seq t.pending })
unfolding owes
give_up-Keeps seq out t p (u, b) e = (
  (remove-IsUnique seq t.pending u, remove-AllBelow t.seq seq t.pending b),
  refl,
  λ k. given k p e,
)
  where
    told :
        (k : ℕ) (r : Option ℕ)
        → answered k (tell_late r out).answers ≡ answered k out.answers + owes k r
    told k none = omega arith
    told k (some j) = answered-tell k (some j) (err Message.no_answer) out

    given :
        (k : ℕ) (p : Option Pending)
        → lookup seq t.pending ≡ p
        → answered k (give_up p out).answers + owed k (remove seq t.pending)
          ≡ answered k out.answers + owed k t.pending
    given k none e = rw (remove-none seq t.pending e)
    given k (some p) e =
        omega (arith, told k p.reply, total-remove (λ p. owes k p.reply) seq p t.pending u e)

pub expire_all-Keeps :
    (seqs : List ℕ) (s : Polled × RttTuning) → IsSteady s.1 → Keeps s (expire_all seqs s)
unfolding expire_all
expire_all-Keeps [] s h = (h, refl, λ k. refl)
expire_all-Keeps (seq ∷ seqs) (out, t) h =
    let next : Polled × RttTuning =
      (give_up (lookup seq t.pending) out, record t { pending = remove seq t.pending }) in
    let one = give_up-Keeps seq out t (lookup seq t.pending) h refl in
    Keeps-trans (out, t) next (expire_all seqs next) one (expire_all-Keeps seqs next one.0)

-- What a send may do: it takes the next number, and is owed its answer where it succeeds.
abbrev pub Sends :
    {M : Type 0} → RttTuning → Option ℕ → Except Message (Unit {0}) × (RttTuning × M) → Type 0
Sends t reply (ok u, (t', m)) =
    IsSteady t'
    × (t'.seq ≡ t.seq + 1)
    × ((k : ℕ) → owed k t'.pending ≡ owes k reply + owed k t.pending)
Sends t reply (err e, (t', m)) =
    IsSteady t' × (t'.seq ≡ t.seq + 1) × ((k : ℕ) → owed k t'.pending ≡ owed k t.pending)

sent-Sends :
    {M : Type 0} (t : RttTuning) (seq : ℕ) (d : RttDuplex) (p : Pending) (r : Result Bool) (m : M)
    → IsSteady t
    → seq ≡ t.seq + 1
    → let out = sent r p (record t { seq = seq; duplex = d }) in Sends t p.reply (out.0, (out.1, m))
unfolding sent
sent-Sends t seq d p (Carrier.ok true) m h e = (
  (insert-IsUnique seq p t.pending h.0, rw e (insert-AllBelow t.seq p t.pending h.1)),
  e,
  λ k. total-insert (λ p. owes k p.reply) seq p t.pending (rw e (lookup-above t.seq t.pending h.1)),
)
sent-Sends t seq d p (Carrier.ok false) m h e =
    ((h.0, All-map (λ x b. omega arith) t.pending h.1), e, λ k. refl)
sent-Sends t seq d p (Carrier.err x) m h e =
    ((h.0, All-map (λ x b. omega arith) t.pending h.1), e, λ k. refl)

leased-Sends :
    (c : MemoryAccess) (lossy : List ℕ → List ℕ) (now : ℕ) (t : RttTuning)
    (r : Except Message (Unit {0}) × State c lossy)
    → Sends t none r
    → Sends t none (leased c lossy now r)
leased-Sends c lossy now t (ok u, (t', m)) (steady, next, same) = (steady, next, same)
leased-Sends c lossy now t (err e, s) h = h

-- What a request may do: it is answered now or owed its answer.
abbrev pub Submits : {M : Type 0} → ℕ → RttTuning → ℕ → List Answer × (RttTuning × M) → Type 0
Submits n t k (answers, (t', m)) =
    IsSteady t'
    × (t'.seq ≤ t.seq + n)
    × ((j : ℕ) → answered j answers + owed j t'.pending ≡ owes j (some k) + owed j t.pending)

module _ (c : MemoryAccess) (lossy : List ℕ → List ℕ) where
  open c use {Memory}

  send-Sends :
      (now code : ℕ) (payload : List ℕ) (timeout : ℕ) (reply : Option ℕ) (s : State c lossy)
      → IsSteady s.0
      → s.0.seq + 1 < 2 ^ 16
      → Sends s.0 reply (send c lossy now code payload timeout reply s)
  unfolding send
  send-Sends now code payload timeout reply (t, m) h few =
      let (r, (d, m')) = duplex_write c lossy (frame code (next_seq t.seq) payload) (t.duplex, m) in
      sent-Sends t (next_seq t.seq) d (record { reply = reply; deadline = now + timeout }) r m' h
        (omega arith)

  pub lease-Sends :
      (now : ℕ) (s : State c lossy)
      → IsSteady s.0
      → s.0.seq + 1 < 2 ^ 16
      → Sends s.0 none (lease c lossy now s)
  unfolding lease
  lease-Sends now (t, m) h few =
      leased-Sends c lossy now t _
        (send-Sends now Cmd.lease (to_le_bytes 4 t.token) reply_timeout none (t, m) h few)

  answer_failure-Submits :
      (t : RttTuning) (k : ℕ) (r : Except Message (Unit {0}) × State c lossy)
      → Sends t (some k) r
      → Submits 1 t k (answer_failure c lossy k r)
  unfolding answered
  answer_failure-Submits t k (ok u, (t', m)) (steady, next, same) =
      (steady, omega arith, λ j. omega (arith, same j))
  answer_failure-Submits t k (err e, (t', m)) (steady, next, same) =
      (steady, omega arith, λ j. omega (arith, same j))

  send_request-Submits :
      (now : ℕ) (request : FramedRequest) (k : ℕ) (s : State c lossy)
      → IsSteady s.0
      → s.0.seq + 1 < 2 ^ 16
      → Submits 1 s.0 k (send_request c lossy now request k s)
  unfolding send_request
  send_request-Submits now request k (t, m) h few = answer_failure-Submits t k _ (
      send-Sends now (code_of request) (payload_of t.token request) (timeout_of request) (some k)
        (t, m) h few)

  submit_behind-Submits :
      (now : ℕ) (request : FramedRequest) (k : ℕ) (t : RttTuning)
      (r : Except Message (Unit {0}) × State c lossy)
      → t.seq + 2 < 2 ^ 16
      → Sends t none r
      → Submits 2 t k (submit_behind c lossy now request k r)
  unfolding submit_behind answered owes
  submit_behind-Submits now request k t (ok u, (t', m)) few (steady, next, same) =
      let (steady', seqs, counts) =
        send_request-Submits now request k (t', m) steady (omega arith) in
      (steady', omega arith, λ j. omega (arith, same j, counts j))
  submit_behind-Submits now request k t (err e, (t', m)) few (steady, next, same) =
      (steady, omega arith, λ j. omega (arith, same j))

  submit_under-Submits :
      (leased_at : Option ℕ) (now : ℕ) (request : FramedRequest) (k : ℕ) (s : State c lossy)
      → IsSteady s.0
      → s.0.seq + 2 < 2 ^ 16
      → Submits 2 s.0 k (submit_under c lossy leased_at now request k s)
  submit_under-Submits none now request k (t, m) h few =
      submit_behind-Submits now request k t _ few (lease-Sends now (t, m) h (omega arith))
  submit_under-Submits (some at) now request k (t, m) h few =
      let (steady, seqs, counts) = send_request-Submits now request k (t, m) h (omega arith) in
      (steady, omega arith, counts)

  pub submit-Submits :
      (now : ℕ) (request : FramedRequest) (k : ℕ) (s : State c lossy)
      → IsSteady s.0
      → s.0.seq + 2 < 2 ^ 16
      → Submits 2 s.0 k (submit c lossy now request k s)
  unfolding submit
  submit-Submits now request k (t, m) h few =
      submit_under-Submits t.leased_at now request k (t, m) h few
