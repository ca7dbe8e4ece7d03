-- ===== src/RttTuning/Calls.antt =====
-- crates/studio-core/src/rtt_tuning.rs: the calls of a session on the control channel.
use tuning_tools.Base.{
  ℕ, zero, suc, ◌+◌, Bool, false, Option, none, some, List, [], ◌∷◌, length, ltb, if◌then◌else◌,
}
use tuning_tools.Base.Bytes.{to_le_bytes}
use tuning_tools.Carrier
use tuning_tools.Carrier.{MemoryAccess, Result}
use tuning_tools.Message.{Message, Except, ok, err}
use tuning_tools.Rtt.Channels.{RttDuplex, attach, duplex_read, duplex_write}
use tuning_tools.Wire.{Frame, Decoder, feed}
use tuning_tools.Wire.Cmd
use tuning_tools.Link.{reply_timeout, next_seq}
use tuning_tools.RttTuning.{
  buffer_len, FramedRequest, Pending, RttTuning, Answer, code_of, payload_of, timeout_of, frame,
  sent, Polled, error_of, on_frames, late_seqs, expire_all, is_renewal_due, closing_answers,
}

module _ (c : MemoryAccess) (lossy : List ℕ → List ℕ) where
  open c use {Memory}

  abbrev pub State : Type 0
  State = RttTuning × Memory

  abbrev pub attached : Result Bool → Bool
  attached (Carrier.ok b) = b
  attached (Carrier.err e) = false

  unfoldable pub attach_tuning : ℕ → State → Bool × State
  attach_tuning now (t, m) =
      let (r, (d, m')) = attach c lossy now (t.duplex, m) in
      (attached r, (record t { duplex = d }, m'))

  unfoldable pub send : ℕ → ℕ → List ℕ → ℕ → Option ℕ → State → Except Message (Unit {0}) × State
  unfolding sent frame
  send now code payload timeout reply (t, m) =
      let seq = next_seq t.seq in
      let (r, (d, m')) = duplex_write c lossy (frame code seq payload) (t.duplex, m) in
      let p : Pending = record { reply = reply; deadline = now + timeout } in
      let (done, t') = sent r p (record t { seq = seq; duplex = d }) in (done, (t', m'))

  abbrev pub leased : ℕ → Except Message (Unit {0}) × State → Except Message (Unit {0}) × State
  leased now (ok u, (t, m)) = (ok tt, (record t { leased_at = some now }, m))
  leased now (err e, s) = (err e, s)

  unfoldable pub lease : ℕ → State → Except Message (Unit {0}) × State
  unfolding send
  lease now (t, m) =
      leased now (send now Cmd.lease (to_le_bytes 4 t.token) reply_timeout none (t, m))

  abbrev pub answer_failure : ℕ → Except Message (Unit {0}) × State → List Answer × State
  answer_failure k (ok u, s) = ([], s)
  answer_failure k (err e, s) = ((k, err e) ∷ [], s)

  unfoldable pub send_request : ℕ → FramedRequest → ℕ → State → List Answer × State
  unfolding send
  send_request now request k (t, m) =
      answer_failure k (
        send now (code_of request) (payload_of t.token request) (timeout_of request) (some k)
          (t, m))

  unfoldable pub submit_behind :
      ℕ → FramedRequest → ℕ → Except Message (Unit {0}) × State → List Answer × State
  unfolding send_request
  submit_behind now request k (ok u, s) = send_request now request k s
  submit_behind now request k (err e, s) = ((k, err e) ∷ [], s)

  abbrev pub submit_under : Option ℕ → ℕ → FramedRequest → ℕ → State → List Answer × State
  submit_under none now request k s = submit_behind now request k (lease now s)
  submit_under (some at) now request k s = send_request now request k s

  -- Send a request, behind a lease where none is held.
  unfoldable pub submit : ℕ → FramedRequest → ℕ → State → List Answer × State
  unfolding submit_behind lease
  submit now request k (t, m) = submit_under t.leased_at now request k (t, m)

  unfoldable pub renew : ℕ → State → Option Message × State
  unfolding lease
  renew now (t, m) =
      if is_renewal_due t.leased_at now
      then (let (r, s) = lease now (t, m) in (error_of r none, s))
      else (none, (t, m))

  -- What a pass of the loop over the channel leads to: `next` is the loop from there on.
  abbrev pub after_feed :
      List ℕ
      → Polled
      → State
      → (Polled → State → Option (Polled × State))
      → Option (Decoder × List Frame)
      → Option (Polled × State)
  after_feed bytes out s next none = none
  after_feed bytes out (t, m) next (some (d, frames)) =
      let (out', t') = on_frames frames (out, record t { decoder = d }) in
      if ltb (length bytes) buffer_len then some (out', (t', m)) else next out' (t', m)

  abbrev pub after_read :
      Polled
      → RttTuning
      → (Polled → State → Option (Polled × State))
      → Result (List ℕ) × (RttDuplex × Memory)
      → Option (Polled × State)
  after_read out t next (Carrier.err e, (d, m)) =
      some (record out { error = some (Message.carrier e) }, (record t { duplex = d }, m))
  after_read out t next (Carrier.ok bytes, (d, m)) =
      after_feed bytes out (record t { duplex = d }, m) next (feed t.decoder bytes)

  -- The loop over what the channel holds, on fuel; `none` is a loop that is still running. `feed` has
  -- the fuel that it needs.
  unfoldable pub drain : ℕ → Polled → State → Option (Polled × State)
  unfolding on_frames
  drain zero out s = none
  drain (suc n) out (t, m) =
      after_read out t (λ out' s'. drain n out' s') (duplex_read c lossy buffer_len (t.duplex, m))

  abbrev pub collect_for : List (ℕ × Pending) → ℕ → Polled → State → Option (Polled × State)
  collect_for [] rounds out s = some (out, s)
  collect_for (p ∷ rest) rounds out s = drain rounds out s

  -- The replies are looked for only where one is awaited.
  unfoldable pub collect : ℕ → Polled → State → Option (Polled × State)
  unfolding drain
  collect rounds out (t, m) = collect_for t.pending rounds out (t, m)

  unfoldable pub expire : ℕ → Polled × State → Polled × State
  unfolding late_seqs expire_all
  expire now (out, (t, m)) =
      let (out', t') = expire_all (late_seqs now t.pending) (out, t) in (out', (t', m))

  abbrev pub nothing_yet : Option Message → Polled
  nothing_yet e = record { finished = false; error = e; answers = [] }

  abbrev pub expired : ℕ → Option (Polled × State) → Option (Polled × State)
  expired now none = none
  expired now (some s) = some (expire now s)

  -- Renew the lease when due, collect replies and time out late ones, in at most `rounds` reads.
  unfoldable pub poll : ℕ → ℕ → State → Option (Polled × State)
  unfolding renew collect expire
  poll rounds now s = let (e, s') = renew now s in expired now (collect rounds (nothing_yet e) s')

  -- The lease is given up where one is held.
  abbrev pub release_held : Option ℕ → Memory → RttTuning → Option Memory × RttTuning
  release_held none m t = (some m, t)
  release_held (some at) m t =
      let seq = next_seq t.seq in
      let bytes = frame Cmd.release seq (to_le_bytes 4 t.token) in
      let (r, (d, m')) = duplex_write c lossy bytes (t.duplex, m) in
      (some m', record t { seq = seq; duplex = d })

  abbrev pub release : Option Memory → RttTuning → Option Memory × RttTuning
  release none t = (none, t)
  release (some m) t = release_held t.leased_at m t

  unfoldable pub close : Option Memory → RttTuning → List Answer × (RttTuning × Option Memory)
  unfolding closing_answers frame
  close m t =
      let (m', t') = release m t in
      (closing_answers t'.pending, (record t' { leased_at = none; pending = [] }, m'))
