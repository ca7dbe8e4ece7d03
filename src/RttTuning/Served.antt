-- ===== src/RttTuning/Served.antt =====
-- crates/studio-core/src/rtt_tuning.rs: the calls of a session, one after the other, and what they answer.
use tuning_tools.Base.{
  ℕ, zero, suc, ◌+◌, ◌≡◌, refl, ap, ◌∙◌, arith, Option, none, some, List, [], ◌∷◌, ltb, length,
  Bool-cases, inl, inr, ◌≤◌, ◌<◌, ◌^◌,
}
use tuning_tools.Base.Dict.Keys.{total}
use tuning_tools.Carrier
use tuning_tools.Carrier.{MemoryAccess, Result}
use tuning_tools.Message.{Message, Except, ok, err}
use tuning_tools.Wire.{Frame, Decoder, feed}
use tuning_tools.Rtt.Channels.{RttDuplex}
use tuning_tools.RttTuning.{
  buffer_len, Pending, RttTuning, Polled, on_frames, late_seqs, tell_closed, expire_all,
  is_renewal_due, error_of, closing_answers,
}
use tuning_tools.RttTuning.Calls.{
  State, lease, renew, after_feed, after_read, drain, collect, collect_for, expire, expired,
  nothing_yet, poll, release_held, close,
}
use tuning_tools.RttTuning.Answers.{
  owes, owed, answered, account, IsSteady, Keeps, Keeps-trans, on_frames-Keeps, expire_all-Keeps,
  Sends, lease-Sends,
}

answered-closing :
    (k : ℕ) (pending : List (ℕ × Pending)) → answered k (closing_answers pending) ≡ owed k pending
unfolding answered owes closing_answers total
answered-closing k [] = refl
answered-closing k ((seq, p) ∷ rest) =
    told p.reply ∙ ap (λ n. owes k p.reply + n) (answered-closing k rest)
  where
    told :
        (r : Option ℕ)
        → answered k (tell_closed r (closing_answers rest))
          ≡ owes k r + answered k (closing_answers rest)
    told none = omega arith
    told (some j) = refl

module _ (c : MemoryAccess) (lossy : List ℕ → List ℕ) where
  open c use {Memory}

  -- What a reading of the channel keeps, where it returns.
  abbrev Kept : Polled × RttTuning → Option (Polled × State c lossy) → Type 0
  Kept s none = Unit
  Kept s (some (out, (t, m))) = Keeps s (out, t)

  Kept-trans :
      (a b : Polled × RttTuning) (r : Option (Polled × State c lossy))
      → Keeps a b
      → Kept b r
      → Kept a r
  Kept-trans a b none h g = tt
  Kept-trans a b (some (out, (t, m))) h g = Keeps-trans a b (out, t) h g

  after_feed-Kept :
      (bytes : List ℕ) (out : Polled) (s : State c lossy)
      (next : Polled → State c lossy → Option (Polled × State c lossy))
      (fed : Option (Decoder × List Frame))
      → IsSteady s.0
      → ((out' : Polled) (s' : State c lossy) → IsSteady s'.0 → Kept (out', s'.0) (next out' s'))
      → Kept (out, s.0) (after_feed c lossy bytes out s next fed)
  after_feed-Kept bytes out s next none h g = tt
  after_feed-Kept bytes out (t, m) next (some (d, frames)) h g =
      let now : Polled × RttTuning = (out, record t { decoder = d }) in
      let one = on_frames-Keeps frames now h in
      let (out', t') = on_frames frames now in
      elim (Bool-cases (ltb (length bytes) buffer_len)) [
        | inl short ↦ rw short one
        | inr full ↦ rw full (Kept-trans now (out', t') _ one (g out' (t', m) one.0))
      ]

  after_read-Kept :
      (out : Polled) (t : RttTuning)
      (next : Polled → State c lossy → Option (Polled × State c lossy))
      (r : Result (List ℕ) × (RttDuplex × Memory))
      → IsSteady t
      → ((out' : Polled) (s' : State c lossy) → IsSteady s'.0 → Kept (out', s'.0) (next out' s'))
      → Kept (out, t) (after_read c lossy out t next r)
  after_read-Kept out t next (Carrier.err e, (d, m)) h g = (h, refl, λ k. refl)
  after_read-Kept out t next (Carrier.ok bytes, (d, m)) h g =
      after_feed-Kept bytes out (record t { duplex = d }, m) next (feed t.decoder bytes) h g

  drain-Kept :
      (n : ℕ) (out : Polled) (s : State c lossy)
      → IsSteady s.0
      → Kept (out, s.0) (drain c lossy n out s)
  unfolding drain
  drain-Kept zero out s h = tt
  drain-Kept (suc n) out (t, m) h =
      after_read-Kept out t (λ out' s'. drain c lossy n out' s') _ h
        (λ out' s' h'. drain-Kept n out' s' h')

  collect-Kept :
      (rounds : ℕ) (out : Polled) (s : State c lossy)
      → IsSteady s.0
      → Kept (out, s.0) (collect c lossy rounds out s)
  unfolding collect
  collect-Kept rounds out (t, m) h = for_pending t.pending
    where
      for_pending :
          (pending : List (ℕ × Pending))
          → Kept (out, t) (collect_for c lossy pending rounds out (t, m))
      for_pending [] = (h, refl, λ k. refl)
      for_pending (p ∷ rest) = drain-Kept rounds out (t, m) h

  expired-Kept :
      (now : ℕ) (s : Polled × RttTuning) (r : Option (Polled × State c lossy))
      → Kept s r
      → Kept s (expired c lossy now r)
  unfolding expire
  expired-Kept now s none h = tt
  expired-Kept now s (some (out, (t, m))) h =
      Keeps-trans s (out, t) (expire_all (late_seqs now t.pending) (out, t)) h
        (expire_all-Keeps (late_seqs now t.pending) (out, t) h.0)

  -- What a poll does, where it returns: it takes one number at most, and answers what was owed.
  abbrev pub Polls : RttTuning → Option (Polled × State c lossy) → Type 0
  Polls t none = Unit
  Polls t (some (out, (t', m))) =
      IsSteady t' × (t'.seq ≤ t.seq + 1) × ((k : ℕ) → account k (out, t') ≡ owed k t.pending)

  abbrev Renews : RttTuning → Option Message × State c lossy → Type 0
  Renews t (e, (t', m)) =
      IsSteady t' × (t'.seq ≤ t.seq + 1) × ((k : ℕ) → owed k t'.pending ≡ owed k t.pending)

  leased-Renews :
      (t : RttTuning) (r : Except Message (Unit {0}) × State c lossy)
      → Sends t none r
      → Renews t (error_of r.0 none, r.1)
  unfolding owes
  leased-Renews t (ok u, (t', m)) (h, next, same) = (h, omega arith, λ k. omega (arith, same k))
  leased-Renews t (err e, (t', m)) (h, next, same) = (h, omega arith, λ k. omega (arith, same k))

  renew-Renews :
      (now : ℕ) (s : State c lossy)
      → IsSteady s.0
      → s.0.seq + 1 < 2 ^ 16
      → Renews s.0 (renew c lossy now s)
  unfolding renew
  renew-Renews now (t, m) h few = elim (Bool-cases (is_renewal_due t.leased_at now)) [
    | inl due ↦
        rw due (leased-Renews t (lease c lossy now (t, m)) (lease-Sends c lossy now (t, m) h few))
    | inr early ↦ rw early (h, omega arith, λ k. refl)
  ]

  Kept-Polls :
      (t t' : RttTuning) (e : Option Message) (r : Option (Polled × State c lossy))
      → t'.seq ≤ t.seq + 1
      → ((k : ℕ) → owed k t'.pending ≡ owed k t.pending)
      → Kept (nothing_yet c lossy e, t') r
      → Polls t r
  unfolding answered
  Kept-Polls t t' e none few same h = tt
  Kept-Polls t t' e (some (out, (t'', m))) few same (h, seqs, counts) =
      (h, omega arith, λ k. omega (arith, counts k, same k))

  pub poll-Polls :
      (rounds now : ℕ) (s : State c lossy)
      → IsSteady s.0
      → s.0.seq + 1 < 2 ^ 16
      → Polls s.0 (poll c lossy rounds now s)
  unfolding poll
  poll-Polls rounds now s h few =
      let (steady, seqs, counts) = renew-Renews now s h few in
      let (e, s') = renew c lossy now s in
      Kept-Polls s.0 s'.0 e _ seqs counts (
        expired-Kept now (nothing_yet c lossy e, s'.0) _
          (collect-Kept rounds (nothing_yet c lossy e) s' steady))

  pub close-answered :
      (k : ℕ) (m : Option Memory) (t : RttTuning)
      → answered k (close c lossy m t).0 ≡ owed k t.pending
  unfolding close
  close-answered k none t = answered-closing k t.pending
  close-answered k (some m) t = for_lease t.leased_at
    where
      for_lease :
          (leased_at : Option ℕ)
          → answered k (closing_answers (release_held c lossy leased_at m t).1.pending)
            ≡ owed k t.pending
      for_lease none = answered-closing k t.pending
      for_lease (some at) = answered-closing k t.pending

  pub close-pending : (m : Option Memory) (t : RttTuning) → (close c lossy m t).1.0.pending ≡ []
  unfolding close
  close-pending m t = refl

  -- A lease that is given up takes a number.
  pub close-seq : (m : Option Memory) (t : RttTuning) → (close c lossy m t).1.0.seq ≤ t.seq + 1
  unfolding close
  close-seq none t = omega arith
  close-seq (some m) t = for_lease t.leased_at
    where
      for_lease : (leased_at : Option ℕ) → (release_held c lossy leased_at m t).1.seq ≤ t.seq + 1
      for_lease none = omega arith
      for_lease (some at) = omega arith
