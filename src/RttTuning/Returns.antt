-- ===== src/RttTuning/Returns.antt =====
-- crates/studio-core/src/rtt_tuning.rs: `poll` returns.
use tuning_tools.Base.{
  ℕ, ◌+◌, ◌≡◌, ◌⊎◌, refl, sym, subst, arith, Bool, true, false, Option, none, some, List, [], ◌∷◌,
  Bool-cases, inl, inr, ◌≤◌,
}
use tuning_tools.Base.Bytes.{to_le_bytes}
use tuning_tools.Carrier
use tuning_tools.Carrier.{MemoryAccess, Result}
use tuning_tools.Message.{Message, Except, ok, err}
use tuning_tools.Rtt.{Ring, write_ring}
use tuning_tools.Rtt.Channels.{RttDuplex, pass_on, write_down, duplex_write}
use tuning_tools.RttTuning.{Pending, RttTuning, Polled, frame, is_renewal_due, sent}
use tuning_tools.RttTuning.Calls.{
  State, lease, leased, send, renew, collect, collect_for, expired, nothing_yet, poll,
}
use tuning_tools.Link.{next_seq, reply_timeout}
use tuning_tools.Wire.Cmd
use tuning_tools.RttTuning.Drained.{AreSeparate, rounds_for, Returns, drain-Returns}

module _ (c : MemoryAccess) (lossy : List ℕ → List ℕ) where
  open c use {Memory, byte}

  -- A write leaves the rings, or detaches the end.
  abbrev SameOrNone : Option (Ring × Ring) → Option (Ring × Ring) → Type 0
  SameOrNone rings rings' = (rings' ≡ rings) ⊎ (rings' ≡ none)

  on_ring-SameOrNone :
      (d : RttDuplex) (x : Result (Option Bool) × Memory)
      → SameOrNone d.rings (Carrier.and_then (x.0, (d, x.1)) (pass_on c lossy false)).1.0.rings
  unfolding pass_on
  on_ring-SameOrNone d (Carrier.ok (some done), m) = inl refl
  on_ring-SameOrNone d (Carrier.ok none, m) = inr refl
  on_ring-SameOrNone d (Carrier.err e, m) = inl refl

  write_down-SameOrNone :
      (bytes : List ℕ) (rings : Option (Ring × Ring)) (d : RttDuplex) (m : Memory)
      → SameOrNone d.rings (write_down c lossy bytes rings (d, m)).1.0.rings
  unfolding write_down
  write_down-SameOrNone bytes none d m = inl refl
  write_down-SameOrNone bytes (some (up, down)) d m =
      on_ring-SameOrNone d (write_ring c down bytes m)

  sent-rings : (r : Result Bool) (p : Pending) (t : RttTuning) → (sent r p t).1.duplex ≡ t.duplex
  unfolding sent
  sent-rings (Carrier.ok true) p t = refl
  sent-rings (Carrier.ok false) p t = refl
  sent-rings (Carrier.err e) p t = refl

  leased-rings :
      (now : ℕ) (r : Except Message (Unit {0}) × State c lossy)
      → (leased c lossy now r).1.0.duplex ≡ r.1.0.duplex
  leased-rings now (ok u, (t, m)) = refl
  leased-rings now (err e, s) = refl

  send-SameOrNone :
      (now code : ℕ) (payload : List ℕ) (timeout : ℕ) (reply : Option ℕ) (s : State c lossy)
      → SameOrNone s.0.duplex.rings (send c lossy now code payload timeout reply s).1.0.duplex.rings
  unfolding send duplex_write
  send-SameOrNone now code payload timeout reply (t, m) =
      let seq = next_seq t.seq in
      let (r, (d, m')) = duplex_write c lossy (frame code seq payload) (t.duplex, m) in
      rw
        (sent-rings r (record { reply = reply; deadline = now + timeout })
          (record t { seq = seq; duplex = d }))
        (write_down-SameOrNone (frame code seq payload) t.duplex.rings t.duplex m)

  lease-SameOrNone :
      (now : ℕ) (s : State c lossy)
      → SameOrNone s.0.duplex.rings (lease c lossy now s).1.0.duplex.rings
  unfolding lease
  lease-SameOrNone now (t, m) =
      let payload = to_le_bytes 4 t.token in
      rw (leased-rings now (send c lossy now Cmd.lease payload reply_timeout none (t, m)))
        (send-SameOrNone now Cmd.lease payload reply_timeout none (t, m))

  renew-SameOrNone :
      (now : ℕ) (s : State c lossy)
      → SameOrNone s.0.duplex.rings (renew c lossy now s).1.0.duplex.rings
  unfolding renew
  renew-SameOrNone now (t, m) = elim (Bool-cases (is_renewal_due t.leased_at now)) [
    | inl due ↦ rw due (lease-SameOrNone now (t, m))
    | inr early ↦ rw early (inl refl)
  ]

  collect-Returns :
      (rounds : ℕ) (out : Polled) (s : State c lossy)
      → AreSeparate s.0.duplex.rings
      → rounds_for s.0.duplex.rings ≤ rounds
      → Returns c lossy (collect c lossy rounds out s)
  unfolding collect
  collect-Returns rounds out (t, m) h few = for_pending t.pending
    where
      for_pending :
          (pending : List (ℕ × Pending))
          → Returns c lossy (collect_for c lossy pending rounds out (t, m))
      for_pending [] = (_, refl)
      for_pending (p ∷ rest) = drain-Returns c lossy rounds out t m t.duplex.rings refl h few

  expired-Returns :
      (now : ℕ) (r : Option (Polled × State c lossy))
      → Returns c lossy r
      → Returns c lossy (expired c lossy now r)
  expired-Returns now r (s, e) = rw e (_, refl)

  -- A poll returns while the firmware writes nothing: the memory is what the host's accesses make of it,
  -- and a firmware that refills the ring meanwhile can keep the source's loop running. Whatever the memory
  -- holds and whichever access fails, the loop takes at most one pass for each byte of the up ring, and one
  -- more; no offset of the ring lies in its buffer.
  pub poll-Returns :
      (rounds now : ℕ) (s : State c lossy)
      → AreSeparate s.0.duplex.rings
      → rounds_for s.0.duplex.rings ≤ rounds
      → (r : Polled × State c lossy) × (poll c lossy rounds now s ≡ some r)
  unfolding poll
  poll-Returns rounds now s h few =
      let (e, s') = renew c lossy now s in
      let (h', few') = still s.0.duplex.rings s'.0.duplex.rings (renew-SameOrNone now s) h few in
      expired-Returns now _ (collect-Returns rounds (nothing_yet c lossy e) s' h' few')
    where
      Still : Option (Ring × Ring) → Type 0
      Still rings = AreSeparate rings × (rounds_for rings ≤ rounds)

      at_least : (rings : Option (Ring × Ring)) → rounds_for rings ≤ rounds → 1 ≤ rounds
      at_least none few = few
      at_least (some (up, down)) few = omega arith

      still :
          (rings rings' : Option (Ring × Ring))
          → SameOrNone rings rings'
          → AreSeparate rings
          → rounds_for rings ≤ rounds
          → Still rings'
      still rings rings' (inl same) h few = subst Still (sym same) (h, few)
      still rings rings' (inr gone) h few = subst Still (sym gone) (tt, at_least rings few)
