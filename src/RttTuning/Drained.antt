-- ===== src/RttTuning/Drained.antt =====
-- crates/studio-core/src/rtt_tuning.rs: the loop of `poll` over the channel ends.
use tuning_tools.Base.{
  ℕ, zero, suc, ◌+◌, ◌≡◌, ◌⊎◌, refl, sym, ap, subst, ◌∙◌, arith, true, false, Option, none, some,
  List, [], ◌∷◌, ◌++◌, ltb, length, length-append, Bool-cases, inl, inr, ◌≤◌, ◌<◌,
}
use tuning_tools.Base.Bytes.{from_le_bytes}
use tuning_tools.Carrier
use tuning_tools.Carrier.{MemoryAccess, Result}
use tuning_tools.Carrier.Ram.{bytes_at}
use tuning_tools.Carrier.Ends.{Ends, Ends-map}
use tuning_tools.Wire.{Frame, Decoder, feed}
use tuning_tools.Wire.Feed.{feed_total}
use tuning_tools.Rtt.{Ring}
use tuning_tools.Rtt.Pending.{Holds, IsSeparate, count, count-lt, ring_bytes, length-ring_bytes}
use tuning_tools.Rtt.ReadRing.{Takes}
use tuning_tools.Rtt.Channels.{RttDuplex, duplex_read, read_up}
use tuning_tools.Rtt.Channels.Streams.{duplex_read-Takes, duplex_read-none}
use tuning_tools.RttTuning.{
  buffer_len, Pending, RttTuning, Polled, note_reply, on_pending, on_frames,
}
use tuning_tools.RttTuning.Calls.{State, after_feed, after_read, drain}

on_pending-duplex :
    (f : Frame) (p : Option Pending) (s : Polled × RttTuning)
    → (on_pending f p s).1.duplex ≡ s.1.duplex
unfolding on_pending note_reply
on_pending-duplex f none s = refl
on_pending-duplex f (some p) s = refl

on_frames-duplex :
    (fs : List Frame) (s : Polled × RttTuning) → (on_frames fs s).1.duplex ≡ s.1.duplex
unfolding on_frames
on_frames-duplex [] s = refl
on_frames-duplex (f ∷ fs) s = on_frames-duplex fs _ ∙ on_pending-duplex f _ s

-- No ring's offsets lie in its bytes.
abbrev pub AreSeparate : Option (Ring × Ring) → Type 0
AreSeparate none = Unit
AreSeparate (some (up, down)) = IsSeparate up

-- The passes of the loop that are enough: it takes 1024 bytes in each but the last.
abbrev pub rounds_for : Option (Ring × Ring) → ℕ
rounds_for none = 1
rounds_for (some (up, down)) = up.size + 1

module _ (c : MemoryAccess) (lossy : List ℕ → List ℕ) where
  open c use {Memory, byte}

  abbrev pub Returns : Option (Polled × State c lossy) → Type 0
  Returns x = (s : Polled × State c lossy) × (x ≡ some s)

  abbrev Next : Type 0
  Next = Polled → State c lossy → Option (Polled × State c lossy)

  -- The loop goes on from there.
  abbrev GoesOn : Next → RttDuplex → Memory → Type 0
  GoesOn next d m = (out : Polled) (t : RttTuning) → t.duplex ≡ d → Returns (next out (t, m))

  after_feed-Returns :
      (bytes : List ℕ) (out : Polled) (t : RttTuning) (m : Memory) (next : Next)
      → (length bytes < buffer_len) ⊎ GoesOn next t.duplex m
      → Returns (after_feed c lossy bytes out (t, m) next (feed t.decoder bytes))
  after_feed-Returns bytes out t m next h =
      let ((d, frames), fed) = feed_total t.decoder bytes in
      rw fed (by_length d frames (Bool-cases (ltb (length bytes) buffer_len)) h)
    where
      by_length :
          (d : Decoder) (frames : List Frame)
          → (ltb (length bytes) buffer_len ≡ true) ⊎ (ltb (length bytes) buffer_len ≡ false)
          → (length bytes < buffer_len) ⊎ GoesOn next t.duplex m
          → Returns (after_feed c lossy bytes out (t, m) next (some (d, frames)))
      by_length d frames (inl short) h = rw short (_, refl)
      by_length d frames (inr full) (inl few) = absurd (ground arith)
      by_length d frames (inr full) (inr more) =
          rw full (more _ _ (on_frames-duplex frames (out, record t { decoder = d })))

  after_read-Returns :
      (out : Polled) (t : RttTuning) (next : Next) (r : Result (List ℕ) × (RttDuplex × Memory))
      → Ends r (λ got s. (length got < buffer_len) ⊎ GoesOn next s.0 s.1)
      → Returns (after_read c lossy out t next r)
  after_read-Returns out t next (Carrier.err e, (d, m)) h = (_, refl)
  after_read-Returns out t next (Carrier.ok bytes, (d, m)) h =
      after_feed-Returns bytes out (record t { duplex = d }) m next h

  -- What is left in a ring is less than before by what was taken.
  count-taken :
      (up : Ring) (f f' : ℕ → ℕ) (w r r' : ℕ) (got : List ℕ)
      → ring_bytes up f r (count up w r) ≡ got ++ ring_bytes up f' r' (count up w r')
      → count up w r ≡ length got + count up w r'
  count-taken up f f' w r r' got e = omega (
    arith,
    length-ring_bytes up f r (count up w r),
    length-ring_bytes up f' r' (count up w r'),
    ap length e,
    length-append got (ring_bytes up f' r' (count up w r')),
  )

  -- What a pass over a ring leads to, where the loop returns on a ring that holds less.
  taken-Next :
      (n : ℕ) (d : RttDuplex) (f : ℕ → ℕ) (next : Next) (up down : Ring) (w r : ℕ)
      → d.rings ≡ some (up, down)
      → count up w r < suc n
      → ((out : Polled) (t : RttTuning) (m : Memory) (r' : ℕ)
          → t.duplex.rings ≡ some (up, down)
          → Holds up (byte m) w r'
          → count up w r' < n
          → Returns (next out (t, m)))
      → (got : List ℕ) (s : RttDuplex × Memory)
      → (s.0 ≡ d) × Takes c up buffer_len f w r (some got) (byte s.1)
      → (length got < buffer_len) ⊎ GoesOn next s.0 s.1
  taken-Next n d f next up down w r there few again got (d', m)
        (same, (got', r', eq, len, holds, split)) =
      let e : got ≡ got' = some_inj eq in
      let left = count-taken up f (byte m) w r r' got' split in
      elim (Bool-cases (ltb (length got) buffer_len)) [
        | inl short ↦ inl (ground arith)
        | inr full ↦ inr (λ out t p.
            again out t m r' (ap (λ (d : RttDuplex). d.rings) (p ∙ same) ∙ there) holds
              (omega (arith, ap length e, left, len, full_len full)))
      ]
    where
      some_inj : {x y : List ℕ} → some x ≡ some y → x ≡ y
      some_inj p = ground arith

      full_len : ltb (length got) buffer_len ≡ false → buffer_len ≤ length got
      full_len p = ground arith

  drain_pending-Returns :
      (n : ℕ) (out : Polled) (t : RttTuning) (m : Memory) (up down : Ring) (w r : ℕ)
      → t.duplex.rings ≡ some (up, down)
      → IsSeparate up
      → Holds up (byte m) w r
      → count up w r < n
      → Returns (drain c lossy n out (t, m))
  unfolding drain
  drain_pending-Returns zero out t m up down w r there s h few = absurd (omega arith)
  drain_pending-Returns (suc n) out t m up down w r there s h few =
      after_read-Returns out t (λ out' s'. drain c lossy n out' s') _
        (Ends-map (duplex_read c lossy buffer_len (t.duplex, m)) _ _
          (duplex_read-Takes c lossy buffer_len t.duplex m up down w r there s h)
          (taken-Next n t.duplex (byte m) (λ out' s'. drain c lossy n out' s') up down w r there few
            (λ out' t' m' r' p q k. drain_pending-Returns n out' t' m' up down w r' p s q k)))

  drain_out-Returns :
      (n : ℕ) (out : Polled) (t : RttTuning) (m : Memory)
      → Ends (duplex_read c lossy buffer_len (t.duplex, m)) (λ got s. got ≡ [])
      → Returns (drain c lossy (suc n) out (t, m))
  unfolding drain
  drain_out-Returns n out t m h =
      after_read-Returns out t (λ out' s'. drain c lossy n out' s') _
        (Ends-map (duplex_read c lossy buffer_len (t.duplex, m)) _ _ h
          (λ got s e. inl (omega (arith, ap length e))))

  -- The passes that the loop needs, for each state of the end.
  pub drain-Returns :
      (n : ℕ) (out : Polled) (t : RttTuning) (m : Memory) (rings : Option (Ring × Ring))
      → t.duplex.rings ≡ rings
      → AreSeparate rings
      → rounds_for rings ≤ n
      → Returns (drain c lossy n out (t, m))
  unfolding read_up duplex_read
  drain-Returns zero out t m none e s few = absurd (omega arith)
  drain-Returns zero out t m (some (up, down)) e s few = absurd (omega arith)
  drain-Returns (suc n) out t m none e s few = drain_out-Returns n out t m (
      subst (λ r. Ends (read_up c lossy buffer_len r (t.duplex, m)) (λ got s. got ≡ [])) (sym e)
        refl)
  drain-Returns (suc n) out t m (some (up, down)) e s few =
      let w = from_le_bytes (bytes_at (byte m) (up.descriptor + 12) 4) in
      let r = from_le_bytes (bytes_at (byte m) (up.descriptor + 16) 4) in
      let far : ((up.size ≤ w) ⊎ (up.size ≤ r)) → Returns (drain c lossy (suc n) out (t, m)) = λ p.
        drain_out-Returns n out t m (
          Ends-map (duplex_read c lossy buffer_len (t.duplex, m)) _ _
            (duplex_read-none c lossy buffer_len t.duplex m up down e p) (λ got s h. h.0)) in
      elim (Bool-cases (ltb w up.size)) [
        | inr beyond ↦ far (inl (ground arith))
        | inl w_in ↦ elim (Bool-cases (ltb r up.size)) [
          | inr beyond ↦ far (inr (ground arith))
          | inl r_in ↦
              let holds : Holds up (byte m) w r = record {
                write_at = refl;
                read_at = refl;
                write_in = ground arith;
                read_in = ground arith;
              } in
              drain_pending-Returns (suc n) out t m up down w r e s holds
                (omega (arith, count-lt up w r holds.write_in holds.read_in))
        ]
      ]
