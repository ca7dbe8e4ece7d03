-- ===== src/Wire/Feed.antt =====
-- The whole loop of `feed`, on any bytes and from any state.
use tuning_tools.Base.{
  ℕ, zero, suc, ◌+◌, ◌%◌, ◌^◌, ◌<◌, ◌≡◌, refl, sym, ◌∙◌, ap, inl, inr, Option, none, some, List, [],
  ◌∷◌, ◌++◌, arith, length, length-append, append-nil, append_assoc, flatten, ◌>>=◌,
}
use tuning_tools.Wire.{
  Frame, Decoder, waits, rejects, delivers, scan, header_len, max_payload, count_bad, also,
  feed_loop, feed,
}
use tuning_tools.Wire.Rounds.{
  Round-cases, length-from_magic, scan_waits, scan_waits-lt, scan_waits-append, scan_rejects,
  scan_delivers, scan_rejects-append, scan_delivers-append,
}

abbrev pub Outcome : Type 0
Outcome = Option (Decoder × List Frame)

-- The decoder with another buffer.
abbrev pub holding : Decoder → List ℕ → Decoder
holding d buf = record d { buf = buf }

-- The loop by the three ends of a round.
feed_loop_waits :
    (n : ℕ) (d : Decoder) {kept : List ℕ}
    → scan d.buf ≡ waits kept
    → feed_loop (suc n) d ≡ some (holding d kept, [])
unfolding feed_loop
feed_loop_waits n d e = rw (e, feed_loop)

feed_loop_rejects :
    (n : ℕ) (d : Decoder) {rest : List ℕ}
    → scan d.buf ≡ rejects rest
    → feed_loop (suc n) d ≡ feed_loop n (count_bad d rest)
unfolding feed_loop
feed_loop_rejects n d e = rw (e, feed_loop)

abbrev pub also_first : Frame → Outcome → Outcome
also_first f m = m >>= λ r. some (also f r)

feed_loop_delivers :
    (n : ℕ) (d : Decoder) {f : Frame} {rest : List ℕ}
    → scan d.buf ≡ delivers f rest
    → feed_loop (suc n) d ≡ also_first f (feed_loop n (holding d rest))
unfolding feed_loop
feed_loop_delivers n d e = rw (e, feed_loop)

-- With a round for each byte and one more, the loop returns.
feed_loop_total :
    (n : ℕ) (d : Decoder) → length d.buf < n → (r : Decoder × List Frame) × (feed_loop n d ≡ some r)
feed_loop_total zero d h = absurd (omega arith)
feed_loop_total (suc n) d h = elim (Round-cases (scan d.buf)) [
  | inl (kept, e) ↦ ((holding d kept, []), feed_loop_waits n d e)
  | inr (inl (rest, e)) ↦
      rw (feed_loop_rejects n d e)
        (feed_loop_total n (count_bad d rest) (omega (arith, scan_rejects d.buf rest e)))
  | inr (inr (f, rest, e)) ↦
      let (r, p) =
        feed_loop_total n (holding d rest) (omega (arith, scan_delivers d.buf f rest e)) in
      (also f r, feed_loop_delivers n d e ∙ ap (also_first f) p)
]

-- `feed` returns on every input, in every state.
pub feed_total :
    (d : Decoder) (bytes : List ℕ) → (r : Decoder × List Frame) × (feed d bytes ≡ some r)
unfolding feed
feed_total d bytes =
    feed_loop_total (suc (length (d.buf ++ bytes))) (holding d (d.buf ++ bytes)) (omega arith)

-- More rounds than that change nothing.
feed_loop_rounds :
    (n m : ℕ) (d : Decoder) → length d.buf < n → length d.buf < m → feed_loop n d ≡ feed_loop m d
feed_loop_rounds zero m d h k = absurd (omega arith)
feed_loop_rounds (suc n) zero d h k = absurd (omega arith)
feed_loop_rounds (suc n) (suc m) d h k = elim (Round-cases (scan d.buf)) [
  | inl (kept, e) ↦ feed_loop_waits n d e ∙ sym (feed_loop_waits m d e)
  | inr (inl (rest, e)) ↦
      let shorter = scan_rejects d.buf rest e in
      feed_loop_rejects n d e
      ∙ feed_loop_rounds n m (count_bad d rest) (omega arith) (omega arith)
      ∙ sym (feed_loop_rejects m d e)
  | inr (inr (f, rest, e)) ↦
      let shorter = scan_delivers d.buf f rest e in
      feed_loop_delivers n d e
      ∙ ap (also_first f) (feed_loop_rounds n m (holding d rest) (omega arith) (omega arith))
      ∙ sym (feed_loop_delivers m d e)
]

-- Buffers that the next round treats alike end alike.
feed_loop-scan :
    (n : ℕ) (d : Decoder) (xs ys : List ℕ)
    → scan xs ≡ scan ys
    → feed_loop (suc n) (holding d xs) ≡ feed_loop (suc n) (holding d ys)
unfolding feed_loop
feed_loop-scan n d xs ys e = rw (e, feed_loop)

-- Feed `ys` after the loop, and put its frames behind.
abbrev pub then_feed : List ℕ → Outcome → Outcome
then_feed ys m = m >>= λ r. feed r.0 ys >>= λ s. some (s.0, r.1 ++ s.1)

then_feed-nil : (d : Decoder) (ys : List ℕ) → then_feed ys (some (d, [])) ≡ feed d ys
then_feed-nil d ys = go (feed d ys)
  where
    go : (o : Outcome) → (o >>= λ s. some (s.0, s.1)) ≡ o
    go none = refl
    go (some s) = refl

then_feed-also :
    (f : Frame) (ys : List ℕ) (m : Outcome)
    → then_feed ys (also_first f m) ≡ also_first f (then_feed ys m)
then_feed-also f ys none = refl
then_feed-also f ys (some r) = go (feed r.0 ys)
  where
    go :
        (o : Outcome)
        → (o >>= λ s. some (s.0, f ∷ r.1 ++ s.1)) ≡ also_first f (o >>= λ s. some (s.0, r.1 ++ s.1))
    go none = refl
    go (some s) = refl

-- After a round that waits, more input goes on from what was kept.
feed_loop_resumes :
    (m : ℕ) (d : Decoder) (ys kept : List ℕ)
    → scan d.buf ≡ waits kept
    → length (d.buf ++ ys) < suc m
    → feed_loop (suc m) (holding d (d.buf ++ ys)) ≡ feed (holding d kept) ys
unfolding feed
feed_loop_resumes m d ys kept e k =
    feed_loop-scan m d (d.buf ++ ys) (kept ++ ys) (scan_waits-append d.buf ys kept e)
    ∙ feed_loop_rounds (suc m) (suc (length (kept ++ ys))) (holding d (kept ++ ys)) fits
        (omega arith)
  where
    fits : length (kept ++ ys) < suc m
    fits = omega (
      arith,
      length-append d.buf ys,
      length-append kept ys,
      length-from_magic d.buf,
      ap (λ (t : List ℕ). length t) (scan_waits d.buf kept e),
    )

feed_loop-append :
    (n m : ℕ) (d : Decoder) (ys : List ℕ)
    → length d.buf < n
    → length (d.buf ++ ys) < m
    → feed_loop m (holding d (d.buf ++ ys)) ≡ then_feed ys (feed_loop n d)
feed_loop-append zero m d ys h k = absurd (omega arith)
feed_loop-append (suc n) zero d ys h k = absurd (omega arith)
feed_loop-append (suc n) (suc m) d ys h k = elim (Round-cases (scan d.buf)) [
  | inl (kept, e) ↦
      feed_loop_resumes m d ys kept e k
      ∙ sym (then_feed-nil (holding d kept) ys)
      ∙ ap (then_feed ys) (sym (feed_loop_waits n d e))
  | inr (inl (rest, e)) ↦
      let shorter = scan_rejects d.buf rest e in
      feed_loop_rejects m (holding d (d.buf ++ ys)) (scan_rejects-append d.buf ys rest e)
      ∙ feed_loop-append n m (count_bad d rest) ys (omega arith)
          (omega (arith, length-append rest ys, length-append d.buf ys))
      ∙ ap (then_feed ys) (sym (feed_loop_rejects n d e))
  | inr (inr (f, rest, e)) ↦
      let shorter = scan_delivers d.buf f rest e in
      feed_loop_delivers m (holding d (d.buf ++ ys)) (scan_delivers-append d.buf ys f rest e)
      ∙ ap (also_first f) (
          feed_loop-append n m (holding d rest) ys (omega arith)
            (omega (arith, length-append rest ys, length-append d.buf ys)))
      ∙ sym (then_feed-also f ys (feed_loop n (holding d rest)))
      ∙ ap (then_feed ys) (sym (feed_loop_delivers n d e))
]

-- Feeding a string in two pieces hands on the frames, in the order, and leaves the decoder that
-- feeding it at once does.
pub feed-append : (d : Decoder) (xs ys : List ℕ) → feed d (xs ++ ys) ≡ then_feed ys (feed d xs)
unfolding feed
feed-append d xs ys = rw (← append_assoc d.buf xs ys) (
    feed_loop-append (suc (length (d.buf ++ xs))) (suc (length ((d.buf ++ xs) ++ ys)))
      (holding d (d.buf ++ xs)) ys (omega arith) (omega arith))

-- The calls of a reader that feeds the pieces `c` and `cs` one after the other.
pub feed_pieces : Decoder → List ℕ → List (List ℕ) → Outcome
feed_pieces d c [] = feed d c
feed_pieces d c (b ∷ cs) = feed d c >>= λ r. feed_pieces r.0 b cs >>= λ s. some (s.0, r.1 ++ s.1)

-- However a stream is cut into pieces, feeding them one after the other leaves the decoder and hands
-- on the frames, in order, that feeding it at once does.
pub feed-pieces :
    (d : Decoder) (c : List ℕ) (cs : List (List ℕ)) → feed_pieces d c cs ≡ feed d (c ++ flatten cs)
unfolding feed_pieces flatten
feed-pieces d c [] = rw append-nil
feed-pieces d c (b ∷ cs) =
    go (λ e. feed-pieces e b cs) (feed d c) ∙ sym (feed-append d c (b ++ flatten cs))
  where
    go :
        ((e : Decoder) → feed_pieces e b cs ≡ feed e (b ++ flatten cs))
        → (m : Outcome)
        → (m >>= λ r. feed_pieces r.0 b cs >>= λ s. some (s.0, r.1 ++ s.1))
          ≡ then_feed (b ++ flatten cs) m
    go ih none = refl
    go ih (some r) = rw (ih r.0)

also_first-eq-some :
    (f : Frame) (m : Outcome) (r : Decoder × List Frame)
    → also_first f m ≡ some r
    → (s : Decoder × List Frame) × (m ≡ some s) × (r ≡ also f s)
also_first-eq-some f none r h = cc
also_first-eq-some f (some s) r h = (s, refl, cc)

feed_loop-lt :
    (n : ℕ) (d : Decoder) (r : Decoder × List Frame) → feed_loop n d ≡ some r → length r.0.buf < 266
feed_loop-lt zero d r h = unfold feed_loop in cc
feed_loop-lt (suc n) d r h = elim (Round-cases (scan d.buf)) [
  | inl (kept, e) ↦ ground (arith, feed_loop_waits n d e, scan_waits-lt d.buf kept e)
  | inr (inl (rest, e)) ↦ feed_loop-lt n (count_bad d rest) r (sym (feed_loop_rejects n d e) ∙ h)
  | inr (inr (f, rest, e)) ↦
      let (s, p, q) =
        also_first-eq-some f (feed_loop n (holding d rest)) r
          (sym (feed_loop_delivers n d e) ∙ h) in
      rw q (feed_loop-lt n (holding d rest) s p)
]

-- What a decoder holds between calls is less than the longest frame.
pub feed-lt :
    (d : Decoder) (bytes : List ℕ) (r : Decoder × List Frame)
    → feed d bytes ≡ some r
    → length r.0.buf < header_len + max_payload + 2
unfolding feed
feed-lt d bytes r h = feed_loop-lt (suc (length (d.buf ++ bytes))) (holding d (d.buf ++ bytes)) r h

-- `feed` on an empty buffer, by the end of its first round.
abbrev pub idle : ℕ → Decoder
idle bad = record { buf = []; bad_frames = bad }

pub feed_delivers :
    (bad : ℕ) (xs : List ℕ) (f : Frame) (rest : List ℕ)
    → scan xs ≡ delivers f rest
    → feed (idle bad) xs ≡ also_first f (feed (idle bad) rest)
unfolding feed
feed_delivers bad xs f rest e =
    feed_loop_delivers (length xs) (holding (idle bad) xs) e
    ∙ ap (also_first f) (
        feed_loop_rounds (length xs) (suc (length rest)) (holding (idle bad) rest)
          (scan_delivers xs f rest e) (omega arith))

pub feed_rejects :
    (bad : ℕ) (xs rest : List ℕ)
    → scan xs ≡ rejects rest
    → feed (idle bad) xs ≡ feed (idle ((bad + 1) % 2 ^ 64)) rest
unfolding feed
feed_rejects bad xs rest e =
    feed_loop_rejects (length xs) (holding (idle bad) xs) e
    ∙ feed_loop_rounds (length xs) (suc (length rest)) (count_bad (idle bad) rest)
        (scan_rejects xs rest e) (omega arith)

pub feed_waits :
    (bad : ℕ) (xs kept : List ℕ)
    → scan xs ≡ waits kept
    → feed (idle bad) xs ≡ some (record { buf = kept; bad_frames = bad }, [])
unfolding feed
feed_waits bad xs kept e = feed_loop_waits (length xs) (holding (idle bad) xs) e
