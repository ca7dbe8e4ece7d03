-- ===== src/Wire/Altered.antt =====
-- A frame that was changed on its way, in its body or in its checksum.
use tuning_tools.Base.{
  ℕ, ◌+◌, ◌*◌, ◌/◌, ◌%◌, ◌^◌, ◌≡◌, ◌≢◌, ◌⊎◌, inl, inr, refl, sym, ap, subst, ◌∙◌, List, [], ◌∷◌,
  ◌++◌, arith, some, length, length-append, append_assoc, drop,
}
use tuning_tools.Base.Bytes.{IsByte, to_le_bytes}
use tuning_tools.Wire.{
  magic, byte_at, crc16, encode_body, encode, Frame, rejects, from_magic, scan, feed,
}
use tuning_tools.Wire.Crc.{crc16-lt}
use tuning_tools.Wire.Feed.{idle, feed_rejects}
use tuning_tools.Wire.RoundTrip.{
  IsRequest, body, frame_bytes, encode_lem, encode_body-IsByte, scan_at-sealed,
}
use tuning_tools.Wire.Corruption.{from_magic_id, received, scan-altered}

-- The element in the middle stands in the first list or in the second.
split_at :
    {A : Type 0} (xs ys front back : List A) (a : A)
    → xs ++ ys ≡ front ++ (a ∷ back)
    → ((more : List A) × (xs ≡ front ++ (a ∷ more)) × (back ≡ more ++ ys))
      ⊎ ((more : List A) × (front ≡ xs ++ more) × (ys ≡ more ++ (a ∷ back)))
split_at [] ys front back a e = inr (front, refl, e)
split_at (x ∷ xs) ys [] back a e = inl (xs, ground arith, ground arith)
split_at {A} (x ∷ xs) ys (z ∷ front) back a e = elim (split_at xs ys front back a (ground arith)) [
  | inl (more, p, q) ↦ inl (more, same (ground arith) p, q)
  | inr (more, p, q) ↦ inr (more, same (ground arith) p, q)
]
  where
    same : {u v : A} {us vs : List A} → u ≡ v → us ≡ vs → u ∷ us ≡ v ∷ vs
    same p q = rw (p, q) refl

byte_at-append : (f : Frame) (tail : List ℕ) → byte_at (body f ++ tail) 0 ≡ magic
unfolding encode_body
byte_at-append f tail = refl

-- Whether a scan drops the first byte of a buffer.
abbrev DropsFirst : List ℕ → Type 0
DropsFirst buf = scan buf ≡ rejects (drop 1 buf)

module _ (f : Frame) (fits : IsRequest f) where
  scan-unsealed :
      (lo hi : ℕ) (rest : List ℕ)
      → lo + 256 * hi ≢ crc16 (body f)
      → DropsFirst (body f ++ (lo ∷ hi ∷ rest))
  unfolding scan
  scan-unsealed lo hi rest ne =
      let buf = body f ++ (lo ∷ hi ∷ rest) in
      let whole : from_magic buf ≡ buf = from_magic_id buf (byte_at-append f (lo ∷ hi ∷ rest)) in
      rw whole (scan_at-sealed f lo hi rest fits ∙ ground arith)

  -- A byte of the checksum was replaced.
  checksum-DropsFirst :
      (more back : List ℕ) (a b : ℕ) (rest : List ℕ)
      → to_le_bytes 2 (crc16 (body f)) ≡ more ++ (a ∷ back)
      → a ≢ b
      → IsByte b
      → DropsFirst (body f ++ (more ++ (b ∷ (back ++ rest))))
  checksum-DropsFirst [] back a b rest e ne byte =
      let small = crc16-lt (body f) (encode_body-IsByte f fits) in
      let hi = crc16 (body f) / 256 % 256 in
      let low : crc16 (body f) % 256 ≡ a = ground arith in
      let high : back ≡ hi ∷ [] = ground arith in
      subst (λ l. DropsFirst (body f ++ (b ∷ (l ++ rest)))) (sym high)
        (scan-unsealed b hi rest (λ p. ne (omega (arith, small, p, low))))
  checksum-DropsFirst (lo ∷ []) back a b rest e ne byte =
      let small = crc16-lt (body f) (encode_body-IsByte f fits) in
      let low : crc16 (body f) % 256 ≡ lo = ground arith in
      let high : crc16 (body f) / 256 % 256 ≡ a = ground arith in
      let empty : back ≡ [] = ground arith in
      subst (λ l. DropsFirst (body f ++ (lo ∷ b ∷ (l ++ rest)))) (sym empty)
        (scan-unsealed lo b rest (λ p. ne (omega (arith, small, p, low, high))))
  checksum-DropsFirst (lo ∷ hi ∷ more) back a b rest e ne byte =
      absurd (omega (arith, ap length e, length-append more (a ∷ back)))

  frame-DropsFirst :
      (front back : List ℕ) (a b : ℕ) (rest : List ℕ)
      → frame_bytes f ≡ front ++ (a ∷ back)
      → a ≢ b
      → IsByte b
      → (length front ≢ 0) × (length front ≢ 6) × (length front ≢ 7)
      → DropsFirst (front ++ (b ∷ (back ++ rest)))
  frame-DropsFirst front back a b rest e ne byte inside =
      elim (split_at (body f) (to_le_bytes 2 (crc16 (body f))) front back a e) [
        | inl (more, cut, p) ↦
            subst DropsFirst (sym (regroup more p))
              (scan-altered f front more a b rest fits cut ne byte inside)
        | inr (more, p, sum) ↦
            subst DropsFirst (sym (behind more p))
              (checksum-DropsFirst more back a b rest sum ne byte)
      ]
    where
      regroup :
          (more : List ℕ)
          → back ≡ more ++ to_le_bytes 2 (crc16 (body f))
          → front ++ (b ∷ (back ++ rest)) ≡ received f front more a b rest
      regroup more p =
          let crc = to_le_bytes 2 (crc16 (body f)) in
          ap (λ l. front ++ (b ∷ (l ++ rest))) p
          ∙ ap (λ l. front ++ (b ∷ l)) (append_assoc more crc rest)
          ∙ sym (append_assoc front (b ∷ more) (crc ++ rest))

      behind :
          (more : List ℕ)
          → front ≡ body f ++ more
          → front ++ (b ∷ (back ++ rest)) ≡ body f ++ (more ++ (b ∷ (back ++ rest)))
      behind more p =
          ap (λ l. l ++ (b ∷ (back ++ rest))) p ∙ append_assoc (body f) more (b ∷ (back ++ rest))

-- Of the bytes that `encode` yields for a frame that fits, one of the body or of the checksum, but not
-- the magic byte or one of the length's two, was replaced by another byte: a decoder with an empty buffer
-- counts a bad frame and goes on behind the magic byte, so the altered frame is not handed on, whatever
-- follows it.
pub feed-altered :
    (f : Frame) (front back : List ℕ) (a b : ℕ) (rest : List ℕ) (bad : ℕ)
    → IsRequest f
    → encode f.cmd f.seq f.payload ≡ some (front ++ (a ∷ back))
    → a ≢ b
    → IsByte b
    → (length front ≢ 0) × (length front ≢ 6) × (length front ≢ 7)
    → feed (idle bad) (front ++ (b ∷ (back ++ rest)))
      ≡ feed (idle ((bad + 1) % 2 ^ 64)) (drop 1 (front ++ (b ∷ (back ++ rest))))
feed-altered f front back a b rest bad fits cut ne byte inside =
    let buf = front ++ (b ∷ (back ++ rest)) in
    feed_rejects bad buf (drop 1 buf) (
      frame-DropsFirst f fits front back a b rest (the_bytes (sym (encode_lem f fits) ∙ cut)) ne
        byte inside)
  where
    the_bytes : {xs ys : List ℕ} → some xs ≡ some ys → xs ≡ ys
    the_bytes p = ground arith
