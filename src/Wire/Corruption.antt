-- ===== src/Wire/Corruption.antt =====
-- A frame that was changed on its way before its checksum.
use tuning_tools.Base.{
  ◌/◌, subst, All-append_inv, ℕ, ◌+◌, ◌*◌, ◌%◌, ◌≤◌, ◌≡◌, ◌≢◌, refl, sym, ◌∙◌, ap, List, [], ◌∷◌,
  ◌++◌, arith, length, length-append, All, drop, take, take-length, get_or-append, get_or-length,
  get_or-length_add, ==_iff, get_or-replaced, Bool-cases, inl, inr, ◌==◌,
}
use tuning_tools.Base.Bytes.{IsByte, to_le_bytes}
use tuning_tools.Wire.{
  magic, version, byte_at, u16_at, crc16, Frame, rejects, scan_at, scan, from_magic,
}
use tuning_tools.Wire.Crc.{crc16-lt, crc16-detects}
use tuning_tools.Wire.RoundTrip.{
  length-encode_body, u16_at-body, byte_at-body, IsRequest, body, encode_body-IsByte, scan_at_whole,
}

scan_at_other_version :
    (buf : List ℕ) → 8 ≤ length buf → byte_at buf 1 ≢ version → scan_at buf ≡ rejects (drop 1 buf)
unfolding scan_at
scan_at_other_version [] h ne = absurd (omega arith)
scan_at_other_version (b ∷ bs) h ne = ground arith

pub from_magic_id : (xs : List ℕ) → byte_at xs 0 ≡ magic → from_magic xs ≡ xs
unfolding from_magic
from_magic_id [] h = refl
from_magic_id (b ∷ bs) h = ground arith

-- A whole frame whose checksum is not that of what stands before it.
scan_at_unsealed :
    (xs : List ℕ) (n lo hi : ℕ) (rest : List ℕ)
    → length xs ≡ 8 + n
    → u16_at xs 6 ≡ n
    → n ≤ 256
    → lo + 256 * hi ≢ crc16 xs
    → scan_at (xs ++ (lo ∷ hi ∷ rest)) ≡ rejects (drop 1 (xs ++ (lo ∷ hi ∷ rest)))
scan_at_unsealed xs n lo hi rest len field small ne = elim (Bool-cases (byte_at buf 1 == version)) [
  | inl same ↦
      scan_at_whole buf n ((==_iff _ version).0 same) field' small fits
      ∙ rw (sum, front) (ground arith)
  | inr other ↦ scan_at_other_version buf (omega (arith, fits)) (ground arith)
]
  where
    buf : List ℕ
    buf = xs ++ (lo ∷ hi ∷ rest)

    fits : 8 + n + 2 ≤ length buf
    fits = omega (arith, length-append xs (lo ∷ hi ∷ rest))

    field' : u16_at buf 6 ≡ n
    field' =
        omega (arith, get_or-append xs (lo ∷ hi ∷ rest) 6 0, get_or-append xs (lo ∷ hi ∷ rest) 7 0)

    sum : u16_at buf (8 + n) ≡ lo + 256 * hi
    sum = rw (← len) (
        omega
          (arith, get_or-length xs (lo ∷ hi ∷ rest) 0, get_or-length_add xs (lo ∷ hi ∷ rest) 1 0))

    front : take (8 + n) buf ≡ xs
    front = rw (← len) (take-length xs (lo ∷ hi ∷ rest))

-- The body of a frame with one byte other than its magic byte and its length replaced, and what
-- follows: the frame's own checksum, and `rest`.
module _ (f : Frame) (front back : List ℕ) (a b : ℕ) (rest : List ℕ) where
  abbrev pub altered : List ℕ
  altered = front ++ (b ∷ back)

  abbrev pub received : List ℕ
  received = altered ++ (to_le_bytes 2 (crc16 (body f)) ++ rest)

  module _ (fits : IsRequest f) (cut : body f ≡ front ++ (a ∷ back)) (ne : a ≢ b) (byte : IsByte b)
      (inside : (length front ≢ 0) × (length front ≢ 6) × (length front ≢ 7)) where
    length-altered : length altered ≡ 8 + length f.payload
    length-altered = omega (
      arith,
      length-append front (a ∷ back),
      length-append front (b ∷ back),
      ap (λ (t : List ℕ). length t) cut,
      length-encode_body f,
    )

    byte_at-altered : (i : ℕ) → i ≢ length front → byte_at altered i ≡ byte_at (body f) i
    byte_at-altered i h = rw cut (sym (get_or-replaced front back a b i 0 h))

    u16_at-altered : u16_at altered 6 ≡ length f.payload
    u16_at-altered = omega (
      arith,
      byte_at-altered 6 (λ e. inside.1 (sym e)),
      byte_at-altered 7 (λ e. inside.2 (sym e)),
      u16_at-body f fits.2,
    )

    bytes-altered : All IsByte (front ++ (a ∷ back))
    bytes-altered = subst (All IsByte) cut (encode_body-IsByte f fits)

    crc-altered : crc16 (body f) ≢ crc16 altered
    crc-altered e =
        let (before, behind) = All-append_inv IsByte front (a ∷ back) bytes-altered in
        crc16-detects front back a b before behind.1 behind.0 byte ne (rw cut at e)

    scan_at-altered : scan_at received ≡ rejects (drop 1 received)
    scan_at-altered =
        let crc = crc16 (body f) in
        let small = crc16-lt (body f) (encode_body-IsByte f fits) in
        scan_at_unsealed altered (length f.payload) (crc % 256) (crc / 256 % 256) rest
          length-altered u16_at-altered fits.2 (λ e. crc-altered (omega (arith, small, e)))

    pub scan-altered : scan received ≡ rejects (drop 1 received)
    unfolding scan
    scan-altered =
        let zeroth = byte_at-altered 0 (λ e. inside.0 (sym e)) in
        let whole : from_magic received ≡ received = from_magic_id received (
          omega (
            arith,
            get_or-append altered (to_le_bytes 2 (crc16 (body f)) ++ rest) 0 0
                (omega (arith, length-altered)),
            zeroth,
            byte_at-body f,
          )) in
        rw whole scan_at-altered
