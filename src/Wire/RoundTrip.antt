-- ===== src/Wire/RoundTrip.antt =====
-- What `encode` writes is what `feed` reads.
use tuning_tools.Base.{
  ◌↔◌, if◌then◌else◌, ◌==◌, ℕ, ◌+◌, ◌*◌, ◌/◌, ◌%◌, ◌^◌, ◌≤◌, ◌<◌, ◌≡◌, ◌≢◌, refl, ◌∙◌, ap, Option,
  none, some, List, [], ◌∷◌, ◌++◌, arith, length, length-append, append_assoc, All, All-append,
  take, drop, take-length, drop-length, drop-length_add, map, get_or-length, get_or-length_add,
  ◌>>=◌,
}
use tuning_tools.Base.Bytes.{IsByte, to_le_bytes, to_le_bytes-IsByte}
use tuning_tools.Wire.{
  magic, version, byte_at, u16_at, crc16, encode_body, encode, Frame, waits, rejects, delivers,
  from_magic, scan_at, scan, feed,
}
use tuning_tools.Wire.Feed.{idle, also_first, feed_delivers, feed_waits}
use tuning_tools.Wire.Crc.{crc16-lt}

abbrev pub IsRequest : Frame → Type 0
IsRequest f = (f.cmd < 256) × (f.seq < 2 ^ 16) × (length f.payload ≤ 256) × All IsByte f.payload

-- The bytes of a frame that fits.
abbrev pub frame_bytes : Frame → List ℕ
frame_bytes f = let body = encode_body f.cmd f.seq f.payload in body ++ to_le_bytes 2 (crc16 body)

pub encode_lem : (f : Frame) → IsRequest f → encode f.cmd f.seq f.payload ≡ some (frame_bytes f)
unfolding encode
encode_lem f h = ground arith

pub encode_body-IsByte : (f : Frame) → IsRequest f → All IsByte (encode_body f.cmd f.seq f.payload)
unfolding encode_body
encode_body-IsByte f h =
    let n = length f.payload in
    let tail = to_le_bytes 2 n ++ f.payload in
    let head : All IsByte (magic ∷ version ∷ f.cmd ∷ 0 ∷ []) = omega arith in
    All-append IsByte (magic ∷ version ∷ f.cmd ∷ 0 ∷ []) (to_le_bytes 2 f.seq ++ tail) head (
      All-append IsByte (to_le_bytes 2 f.seq) tail (to_le_bytes-IsByte 2 f.seq)
        (All-append IsByte (to_le_bytes 2 n) f.payload (to_le_bytes-IsByte 2 n) h.3))

pub length-encode_body :
    (f : Frame) → length (encode_body f.cmd f.seq f.payload) ≡ 8 + length f.payload
unfolding encode_body
length-encode_body f = omega arith

abbrev pub body : Frame → List ℕ
body f = encode_body f.cmd f.seq f.payload

pub u16_at-body : (f : Frame) → length f.payload ≤ 256 → u16_at (body f) 6 ≡ length f.payload
unfolding encode_body
u16_at-body f h = omega arith

pub byte_at-body : (f : Frame) → byte_at (body f) 0 ≡ magic
unfolding encode_body
byte_at-body f = refl

-- What a round reads of a buffer that begins with the body of a frame.
module _ (f : Frame) (tail : List ℕ) where
  byte_at-version : byte_at (body f ++ tail) 1 ≡ version
  unfolding encode_body
  byte_at-version = refl

  byte_at-cmd : byte_at (body f ++ tail) 2 ≡ f.cmd
  unfolding encode_body
  byte_at-cmd = refl

  u16_at-seq : f.seq < 2 ^ 16 → u16_at (body f ++ tail) 4 ≡ f.seq
  unfolding encode_body
  u16_at-seq h = omega arith

  u16_at-length : length f.payload ≤ 256 → u16_at (body f ++ tail) 6 ≡ length f.payload
  unfolding encode_body
  u16_at-length h = omega arith

  take-payload : take (length f.payload) (drop 8 (body f ++ tail)) ≡ f.payload
  unfolding encode_body
  take-payload = take-length f.payload tail

  length-body : length (body f) ≡ 8 + length f.payload
  length-body = length-encode_body f

  take-body : take (8 + length f.payload) (body f ++ tail) ≡ body f
  take-body = rw (← length-body) (take-length (body f) tail)

  drop-body : drop (8 + length f.payload) (body f ++ tail) ≡ tail
  drop-body = rw (← length-body) (drop-length (body f) tail)

  byte_at-tail : byte_at (body f ++ tail) (8 + length f.payload) ≡ byte_at tail 0
  byte_at-tail = rw (← length-body) (get_or-length (body f) tail 0)

  byte_at-tail_add : (i : ℕ) → byte_at (body f ++ tail) (8 + length f.payload + i) ≡ byte_at tail i
  byte_at-tail_add i = rw (← length-body) (get_or-length_add (body f) tail i 0)

-- A round over a buffer that holds a whole frame.
pub scan_at_whole :
    (buf : List ℕ) (len : ℕ)
    → byte_at buf 1 ≡ version
    → u16_at buf 6 ≡ len
    → len ≤ 256
    → 8 + len + 2 ≤ length buf
    → scan_at buf ≡ (
        if u16_at buf (8 + len) == crc16 (take (8 + len) buf)
        then delivers
            (record { cmd = byte_at buf 2; seq = u16_at buf 4; payload = take len (drop 8 buf) })
            (drop (8 + len + 2) buf)
        else rejects (drop 1 buf))
unfolding scan_at
scan_at_whole [] len e1 e2 h1 h2 = absurd (omega arith)
scan_at_whole (b ∷ bs) len e1 e2 h1 h2 = ground arith

-- A round over a body and two bytes behind it compares them with the body's checksum.
pub scan_at-sealed :
    (f : Frame) (lo hi : ℕ) (rest : List ℕ)
    → IsRequest f
    → scan_at (encode_body f.cmd f.seq f.payload ++ (lo ∷ hi ∷ rest)) ≡ (
        if lo + 256 * hi == crc16 (encode_body f.cmd f.seq f.payload)
        then delivers f rest
        else rejects (drop 1 (encode_body f.cmd f.seq f.payload ++ (lo ∷ hi ∷ rest))))
scan_at-sealed f lo hi rest h =
    scan_at_whole (body f ++ tail) n (byte_at-version f tail) (u16_at-length f tail h.2) h.2 fits
    ∙ rw (
      sum,
      take-body f tail,
      byte_at-cmd f tail,
      u16_at-seq f tail h.1,
      take-payload f tail,
      behind,
    )
  where
    n : ℕ
    n = length f.payload

    tail : List ℕ
    tail = lo ∷ hi ∷ rest

    fits : 8 + n + 2 ≤ length (body f ++ tail)
    fits = omega (arith, length-append (body f) tail, length-body f tail)

    sum : u16_at (body f ++ tail) (8 + n) ≡ lo + 256 * hi
    sum = omega (arith, byte_at-tail f tail, byte_at-tail_add f tail 1)

    behind : drop (8 + n + 2) (body f ++ tail) ≡ rest
    behind = rw (← length-body f tail) (drop-length_add (body f) tail 2)

scan-sealed :
    (f : Frame) (lo hi : ℕ) (rest : List ℕ)
    → scan (body f ++ (lo ∷ hi ∷ rest)) ≡ scan_at (body f ++ (lo ∷ hi ∷ rest))
unfolding scan from_magic encode_body
scan-sealed f lo hi rest = refl

-- A frame and its own checksum are handed on whole.
scan-frame :
    (f : Frame) (rest : List ℕ) → IsRequest f → scan (frame_bytes f ++ rest) ≡ delivers f rest
scan-frame f rest h = rw append_assoc (
    scan-sealed f _ _ rest
    ∙ scan_at-sealed f (crc % 256) (crc / 256 % 256) rest h
    ∙ ground (arith, crc16-lt (body f) (encode_body-IsByte f h)))
  where
    crc : ℕ
    crc = crc16 (body f)

-- Bytes of line noise, none of them the magic byte.
abbrev pub IsNoise : List ℕ → Type 0
IsNoise = All (λ b. b ≢ magic)

scan-noise : (noise xs : List ℕ) → IsNoise noise → scan (noise ++ xs) ≡ scan xs
unfolding scan from_magic
scan-noise [] xs h = refl
scan-noise (b ∷ bs) xs h = ground (arith, h.0, scan-noise bs xs h.1)

-- What a firmware sends: frames, with noise in front of each.
unfoldable pub encode_all : List (List ℕ × Frame) → Option (List ℕ)
encode_all [] = some []
encode_all ((noise, f) ∷ fs) = encode f.cmd f.seq f.payload >>= λ bytes.
    encode_all fs >>= λ rest. some (noise ++ (bytes ++ rest))

abbrev pub AllSent : List (List ℕ × Frame) → Type 0
AllSent = All (λ p. IsNoise p.0 × IsRequest p.1)

scan-nil : scan [] ≡ waits []
unfolding scan from_magic scan_at
scan-nil = refl

-- Each of these streams encodes, and decodes to its frames.
feed-encode_all :
    (fs : List (List ℕ × Frame))
    → AllSent fs
    → (bytes : List ℕ) × (encode_all fs ≡ some bytes)
      × ((bad : ℕ) → feed (idle bad) bytes ≡ some (idle bad, map (λ p. p.1) fs))
unfolding encode_all
feed-encode_all [] h = ([], refl, λ bad. feed_waits bad [] [] scan-nil)
feed-encode_all ((noise, f) ∷ fs) ((quiet, fits), more) =
    let (rest, p, q) = feed-encode_all fs more in
    let bytes = noise ++ (frame_bytes f ++ rest) in
    let first = scan-noise noise (frame_bytes f ++ rest) quiet ∙ scan-frame f rest fits in
    (
      bytes,
      rw (encode_lem f fits, p),
      λ bad. feed_delivers bad bytes f rest first ∙ ap (also_first f) (q bad),
    )

-- Frames whose fields are a byte, a `u16` and up to 256 bytes, each encoded and with noise free of
-- the magic byte in front, are handed on by a decoder with an empty buffer: all of them, in their
-- order and unchanged. It counts no bad frame, and its buffer is empty again.
pub feed-encode :
    (bad : ℕ) (fs : List (List ℕ × Frame)) (bytes : List ℕ)
    → AllSent fs
    → encode_all fs ≡ some bytes
    → feed (idle bad) bytes ≡ some (idle bad, map (λ p. p.1) fs)
feed-encode bad fs bytes h e =
    let (sent, p, q) = feed-encode_all fs h in let same : sent ≡ bytes = cc in rw same at (q bad)

-- `encode` panics on a payload of more than 256 bytes, and on no other.
pub encode-none :
    (cmd seq : ℕ) (payload : List ℕ) → (encode cmd seq payload ≡ none) ↔ (256 < length payload)
unfolding encode
encode-none cmd seq payload = (λ e. ground arith, λ h. ground arith)
