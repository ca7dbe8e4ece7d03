-- ===== src/Wire/Reader.antt =====
-- crates/studio-core/src/wire.rs: `Reader`, which reads a payload front to back, and `slot`. A reader
-- is the bytes that it has left; a read that answers `none` leaves them as they were.
use tuning_tools.Base.{
  ℕ, ◌^◌, ◌<◌, ◌≡◌, Option, none, some, List, ◌∷◌, ◌++◌, arith, length, take, drop, length-append,
  take-length, drop-length, ltb, if◌then◌else◌, ◌>>=◌,
}
use tuning_tools.Base.Bytes.{
  to_le_bytes, from_le_bytes, length-to_le_bytes, from_le_bytes-to_le_bytes,
}

abbrev pub Reads : Type 0 → Type 0
Reads A = List ℕ → Option (A × List ℕ)

pub remaining : List ℕ → ℕ
remaining bytes = length bytes

-- `take::<N>` and `bytes(n)`: the first `n` bytes, or `none` where there are fewer.
unfoldable pub read_bytes : ℕ → Reads (List ℕ)
read_bytes n bytes = if ltb (length bytes) n then none else some (take n bytes, drop n bytes)

-- A little-endian word of `n` bytes.
unfoldable pub read_word : ℕ → Reads ℕ
read_word n bytes = read_bytes n bytes >>= λ r. some (from_le_bytes r.0, r.1)

unfoldable pub read_u8 : Reads ℕ
read_u8 = read_word 1

unfoldable pub read_u16 : Reads ℕ
read_u16 = read_word 2

unfoldable pub read_u32 : Reads ℕ
read_u32 = read_word 4

unfoldable pub read_u64 : Reads ℕ
read_u64 = read_word 8

-- A length-prefixed text. `lossy` is `String::from_utf8_lossy`. Where the bytes are cut short, the
-- length stays consumed: the second part is what the reader has left.
unfoldable pub read_text : (List ℕ → List ℕ) → List ℕ → Option (List ℕ) × List ℕ
read_text lossy bytes = elim (read_u8 bytes) [
  | none ↦ (none, bytes)
  | some (n, rest) ↦ elim (read_bytes n rest) [
    | none ↦ (none, rest)
    | some (text, left) ↦ (some (lossy text), left)
  ]
]

-- An 8-byte value slot: type tag, three reserved bytes, bits.
unfoldable pub slot : ℕ → ℕ → List ℕ
slot tag bits = tag ∷ 0 ∷ 0 ∷ 0 ∷ to_le_bytes 4 bits

pub read_bytes-append :
    (n : ℕ) (xs ys : List ℕ) → length xs ≡ n → read_bytes n (xs ++ ys) ≡ some (xs, ys)
unfolding read_bytes
read_bytes-append n xs ys e =
    rw (← e) (ground (arith, length-append xs ys, take-length xs ys, drop-length xs ys))

pub read_word-to_le_bytes :
    (n x : ℕ) (rest : List ℕ) → x < 256 ^ n → read_word n (to_le_bytes n x ++ rest) ≡ some (x, rest)
unfolding read_word
read_word-to_le_bytes n x rest h =
    rw (read_bytes-append n (to_le_bytes n x) rest (length-to_le_bytes n x))
      (rw (from_le_bytes-to_le_bytes n x h))
