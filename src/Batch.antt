-- ===== src/Batch.antt =====
-- crates/studio-core/src/frame.rs: sample batches and their binary frames. An `f64` is its 64 bits,
-- the number that `to_le_bytes` writes; nothing here computes with a value.
mod Rows
mod Code
mod Flush
pub mod Builder
mod Tests
use tuning_tools.Base.{
  ℕ, zero, suc, ◌+◌, ◌*◌, Option, none, some, List, [], ◌∷◌, ◌++◌, length, get_elem?, take, drop,
  ltb, ◌==◌, not, if◌then◌else◌, ◌>>=◌,
}
use tuning_tools.Base.Bytes.{to_le_bytes, from_le_bytes}

-- `u32::from_le_bytes(*b"TTS1")`.
abbrev pub magic : ℕ
magic = 0x31535454

pub record FrameBuilder : Type 0 where
  pub ids : List ℕ
  pub times : List ℕ
  pub values : List ℕ

pub record SampleBatch : Type 0 where
  pub ids : List ℕ
  pub times : List ℕ
  pub values : List ℕ

unfoldable pub reset : FrameBuilder → List ℕ → FrameBuilder
reset b ids = record { ids = ids; times = []; values = [] }

-- `none` is the panic of the debug assertion on the row's length.
unfoldable pub push : FrameBuilder → ℕ → List ℕ → Option FrameBuilder
push b time row =
    if length row == length b.ids
    then some (record b { times = b.times ++ (time ∷ []); values = b.values ++ row })
    else none

-- The batch, if any tick is pending, and the builder left.
take_batch : List ℕ → FrameBuilder → Option SampleBatch × FrameBuilder
take_batch [] b = (none, b)
take_batch (t ∷ ts) b = (
  some (record { ids = b.ids; times = b.times; values = b.values }),
  record b { times = []; values = [] },
)

unfoldable pub take_pending : FrameBuilder → Option SampleBatch × FrameBuilder
unfolding take_batch
take_pending b = take_batch b.times b

-- `(start..start + n).map(f)`, collected: `none` as soon as one is `none`.
pub collect {ℓ} : {A : Type ℓ} → ℕ → ℕ → (ℕ → Option A) → Option (List A)
collect start zero f = some []
collect start (suc n) f = f start >>= λ a. collect (suc start) n f >>= λ rest. some (a ∷ rest)

-- The slice `at..at + n` of a list, if it lies inside.
abbrev pub slice : List ℕ → ℕ → ℕ → Option (List ℕ)
slice xs at n = if ltb (length xs) (at + n) then none else some (take n (drop at xs))

-- The values of tick `row`; `none` is an index out of bounds.
unfoldable pub row : SampleBatch → ℕ → Option (List ℕ)
row b r = slice b.values (r * length b.ids) (length b.ids)

-- Column `col` over every tick.
unfoldable pub column : SampleBatch → ℕ → Option (List ℕ)
unfolding collect
column b col = collect 0 (length b.times) (λ r. get_elem? b.values (r * length b.ids + col))

-- The bytes of a list of `f64`.
abbrev pub words : List ℕ → List ℕ
words [] = []
words (v ∷ vs) = to_le_bytes 8 v ++ words vs

-- The columns from the `col`th on.
encode_columns : SampleBatch → ℕ → List ℕ → Option (List ℕ)
unfolding column
encode_columns b col [] = some []
encode_columns b col (id ∷ ids) = column b col >>= λ vs. encode_columns b (suc col) ids >>= λ rest.
    some (to_le_bytes 4 id ++ (to_le_bytes 4 0 ++ (words vs ++ rest)))

abbrev pub header : ℕ → ℕ → List ℕ
header n c = to_le_bytes 4 magic ++ (to_le_bytes 4 n ++ (to_le_bytes 4 c ++ to_le_bytes 4 0))

unfoldable pub encode : SampleBatch → Option (List ℕ)
unfolding encode_columns
encode b = encode_columns b 0 b.ids >>= λ columns.
    some (header (length b.times) (length b.ids) ++ (words b.times ++ columns))

-- The encoded batch, if any tick is pending; the outer `none` is a panic of `encode`.
encoded : Option SampleBatch → Option (Option (List ℕ))
encoded none = some none
encoded (some batch) = encode batch >>= λ bytes. some (some bytes)

unfoldable pub flush : FrameBuilder → Option (Option (List ℕ)) × FrameBuilder
unfolding encoded
flush b = let (batch, left) = take_pending b in (encoded batch, left)

pub record DecodedFrame : Type 0 where
  pub times : List ℕ
  pub columns : List (ℕ × List ℕ)

-- The word of `n` bytes at an offset.
word_at : ℕ → List ℕ → ℕ → Option ℕ
word_at n bytes at = slice bytes at n >>= λ b. some (from_le_bytes b)

-- The columns of `n` ticks from the offset `at` on.
decode_columns : ℕ → List ℕ → ℕ → ℕ → Option (List (ℕ × List ℕ))
unfolding word_at collect
decode_columns zero bytes n at = some []
decode_columns (suc c) bytes n at = word_at 4 bytes at >>= λ id.
    collect 0 n (λ i. word_at 8 bytes (at + 8 + 8 * i)) >>= λ values.
    decode_columns c bytes n (at + 8 + 8 * n) >>= λ rest. some ((id, values) ∷ rest)

unfoldable pub decode : List ℕ → Option DecodedFrame
unfolding decode_columns
decode bytes = word_at 4 bytes 0 >>= λ m.
    if not (m == magic)
    then none
    else word_at 4 bytes 4 >>= λ n. word_at 4 bytes 8 >>= λ c.
        collect 0 n (λ i. word_at 8 bytes (16 + 8 * i)) >>= λ times.
        decode_columns c bytes n (16 + 8 * n) >>= λ columns.
        some (record { times = times; columns = columns })
