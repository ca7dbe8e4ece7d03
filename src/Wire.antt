-- ===== src/Wire.antt =====
-- crates/studio-core/src/wire.rs: the framed protocol of the firmware. A byte string is a list of
-- numbers; a `u16` keeps its wrap-around in the two bytes that it is written as.
pub mod Cmd
pub mod Status
pub mod Reader
mod Crc
mod Rounds
pub mod Feed
mod RoundTrip
mod Corruption
mod Altered
mod Tests
use Prim.Native.Nat.{bit_xor}
use tuning_tools.Base.{
  ℕ, zero, suc, ◌+◌, ◌/◌, ◌%◌, ◌^◌, Bool, not, ◌||◌, Option, none, some, List, [], ◌∷◌, ◌++◌,
  length, get_or, take, drop, ltb, leb, ◌==◌, if◌then◌else◌, ◌>>=◌,
}
use tuning_tools.Base.Bytes.{to_le_bytes, from_le_bytes}

abbrev pub magic : ℕ
magic = 0xa5

abbrev pub version : ℕ
version = 1

abbrev pub header_len : ℕ
header_len = 8

abbrev pub max_payload : ℕ
max_payload = 256

-- One round of the inner loop of `crc16`.
crc_bit : ℕ → ℕ
crc_bit crc = if crc % 2 == 1 then bit_xor (crc / 2) 0x8408 else crc / 2

-- `for _ in 0..n`.
crc_bits : ℕ → ℕ → ℕ
crc_bits zero crc = crc
crc_bits (suc n) crc = crc_bits n (crc_bit crc)

pub crc_byte : ℕ → ℕ → ℕ
unfolding crc_bits crc_bit
crc_byte crc byte = crc_bits 8 (bit_xor crc byte)

-- The outer loop, from any register.
pub crc_from : ℕ → List ℕ → ℕ
crc_from crc [] = crc
crc_from crc (b ∷ bs) = crc_from (crc_byte crc b) bs

unfoldable pub crc16 : List ℕ → ℕ
unfolding crc_from crc_byte
crc16 bytes = crc_from 0xffff bytes

-- What `encode` puts before the checksum.
unfoldable pub encode_body : ℕ → ℕ → List ℕ → List ℕ
encode_body cmd seq payload =
    magic ∷ version ∷ cmd ∷ 0 ∷ to_le_bytes 2 seq ++ (to_le_bytes 2 (length payload) ++ payload)

-- `none` is the panic of the assertion on the payload's length.
unfoldable pub encode : ℕ → ℕ → List ℕ → Option (List ℕ)
unfolding encode_body
encode cmd seq payload =
    let body = encode_body cmd seq payload in
    if leb (length payload) max_payload then some (body ++ to_le_bytes 2 (crc16 body)) else none

pub record Frame : Type 0 where
  pub cmd : ℕ
  pub seq : ℕ
  pub payload : List ℕ

pub record Decoder : Type 0 where
  pub buf : List ℕ
  pub bad_frames : ℕ

-- `Decoder::default()`.
abbrev pub empty : Decoder
empty = record { buf = []; bad_frames = 0 }

-- The buffer from its first magic byte on; cleared where there is none.
pub from_magic : List ℕ → List ℕ
from_magic [] = []
from_magic (b ∷ bs) = if b == magic then b ∷ bs else from_magic bs

abbrev pub byte_at : List ℕ → ℕ → ℕ
byte_at buf i = get_or buf i 0

abbrev pub u16_at : List ℕ → ℕ → ℕ
u16_at buf i = from_le_bytes (byte_at buf i ∷ byte_at buf (i + 1) ∷ [])

-- How one round of the loop of `feed` ends: it returns and keeps the buffer, it drops the first
-- byte as a bad frame, or it hands a frame on.
pub data Round : Type 0 where
  waits rejects : List ℕ → Round
  delivers : Frame → List ℕ → Round

-- The round behind the search for the magic byte; an empty buffer is the search's failure.
pub scan_at : List ℕ → Round
scan_at [] = waits []
scan_at (b ∷ bs) =
    let buf = b ∷ bs in
    let len = u16_at buf 6 in
    let body = header_len + len in
    let frame : Frame = record {
      cmd = byte_at buf 2;
      seq = u16_at buf 4;
      payload = take len (drop header_len buf);
    } in
    if ltb (length buf) header_len
    then waits buf
    else if not (byte_at buf 1 == version) || ltb max_payload len
    then rejects bs
    else if ltb (length buf) (body + 2)
    then waits buf
    else if not (u16_at buf body == crc16 (take body buf))
    then rejects bs
    else delivers frame (drop (body + 2) buf)

pub scan : List ℕ → Round
unfolding scan_at from_magic
scan buf = scan_at (from_magic buf)

-- A bad frame is counted in a `u64`.
abbrev count_bad : Decoder → List ℕ → Decoder
count_bad d buf = record { buf = buf; bad_frames = (d.bad_frames + 1) % 2 ^ 64 }

abbrev also : Frame → Decoder × List Frame → Decoder × List Frame
also f r = (r.0, f ∷ r.1)

-- The loop of `feed`, with the frames that it hands to `on_frame` in order. `none` is a loop that
-- is still running when its rounds are used up.
pub feed_loop : ℕ → Decoder → Option (Decoder × List Frame)
feed_loop zero d = none
feed_loop (suc n) d = elim (scan d.buf) [
  | waits buf ↦ some (record d { buf = buf }, [])
  | rejects buf ↦ feed_loop n (count_bad d buf)
  | delivers f buf ↦ feed_loop n (record d { buf = buf }) >>= λ r. some (also f r)
]

-- Each round but the last takes a byte at least.
unfoldable pub feed : Decoder → List ℕ → Option (Decoder × List Frame)
unfolding feed_loop scan
feed d bytes = let buf = d.buf ++ bytes in feed_loop (suc (length buf)) (record d { buf = buf })
