-- ===== src/Rtt.antt =====
-- crates/studio-carriers/src/rtt.rs: the rings of the firmware's RTT control block, read and written
-- through target memory. A step on memory takes the memory and passes it on, with an error or a
-- result.
pub mod Channels
pub mod Pending
pub mod ReadRing
mod WriteRing
mod Tests
use tuning_tools.Base.{
  ℕ, ◌+◌, ◌-◌, ◌%◌, ◌^◌, Bool, true, false, ◌&&◌, ◌||◌, Option, none, some, List, [], ◌∷◌, ◌++◌,
  length, take, drop, min, ltb, leb, ◌==◌, if◌then◌else◌,
}
use tuning_tools.Base.Bytes.{to_le_bytes, from_le_bytes}
use tuning_tools.Carrier.{ok, MemoryAccess, Step, ◌>>=◌, ◌>>◌, pure}

abbrev pub wr_off : ℕ
wr_off = 12

abbrev pub rd_off : ℕ
rd_off = 16

-- One channel's ring buffer, located by its descriptor.
pub record Ring : Type 0 where
  pub descriptor : ℕ
  pub buffer : ℕ
  pub size : ℕ

module _ (c : MemoryAccess) (ring : Ring) where
  open c use {Memory, read, write}
  open ring use {descriptor, buffer, size}

  -- The write and the read offset; `none` where one is out of range.
  unfoldable pub offsets : Step Memory (Option (ℕ × ℕ))
  offsets = do
    bytes ← λ m. read m (descriptor + wr_off) 8
    let w = from_le_bytes (take 4 bytes)
    let r = from_le_bytes (drop 4 bytes)
    pure (if leb size w || leb size r then none else some (w, r))

  advance : ℕ → ℕ → Step Memory (Unit {0})
  advance at next m = write m (descriptor + at) (to_le_bytes 4 next)

  -- The second part of a read, where the ring wraps: the first `head` bytes of the buffer.
  read_head : ℕ → Step Memory (List ℕ)
  read_head head m = if ltb 0 head then read m buffer head else (ok [], m)

  read_pending : ℕ → ℕ → ℕ → Step Memory (Option (List ℕ))
  unfolding advance read_head
  read_pending capacity w r = if w == r then pure (some []) else do
    let tail = if ltb r w then w - r else size - r
    let len = min tail capacity
    first ← λ m. read m (buffer + r) len
    let head = if ltb w r && len == tail then min w (capacity - len) else 0
    rest ← read_head head
    advance rd_off ((r + (len + head)) % size % 2 ^ 32)
    pure (some (first ++ rest))

  -- `Ring::read` into a buffer of `capacity` bytes: the bytes copied. `none` where the offsets are
  -- out of range.
  unfoldable pub read_ring : ℕ → Step Memory (Option (List ℕ))
  unfolding offsets read_pending
  read_ring capacity = do
    found ← offsets
    elim found [ none ↦ pure none | some (w, r) ↦ read_pending capacity w r ]

  -- The second part of a write, where the ring wraps.
  write_rest : List ℕ → Step Memory (Unit {0})
  write_rest [] m = (ok tt, m)
  write_rest (b ∷ bs) m = write m buffer (b ∷ bs)

  write_pending : List ℕ → ℕ → ℕ → Step Memory (Option Bool)
  unfolding advance write_rest
  write_pending bytes w r =
      let free = if ltb w r then r - w - 1 else size - w + r - 1 in
      let cut = min (length bytes) (size - w) in
      if ltb free (length bytes) then pure (some false) else do
        λ m. write m (buffer + w) (take cut bytes)
        write_rest (drop cut bytes)
        advance wr_off ((w + length bytes) % size % 2 ^ 32)
        pure (some true)

  -- `Ring::write`: all of the bytes, or none where they do not fit.
  unfoldable pub write_ring : List ℕ → Step Memory (Option Bool)
  unfolding offsets write_pending
  write_ring bytes = do
    found ← offsets
    elim found [ none ↦ pure none | some (w, r) ↦ write_pending bytes w r ]
