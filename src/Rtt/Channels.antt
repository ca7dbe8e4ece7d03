-- ===== src/Rtt/Channels.antt =====
-- crates/studio-carriers/src/rtt.rs: the search for the firmware's control block and its channels, and
-- the two ends that the host keeps on them. A name is its bytes; an instant is its nanoseconds.
use tuning_tools.Base.{
  ℕ, zero, suc, ◌+◌, ◌-◌, ◌*◌, ◌%◌, Bool, true, false, ◌&&◌, ◌||◌, not, Option, none, some, List,
  [], ◌∷◌, length, take, drop, ltb, leb, ◌==◌, same_bytes, position, if◌then◌else◌,
}
use tuning_tools.Base.Bytes.{from_le_bytes}
use tuning_tools.Carrier.{Result, ok, err, MemoryAccess, Step, ◌>>=◌, ◌>>◌, pure}
use tuning_tools.Rtt.{Ring, read_ring, write_ring}
pub mod Attach
pub mod Streams

-- "SEGGER RTT\0".
abbrev pub block_id : List ℕ
block_id = 83 ∷ 69 ∷ 71 ∷ 71 ∷ 69 ∷ 82 ∷ 32 ∷ 82 ∷ 84 ∷ 84 ∷ 0 ∷ []

abbrev pub header_len : ℕ
header_len = 24

abbrev pub descriptor_len : ℕ
descriptor_len = 24

abbrev pub mode_block_if_full : ℕ
mode_block_if_full = 2

-- How often to look for the control block, in nanoseconds.
abbrev pub retry : ℕ
retry = 500000000

pub record Channel : Type 0 where
  pub ring : Ring
  pub name : List ℕ
  pub blocking : Bool

pub data State : Type 0 where
  searching : Option ℕ → State
  attached : Channel → State

pub record RttReader : Type 0 where
  pub address : ℕ
  pub state : State

pub record RttDuplex : Type 0 where
  pub address : ℕ
  pub up_name : List ℕ
  pub down_name : List ℕ
  pub last_try : Option ℕ
  pub rings : Option (Ring × Ring)

unfoldable pub new_reader : ℕ → RttReader
new_reader address = record { address = address; state = searching none }

unfoldable pub new_duplex : ℕ → List ℕ → List ℕ → RttDuplex
new_duplex address up down = record {
  address = address;
  up_name = up;
  down_name = down;
  last_try = none;
  rings = none;
}

unfoldable pub is_attached : RttDuplex → Bool
is_attached d = elim d.rings [ none ↦ false | some rings ↦ true ]

-- A search that lies less than `retry` back keeps the next one away. An earlier instant than the
-- last one counts as no time passed.
unfoldable pub tried_at : Option ℕ → ℕ → Bool
tried_at none now = false
tried_at (some t) now = ltb (now - t) retry

unfoldable pub word_in : List ℕ → ℕ → ℕ
word_in bytes at = from_le_bytes (take 4 (drop at bytes))

-- Steps on a memory, of one that carries its client's state along.
abbrev on_memory : {S M A : Type 0} → Step M A → Step (S × M) A
on_memory s (st, m) = let (r, m') = s m in (r, (st, m'))

abbrev put : {S M : Type 0} → S → Step (S × M) (Unit {0})
put st (old, m) = (ok tt, (st, m))

module _ (c : MemoryAccess) (lossy : List ℕ → List ℕ) where
  open c use {Memory, read}

  -- The text before the first zero byte; `lossy` is `String::from_utf8_lossy`.
  unfoldable pub name_of : Result (List ℕ) → Option (List ℕ)
  name_of (err e) = none
  name_of (ok raw) = elim (position 0 raw) [
    | none ↦ none
    | some stop ↦ if ltb 0 stop then some (lossy (take stop raw)) else none
  ]

  unfoldable pub read_name : ℕ → Memory → Option (List ℕ) × Memory
  unfolding name_of
  read_name address m =
      if address == 0 then (none, m) else (let (raw, m') = read m address 32 in (name_of raw, m'))

  -- The control block's channel counts, when it is initialised.
  unfoldable pub read_header : ℕ → Step Memory (Option (ℕ × ℕ))
  unfolding word_in
  read_header address = do
    header ← λ m. read m address header_len
    let max_up = word_in header 16
    let max_down = word_in header 20
    pure (
        if not (same_bytes (take (length block_id) header) block_id)
          || (max_up == 0 || ltb 255 max_up || ltb 255 max_down)
        then none
        else some (max_up, max_down))

  abbrev is_named : List ℕ → Option (List ℕ) → Bool
  is_named name none = false
  is_named name (some other) = same_bytes other name

  -- The first of `n` descriptors, read from `at`, that has a buffer and the name.
  unfoldable pub find_in : ℕ → List ℕ → ℕ → ℕ → List ℕ → Memory → Option Ring × Memory
  unfolding read_name word_in
  find_in at name i zero table m = (none, m)
  find_in at name i (suc n) table m =
      let buffer = word_in table 4 in
      let size = word_in table 8 in
      let usable = not (buffer == 0) && not (size == 0) in
      let named = if usable then read_name (word_in table 0) m else (none, m) in
      let rest = find_in at name (suc i) n (drop descriptor_len table) named.1 in
      if usable && is_named name named.0
      then (
        some (record { descriptor = at + i * descriptor_len; buffer = buffer; size = size }),
        named.1,
      )
      else rest

  unfoldable pub find_named : ℕ → ℕ → ℕ → List ℕ → Step Memory (Option Ring)
  unfolding find_in
  find_named address first n name = do
    let at = address + header_len + first * descriptor_len
    table ← λ m. read m at (n * descriptor_len)
    λ m. let (found, m') = find_in at name 0 n table m in (ok found, m')

  unfoldable pub find_down : ℕ → List ℕ → ℕ → ℕ → Option Ring → Step Memory (Option (Ring × Ring))
  unfolding find_named
  find_down address name max_up max_down none = pure none
  find_down address name max_up max_down (some up) = do
    found ← find_named address max_up max_down name
    pure (elim found [ none ↦ none | some down ↦ some (up, down) ])

  unfoldable pub find_both :
      ℕ → List ℕ → List ℕ → Option (ℕ × ℕ) → Step Memory (Option (Ring × Ring))
  unfolding find_down
  find_both address up_name down_name none = pure none
  find_both address up_name down_name (some (max_up, max_down)) = do
    found ← find_named address 0 max_up up_name
    find_down address down_name max_up max_down found

  unfoldable pub find_pair : ℕ → List ℕ → List ℕ → Step Memory (Option (Ring × Ring))
  unfolding read_header find_both
  find_pair address up_name down_name = do
    counts ← read_header address
    find_both address up_name down_name counts

  -- The name of up channel 0, "up 0" where it has none.
  abbrev name_or_up : Option (List ℕ) → List ℕ
  name_or_up none = 117 ∷ 112 ∷ 32 ∷ 48 ∷ []
  name_or_up (some name) = name

  unfoldable pub find_channel : ℕ → Step Memory (Option Channel)
  unfolding read_header read_name word_in
  find_channel address = do
    counts ← read_header address
    elim counts [
      | none ↦ pure none
      | some counts ↦ do
        block ← λ m. read m address (header_len + descriptor_len)
        let buffer = word_in block (header_len + 4)
        let size = word_in block (header_len + 8)
        λ m.
            if buffer == 0 || size == 0
            then (ok none, m)
            else (let (name, m') = read_name (word_in block header_len) m in
                (
                  ok (
                      some (record {
                        ring = record {
                          descriptor = address + header_len;
                          buffer = buffer;
                          size = size;
                        };
                        name = name_or_up name;
                        blocking = word_in block (header_len + 20) % 4 == mode_block_if_full;
                      })),
                  m',
                ))
    ]

  -- The channel that the reader is attached to, searched for where it is not.
  unfoldable pub current_channel : ℕ → Step (RttReader × Memory) (Option Channel)
  unfolding tried_at find_channel
  current_channel now (r, m) = elim r.state [
    | attached channel ↦ (ok (some channel), (r, m))
    | searching last_try ↦
        if tried_at last_try now
        then (ok none, (r, m))
        else (do
          put (record r { state = searching (some now) })
          found ← on_memory (find_channel r.address)
          elim found [
            | none ↦ pure none
            | some channel ↦ do put (record r { state = attached channel }); pure (some channel)
          ])
            (r, m)
  ]

  -- `RttReader::read`: the bytes copied into a buffer of `capacity`.
  unfoldable pub reader_read : ℕ → ℕ → Step (RttReader × Memory) (List ℕ)
  unfolding current_channel
  reader_read now capacity = do
    channel ← current_channel now
    elim channel [
      | none ↦ pure []
      | some channel ↦ do
        got ← on_memory (read_ring c channel.ring capacity)
        elim got [
          | some bytes ↦ pure bytes
          | none ↦ λ (r, m). (ok [], (record r { state = searching (some now) }, m))
        ]
    ]

  -- What a search found is kept.
  unfoldable pub keep : RttDuplex → Option (Ring × Ring) → Step (RttDuplex × Memory) Bool
  keep d none = pure false
  keep d (some rings) = do put (record d { rings = some rings }); pure true

  -- `RttDuplex::attach`: look for the channels, at most once per `retry`.
  unfoldable pub attach : ℕ → Step (RttDuplex × Memory) Bool
  unfolding tried_at find_pair is_attached keep
  attach now (d, m) =
      let trying = record d { last_try = some now } in
      if is_attached d
      then (ok true, (d, m))
      else if tried_at d.last_try now
      then (ok false, (d, m))
      else (do
        put trying
        found ← on_memory (find_pair d.address d.up_name d.down_name)
        keep trying found)
          (d, m)

  -- What a ring answers is passed on; `none` detaches the end, which answers `other` then.
  unfoldable pub pass_on : {A : Type 0} → A → Option A → Step (RttDuplex × Memory) A
  pass_on other (some a) s = (ok a, s)
  pass_on other none (d, m) = (ok other, (record d { rings = none }, m))

  unfoldable pub read_up : ℕ → Option (Ring × Ring) → Step (RttDuplex × Memory) (List ℕ)
  unfolding pass_on
  read_up capacity none = pure []
  read_up capacity (some (up, down)) = do got ← on_memory (read_ring c up capacity); pass_on [] got

  -- `RttDuplex::read`.
  unfoldable pub duplex_read : ℕ → Step (RttDuplex × Memory) (List ℕ)
  unfolding read_up
  duplex_read capacity (d, m) = read_up capacity d.rings (d, m)

  unfoldable pub write_down : List ℕ → Option (Ring × Ring) → Step (RttDuplex × Memory) Bool
  unfolding pass_on
  write_down bytes none = pure false
  write_down bytes (some (up, down)) = do
    done ← on_memory (write_ring c down bytes)
    pass_on false done

  -- `RttDuplex::write`.
  unfoldable pub duplex_write : List ℕ → Step (RttDuplex × Memory) Bool
  unfolding write_down
  duplex_write bytes (d, m) = write_down bytes d.rings (d, m)
