-- ===== src/ReadPlan.antt =====
-- crates/studio-core/src/plan.rs: watched values coalesced into few memory reads, and decoded from
-- them. What a value is as an `f64` is kept as the number or the bits that the source converts.
mod Order
pub mod Slots
mod Limits
pub mod Row
mod Tests
use tuning_tools.Base.{
  ℕ, zero, suc, ◌+◌, ◌-◌, ◌*◌, ◌/◌, ◌%◌, ◌^◌, max, Bool, true, false, ◌&&◌, ◌||◌, Option, none,
  some, List, [], ◌∷◌, ◌++◌, length, get_or, set, take, drop, replicate, ltb, leb, ◌==◌,
  if◌then◌else◌,
}
use tuning_tools.Base.Bytes.{from_le_bytes}
use tuning_tools.Carrier.{CarrierError, Result, ok, err, MemoryAccess}

pub data VariableType : Type 0 where
  u8 u16 u32 u64 i8 i16 i32 i64 f32 f64 bool : VariableType
  raw : ℕ → VariableType

pub record ReadItem : Type 0 where
  pub id : ℕ
  pub address : ℕ
  pub scalar : VariableType
  pub bit_offset : Option ℕ
  pub bit_size : Option ℕ

abbrev pub default_gap : ℕ
default_gap = 64

abbrev pub default_max_len : ℕ
default_max_len = 512

unfoldable pub scalar_len : VariableType → Option ℕ
scalar_len u8 = some 1
scalar_len i8 = some 1
scalar_len bool = some 1
scalar_len u16 = some 2
scalar_len i16 = some 2
scalar_len u32 = some 4
scalar_len i32 = some 4
scalar_len f32 = some 4
scalar_len u64 = some 8
scalar_len i64 = some 8
scalar_len f64 = some 8
scalar_len (raw n) = none

-- Where a value that is no bitfield lies.
scalar_span : ℕ → Option ℕ → Option (ℕ × ℕ)
scalar_span address none = none
scalar_span address (some len) = some (address, len)

-- The bytes that a value occupies, by its start and its length.
unfoldable pub span : ReadItem → Option (ℕ × ℕ)
unfolding scalar_len scalar_span
span item = elim item.bit_offset [
  | none ↦ scalar_span item.address (scalar_len item.scalar)
  | some bit ↦ elim item.bit_size [
    | none ↦ scalar_span item.address (scalar_len item.scalar)
    | some bits ↦
        if ltb 0 bits
        then some (item.address + bit / 8, (bit % 8 + bits + 7) / 8)
        else scalar_span item.address (scalar_len item.scalar)
  ]
]

pub record Region : Type 0 where
  pub address : ℕ
  pub len : ℕ

pub record Slot : Type 0 where
  pub region : ℕ
  pub offset : ℕ
  pub len : ℕ

pub record ReadPlan : Type 0 where
  pub items : List ReadItem
  pub slots : List (Option Slot)
  pub regions : List Region

-- An item's number and span.
pub record Entry : Type 0 where
  pub index : ℕ
  pub start : ℕ
  pub len : ℕ

abbrev pub entry_of : ℕ → Option (ℕ × ℕ) → List Entry → List Entry
entry_of i none es = es
entry_of i (some (start, len)) es = record { index = i; start = start; len = len } ∷ es

-- The spans of the items, numbered from `i` on.
pub entries : ℕ → List ReadItem → List Entry
unfolding span
entries i [] = []
entries i (item ∷ items) = entry_of i (span item) (entries (suc i) items)

-- `sort_by_key` by the start and the length, which keeps the order of equal keys.
abbrev not_behind : Entry → Entry → Bool
not_behind e x = ltb e.start x.start || (e.start == x.start && leb e.len x.len)

pub insert : Entry → List Entry → List Entry
insert e [] = e ∷ []
insert e (x ∷ xs) = let rest = insert e xs in if not_behind e x then e ∷ x ∷ xs else x ∷ rest

pub sort : List Entry → List Entry
unfolding insert
sort [] = []
sort (e ∷ es) = insert e (sort es)

-- The regions and the slots behind a part of the loop.
pub record Building : Type 0 where
  pub regions : List Region
  pub slots : List (Option Slot)

abbrev pub no_region : Region
no_region = record { address = 0; len = 0 }

abbrev pub last_of : List Region → Region
last_of regions = get_or regions (length regions - 1) no_region

-- The last region, grown to hold the entry's end.
abbrev pub grown : Region → Entry → Region
grown r e = record {
  address = r.address;
  len = max (e.start + e.len) (r.address + r.len) - r.address;
}

pub merges : ℕ → ℕ → List Region → Entry → Bool
merges gap max_len regions e =
    let r = last_of regions in
    ltb 0 (length regions) && (leb e.start (r.address + r.len + gap) && leb (grown r e).len max_len)

pub regions_with : ℕ → ℕ → List Region → Entry → List Region
unfolding merges
regions_with gap max_len regions e =
    if merges gap max_len regions e
    then set regions (length regions - 1) (grown (last_of regions) e)
    else regions ++ (record { address = e.start; len = e.len } ∷ [])

-- One round of the loop of `with_limits`.
pub place : ℕ → ℕ → Building → Entry → Building
unfolding regions_with
place gap max_len b e =
    let regions = regions_with gap max_len b.regions e in
    record {
      regions = regions;
      slots = set b.slots e.index (
          some (record {
            region = length regions - 1;
            offset = e.start - (last_of regions).address;
            len = e.len;
          }));
    }

pub place_all : ℕ → ℕ → Building → List Entry → Building
unfolding place
place_all gap max_len b [] = b
place_all gap max_len b (e ∷ es) = place_all gap max_len (place gap max_len b e) es

-- The buffer, which only spares allocations, is left out.
unfoldable pub with_limits : List ReadItem → ℕ → ℕ → ReadPlan
unfolding entries sort place_all
with_limits items gap max_len =
    let empty : Building = record { regions = []; slots = replicate (length items) none } in
    let b = place_all gap max_len empty (sort (entries 0 items)) in
    record { items = items; slots = b.slots; regions = b.regions }

unfoldable pub new : List ReadItem → ReadPlan
unfolding with_limits
new items = with_limits items default_gap default_max_len

-- A sampled `f64`: not a number, a number or its negative converted, or the bits of a float.
pub data Value : Type 0 where
  nan : Value
  natural negative float32 float64 : ℕ → Value

-- The value of a two's complement integer of `w` bits.
abbrev signed_value : ℕ → ℕ → Value
signed_value w n = if ltb n (2 ^ (w - 1)) then Value.natural n else Value.negative (2 ^ w - n)

abbrev is_signed : VariableType → Bool
is_signed i8 = true
is_signed i16 = true
is_signed i32 = true
is_signed i64 = true
is_signed t = false

-- A field of `bits` bits from `bit` on. A field of 63 bits with its sign set overflows an `i64` on
-- the way, and wraps to the value that stands here; of 64 bits, it is taken as unsigned.
unfoldable pub decode_field : VariableType → ℕ → ℕ → List ℕ → Value
decode_field scalar bit bits bytes =
    let field = from_le_bytes bytes / 2 ^ (bit % 8) % 2 ^ bits in
    if bits == 0 || ltb 64 bits
    then Value.nan
    else if is_signed scalar && ltb bits 64
    then signed_value bits field
    else Value.natural field

-- `word` is the little-endian number of the scalar's bytes.
unfoldable pub decode_word : VariableType → ℕ → Value
decode_word i8 word = signed_value 8 word
decode_word i16 word = signed_value 16 word
decode_word i32 word = signed_value 32 word
decode_word i64 word = signed_value 64 word
decode_word u8 word = Value.natural word
decode_word u16 word = Value.natural word
decode_word u32 word = Value.natural word
decode_word u64 word = Value.natural word
decode_word bool word = Value.natural (if word == 0 then 0 else 1)
decode_word f32 word = Value.float32 word
decode_word f64 word = Value.float64 word
decode_word (raw n) word = Value.nan

unfoldable pub decode_scalar : VariableType → List ℕ → Value
unfolding scalar_len decode_word
decode_scalar scalar bytes = elim (scalar_len scalar) [
  | none ↦ Value.nan
  | some n ↦
      if ltb (length bytes) n then Value.nan else decode_word scalar (from_le_bytes (take n bytes))
]

unfoldable pub decode : ReadItem → List ℕ → Value
unfolding decode_field decode_scalar
decode item bytes = elim item.bit_offset [
  | none ↦ decode_scalar item.scalar bytes
  | some bit ↦ elim item.bit_size [
    | none ↦ decode_scalar item.scalar bytes
    | some bits ↦ decode_field item.scalar bit bits bytes
  ]
]

-- The first error of a tick is kept as it is; the source keeps its text.
pub record SampleOutcome : Type 0 where
  pub regions_ok : ℕ
  pub regions_failed : ℕ
  pub bytes : ℕ
  pub first_error : Option CarrierError

abbrev first_of : Option CarrierError → CarrierError → Option CarrierError
first_of none e = some e
first_of (some first) e = some first

-- A value decoded from the region `index`, if its slot lies there. The source's slice panics where it ends
-- behind the bytes; here it takes those that there are.
fill_one : ℕ → List ℕ → ReadItem → Option Slot → Value → Value
unfolding decode
fill_one index bytes item none v = v
fill_one index bytes item (some s) v =
    if s.region == index then decode item (take s.len (drop s.offset bytes)) else v

pub fill : ℕ → List ℕ → List ReadItem → List (Option Slot) → List Value → List Value
unfolding fill_one
fill index bytes (item ∷ items) (s ∷ slots) (v ∷ vs) =
    fill_one index bytes item s v ∷ fill index bytes items slots vs
fill index bytes items slots vs = vs

module _ (c : MemoryAccess) where
  open c use {Memory, read}

  -- What a tick has so far: the values, and what was done.
  abbrev Tick : Type 0
  Tick = List Value × SampleOutcome

  read_into : ReadPlan → ℕ → Region → Result (List ℕ) → Tick → Tick
  unfolding fill
  read_into plan index region (err e) (out, done) = (
    out,
    record done {
      regions_failed = done.regions_failed + 1;
      first_error = first_of done.first_error e;
    },
  )
  read_into plan index region (ok bytes) (out, done) = (
    fill index bytes plan.items plan.slots out,
    record done { regions_ok = done.regions_ok + 1; bytes = done.bytes + region.len },
  )

  pub sample_from : ReadPlan → ℕ → List Region → Tick → Memory → Tick × Memory
  unfolding read_into
  sample_from plan index [] tick m = (tick, m)
  sample_from plan index (region ∷ regions) tick m =
      let (got, m') = read m region.address region.len in
      sample_from plan (suc index) regions (read_into plan index region got tick) m'

  unfoldable pub sample : ReadPlan → Memory → Tick × Memory
  unfolding sample_from
  sample plan m =
      sample_from plan 0 plan.regions
        (
          replicate (length plan.items) Value.nan,
          record { regions_ok = 0; regions_failed = 0; bytes = 0; first_error = none },
        )
        m
