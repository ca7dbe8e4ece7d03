-- ===== src/Catalog.antt =====
-- crates/studio-core/src/catalog.rs: the values that a firmware declares, and the bits of its cells. A
-- name is its bytes.
mod Cells
pub mod Read
use tuning_tools.Base.{
  ℕ, ◌-◌, ◌^◌, Bool, true, false, ◌&&◌, ◌||◌, not, Option, none, some, List, [], ◌∷◌, ltb, ◌==◌,
  same_bytes, if◌then◌else◌,
}
use tuning_tools.Float.{Floats}
use tuning_tools.Message.{Message, Text, Except, ok, err}
use tuning_tools.ReadPlan.{ReadItem, VariableType}

pub data CellKind : Type 0 where
  f32 i32 u32 bool : CellKind

pub data Access : Type 0 where
  read_only live safe_only : Access

-- The texts of a field that is there for tunables alone are `none` elsewhere.
pub record CatalogEntry : Type 0 where
  pub id : ℕ
  pub name : Text
  pub unit : Text
  pub kind : CellKind
  pub access : Access
  pub default : ℕ
  pub min : Option ℕ
  pub max : Option ℕ
  pub max_step : Option ℕ
  pub requested_address : ℕ
  pub applied_address : ℕ

pub record Catalog : Type 0 where
  pub address : ℕ
  pub symbol : Text
  pub entries : List CatalogEntry

-- The tag is a `u8`.
unfoldable pub kind_from_tag : ℕ → Option CellKind
kind_from_tag tag =
    if tag == 0
    then some f32
    else if tag == 1
    then some i32
    else if tag == 2
    then some u32
    else if tag == 3
    then some bool
    else none

unfoldable pub tag : CellKind → ℕ
tag f32 = 0
tag i32 = 1
tag u32 = 2
tag bool = 3

unfoldable pub access_from_tag : ℕ → Option Access
access_from_tag tag =
    if tag == 0
    then some read_only
    else if tag == 1
    then some live
    else if tag == 2
    then some safe_only
    else none

unfoldable pub scalar : CellKind → VariableType
scalar f32 = VariableType.f32
scalar i32 = VariableType.i32
scalar u32 = VariableType.u32
scalar bool = VariableType.u32

-- Whether a value may not be tuned.
abbrev pub is_read_only : Access → Bool
is_read_only read_only = true
is_read_only live = false
is_read_only safe_only = false

unfoldable pub item : CatalogEntry → ℕ → ℕ → ReadItem
item e id address = record {
  id = id;
  address = address;
  scalar = scalar e.kind;
  bit_offset = none;
  bit_size = none;
}

unfoldable pub applied_item : CatalogEntry → ℕ → ReadItem
unfolding item
applied_item e id = item e id e.applied_address

unfoldable pub requested_item : CatalogEntry → ℕ → ReadItem
unfolding item
requested_item e id = item e id e.requested_address

-- The first entry with an id.
unfoldable pub find_entry : ℕ → List CatalogEntry → Option CatalogEntry
find_entry id [] = none
find_entry id (e ∷ es) = if e.id == id then some e else find_entry id es

unfoldable pub entry : Catalog → ℕ → Option CatalogEntry
unfolding find_entry
entry c id = find_entry id c.entries

module _ (fl : Floats) where
  open fl use {
    is_finite, is_whole, le, eq, of_u32, of_i32, to_u32, to_i32, to_f32, f32_is_finite, from_f32,
    show_f32, parse_f64,
  }

  -- The `f64` whose text is that of the `f32` with these bits.
  abbrev pub widen : ℕ → ℕ
  widen bits = if f32_is_finite bits then parsed (parse_f64 (show_f32 bits)) else from_f32 bits
    where
      parsed : Option ℕ → ℕ
      parsed none = from_f32 bits
      parsed (some v) = v

  -- The value of a cell with these bits.
  unfoldable pub decode : CellKind → ℕ → ℕ
  decode f32 bits = widen bits
  decode i32 bits = of_i32 bits
  decode u32 bits = of_u32 bits
  decode bool bits = of_u32 bits

  -- Whether the value of a finite float is one of the kind's.
  unfoldable pub fits : CellKind → ℕ → Bool
  fits f32 v = true
  fits i32 v = is_whole v && (le (of_i32 (2 ^ 31)) v && le v (of_i32 (2 ^ 31 - 1)))
  fits u32 v = is_whole v && (le (of_u32 0) v && le v (of_u32 (2 ^ 32 - 1)))
  fits bool v = eq v (of_u32 0) || eq v (of_u32 1)

  unfoldable pub bits_of : CellKind → ℕ → ℕ
  bits_of f32 v = to_f32 v
  bits_of i32 v = to_i32 v
  bits_of u32 v = to_u32 v
  bits_of bool v = to_u32 v

  unfoldable pub encode : CellKind → ℕ → Except Message ℕ
  unfolding fits bits_of
  encode kind v =
      if not (is_finite v)
      then err Message.not_a_number
      else if fits kind v
      then ok (bits_of kind v)
      else err (Message.does_not_fit v)

  -- Whether a value lies in a range; one that has an open end takes everything.
  unfoldable pub in_range : Option ℕ → Option ℕ → ℕ → Bool
  in_range (some min) (some max) v = le min v && le v max
  in_range (some min) none v = true
  in_range none max v = true

  abbrev pub or_zero : Option ℕ → ℕ
  or_zero none = 0
  or_zero (some n) = n

  unfoldable pub request_bits : CatalogEntry → ℕ → Except Message ℕ
  unfolding encode in_range
  request_bits e v =
      if is_read_only e.access
      then err (Message.read_only e.name)
      else if in_range e.min e.max v
      then encode e.kind v
      else err (Message.takes e.name (or_zero e.min) (or_zero e.max))
