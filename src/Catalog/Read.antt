-- ===== src/Catalog/Read.antt =====
-- crates/studio-core/src/catalog.rs: the table of a build, read from memory by the layout of its types.
-- `utf8` is `String::from_utf8`.
pub mod Table
pub mod Keeps
pub mod Tests
pub mod Image
use tuning_tools.Base.{
  ℕ, zero, suc, ◌+◌, ◌*◌, ◌%◌, ◌^◌, min, Bool, true, false, not, Option, none, some, List, [], ◌∷◌,
  ◌++◌, ltb, ◌==◌, if◌then◌else◌,
}
use tuning_tools.Base.Bytes.{from_le_bytes}
use tuning_tools.Carrier
use tuning_tools.Carrier.{CarrierError, MemoryAccess}
use tuning_tools.Float.{Floats}
use tuning_tools.Message.{Message, Text, Except, ok, err}
use tuning_tools.Catalog.{
  Catalog, CatalogEntry, CellKind, Access, kind_from_tag, access_from_tag, is_read_only, decode,
  widen, find_entry,
}

-- `u32::from_le_bytes(*b"RMTT")`.
abbrev pub table_magic : ℕ
table_magic = 0x54544d52

abbrev pub table_version : ℕ
table_version = 1

abbrev pub max_entries : ℕ
max_entries = 4096

abbrev pub max_text : ℕ
max_text = 256

pub data CatalogError : Type 0 where
  layout : Message → CatalogError
  invalid : ℕ → Message → CatalogError
  memory : CarrierError → CatalogError

pub record Field : Type 0 where
  pub offset : ℕ
  pub size : ℕ

pub record TableLayout : Type 0 where
  pub address : ℕ
  pub symbol : Text
  pub magic : Field
  pub version : Field
  pub entries_ptr : Field
  pub entries_len : Field
  pub pointer : ℕ
  pub id : Field
  pub kind : Field
  pub access : Field
  pub name_ptr : Field
  pub name_len : Field
  pub unit_ptr : Field
  pub unit_len : Field
  pub default : Field
  pub min : Field
  pub max : Field
  pub max_step : Field
  pub requested : Field
  pub applied : Field

-- A read takes the memory and passes it on, with a result or an error of the catalog.
abbrev pub Reads : Type 0 → Type 0 → Type 0
Reads M A = M → Except CatalogError A × M

abbrev pub and_then :
    {M A B : Type 0} → Except CatalogError A × M → (A → Reads M B) → Except CatalogError B × M
and_then (ok a, m) f = f a m
and_then (err e, m) f = (err e, m)

infixl 5 ◌>>=◌ ◌>>◌
abbrev pub ◌>>=◌ : {M A B : Type 0} → Reads M A → (A → Reads M B) → Reads M B
◌>>=◌ s f m = and_then (s m) f

abbrev pub ◌>>◌ : {M B : Type 0} → Reads M (Unit {0}) → Reads M B → Reads M B
s >> t = s >>= λ _. t

abbrev pub pure : {M A : Type 0} → A → Reads M A
pure a m = (ok a, m)

abbrev pub fail : {M A : Type 0} → CatalogError → Reads M A
fail e m = (err e, m)

abbrev pub guard : {M : Type 0} → Bool → CatalogError → Reads M (Unit {0})
guard true e = pure tt
guard false e = fail e

-- `ok_or_else`.
abbrev pub some_or : {M A : Type 0} → Option A → CatalogError → Reads M A
some_or none e = fail e
some_or (some a) e = pure a

-- A result of the carrier, its error wrapped.
abbrev pub from_carrier : {M A : Type 0} → Carrier.Result A × M → Except CatalogError A × M
from_carrier (Carrier.ok a, m) = (ok a, m)
from_carrier (Carrier.err e, m) = (err (CatalogError.memory e), m)

-- The errors of an entry are reported with its number.
abbrev pub name_entry : ℕ → ℕ → CatalogError → CatalogError
name_entry address i (CatalogError.invalid a reason) =
    CatalogError.invalid address (Message.in_entry i reason)
name_entry address i e = e

abbrev pub mapped :
    {M A : Type 0}
    → (CatalogError → CatalogError)
    → Except CatalogError A × M
    → Except CatalogError A × M
mapped f (ok a, m) = (ok a, m)
mapped f (err e, m) = (err (f e), m)

abbrev pub map_error : {M A : Type 0} → (CatalogError → CatalogError) → Reads M A → Reads M A
map_error f s m = mapped f (s m)

-- `filter(|_| tunable)`.
abbrev pub if_tunable : Bool → Option ℕ → Option ℕ
if_tunable true v = v
if_tunable false v = none

module _ (fl : Floats) (utf8 : List ℕ → Option Text) (c : MemoryAccess) where
  open c use {Memory}

  unfoldable pub read_bytes : ℕ → ℕ → Reads Memory (List ℕ)
  read_bytes a n m = from_carrier (c.read m a n)

  unfoldable pub read_uint : ℕ → Field → Reads Memory ℕ
  unfolding read_bytes
  read_uint base f = do
    bytes ← read_bytes (base + f.offset) (min f.size 8)
    pure (from_le_bytes bytes)

  unfoldable pub read_text : ℕ → Field → Field → Reads Memory (Option Text)
  unfolding read_uint
  read_text base ptr len = do
    at ← read_uint base ptr
    n ← read_uint base len
    if ltb max_text n
        then pure none
        else do bytes ← if ltb 0 n then read_bytes at n else pure []; pure (utf8 bytes)

  unfoldable pub read_float : ℕ → Field → Reads Memory (Option ℕ)
  unfolding read_uint
  read_float at f = do
    word ← read_uint at f
    let bits = word % 2 ^ 32
    pure (if fl.f32_is_finite bits then some (widen fl bits) else none)

  module _ (l : TableLayout) where
    abbrev bad : Message → CatalogError
    bad reason = CatalogError.invalid l.address reason

    unfoldable pub read_entry : ℕ → Reads Memory CatalogEntry
    unfolding read_text read_float
    read_entry at = do
      kind_word ← read_uint at l.kind
      let kind_tag = kind_word % 256
      kind ← some_or (kind_from_tag kind_tag) (bad (Message.bad_kind kind_tag))
      access_tag ← read_uint at l.access
      access ← some_or (access_from_tag access_tag) (bad (Message.bad_access access_tag))
      name ← read_text at l.name_ptr l.name_len
      unit ← read_text at l.unit_ptr l.unit_len
      let tunable = not (is_read_only access)
      min ← read_float at l.min
      max ← read_float at l.max
      max_step ← read_float at l.max_step
      id ← read_uint at l.id
      name ← some_or name (bad Message.bad_name)
      unit ← some_or unit (bad Message.bad_unit)
      default ← read_uint at l.default
      pure (record {
        id = id % 2 ^ 32;
        name = name;
        unit = unit;
        kind = kind;
        access = access;
        default = decode fl kind (default % 2 ^ 32);
        min = if_tunable tunable min;
        max = if_tunable tunable max;
        max_step = if_tunable tunable max_step;
        requested_address = at + l.requested.offset;
        applied_address = at + l.applied.offset;
      })

    -- An entry behind those read so far, unless one of them has its id.
    unfoldable pub add_unless :
        Option CatalogEntry → List CatalogEntry → CatalogEntry → Reads Memory (List CatalogEntry)
    add_unless none found e = pure (found ++ (e ∷ []))
    add_unless (some first) found e = fail (bad (Message.shared_id first.name e.name e.id))

    unfoldable pub add_entry : List CatalogEntry → CatalogEntry → Reads Memory (List CatalogEntry)
    unfolding add_unless
    add_entry found e = add_unless (find_entry e.id found) found e

    -- The last `n` entries of the list, from the `i`th on.
    unfoldable pub read_entries : ℕ → ℕ → ℕ → List CatalogEntry → Reads Memory (List CatalogEntry)
    unfolding read_entry add_entry
    read_entries list i zero found = pure found
    read_entries list i (suc n) found = do
      at ← read_uint (list + i * l.pointer) (record { offset = 0; size = l.pointer })
      e ← map_error (name_entry l.address i) (read_entry at)
      found' ← add_entry found e
      read_entries list (suc i) n found'

    -- `TableLayout::read`.
    unfoldable pub read : Reads Memory Catalog
    unfolding read_entries
    read = do
      magic_word ← read_uint l.address l.magic
      let magic = magic_word % 2 ^ 32
      guard (magic == table_magic) (bad (Message.bad_magic magic))
      version_word ← read_uint l.address l.version
      let version = version_word % 2 ^ 32
      guard (version == table_version) (bad (Message.bad_version version))
      list ← read_uint l.address l.entries_ptr
      count ← read_uint l.address l.entries_len
      guard (not (ltb max_entries count)) (bad (Message.too_many count))
      entries ← read_entries list 0 count []
      pure (record { address = l.address; symbol = l.symbol; entries = entries })
