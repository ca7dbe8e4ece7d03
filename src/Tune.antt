-- ===== src/Tune.antt =====
-- crates/studio-core/src/tune.rs: tuning over memory access. Requests wait until the target is known to
-- run the build that the catalog comes from.
mod Guards
mod Cells
mod Tests
use tuning_tools.Base.{
  ℕ, zero, suc, ◌+◌, ◌*◌, Bool, true, false, ◌&&◌, not, Option, none, some, List, [], ◌∷◌, ◌++◌,
  get_or, ◌==◌, same_bytes, if◌then◌else◌,
}
use tuning_tools.Base.Bytes.{to_le_bytes}
use tuning_tools.Carrier
use tuning_tools.Carrier.{CarrierError, MemoryAccess}
use tuning_tools.Float.{Floats}
use tuning_tools.Message.{Message, Text, Except, ok, err}
use tuning_tools.ReadPlan
use tuning_tools.ReadPlan.{ReadItem, ReadPlan, Value, SampleOutcome}
use tuning_tools.Catalog.{
  Catalog, CatalogEntry, CellKind, Access, tag, is_read_only, applied_item, requested_item, entry,
  request_bits, widen,
}
use tuning_tools.Catalog.Read.{TableLayout, CatalogError}
use tuning_tools.Catalog.Read

-- Whether the target's own table matches the ELF's.
pub data CatalogCheck : Type 0 where
  checking matches : CatalogCheck
  differs : Message → CatalogCheck

pub record TuneValue : Type 0 where
  pub id : ℕ
  pub requested : Option ℕ
  pub applied : Option ℕ

pub record Tuner : Type 0 where
  pub layout : TableLayout
  pub catalog : Catalog
  pub plan : ReadPlan
  pub check : CatalogCheck

-- Two items for each entry, from the `i`th on.
unfoldable pub tune_items : ℕ → List CatalogEntry → List ReadItem
unfolding applied_item requested_item
tune_items i [] = []
tune_items i (e ∷ es) =
    requested_item e (2 * i) ∷ applied_item e (2 * i + 1) ∷ tune_items (suc i) es

unfoldable pub new : TableLayout → Catalog → Tuner
unfolding tune_items
new layout catalog = record {
  layout = layout;
  catalog = catalog;
  plan = ReadPlan.new (tune_items 0 catalog.entries);
  check = CatalogCheck.checking;
}

unfoldable pub same_kind : CellKind → CellKind → Bool
unfolding tag
same_kind k k' = tag k == tag k'

abbrev access_tag : Access → ℕ
access_tag Access.read_only = 0
access_tag Access.live = 1
access_tag Access.safe_only = 2

-- The message of an error, as `to_string` has it.
abbrev pub message_of : CatalogError → Message
message_of (CatalogError.layout m) = m
message_of (CatalogError.invalid address m) = m
message_of (CatalogError.memory e) = Message.carrier e

-- Steps on a memory, with a message where they fail.
abbrev pub write_message :
    {M : Type 0} → Carrier.Result (Unit {0}) × M → Except Message (Unit {0}) × M
write_message (Carrier.ok u, m) = (ok u, m)
write_message (Carrier.err e, m) = (err (Message.carrier e), m)

module _ (fl : Floats) where
  abbrev pub same_float : Option ℕ → Option ℕ → Bool
  same_float none none = true
  same_float (some a) (some b) = fl.eq a b
  same_float none (some b) = false
  same_float (some a) none = false

  -- `CatalogEntry`'s equality, field by field.
  unfoldable pub same_entry : CatalogEntry → CatalogEntry → Bool
  unfolding same_kind
  same_entry d e =
      d.id == e.id
      && (same_bytes d.name e.name
          && (same_bytes d.unit e.unit
              && (same_kind d.kind e.kind
                  && (access_tag d.access == access_tag e.access
                      && (fl.eq d.default e.default
                          && (same_float d.min e.min
                              && (same_float d.max e.max
                                  && (same_float d.max_step e.max_step
                                      && (d.requested_address == e.requested_address
                                          && d.applied_address == e.applied_address)))))))))

  unfoldable pub same_entries : List CatalogEntry → List CatalogEntry → Bool
  unfolding same_entry
  same_entries [] [] = true
  same_entries [] (e ∷ es) = false
  same_entries (d ∷ ds) [] = false
  same_entries (d ∷ ds) (e ∷ es) = same_entry d e && same_entries ds es

  -- What a read of the table decides, with the message that `verify` returns.
  unfoldable pub decide : Catalog → Except CatalogError Catalog → CatalogCheck × Option Message
  unfolding same_entries
  decide catalog (ok live) =
      if same_entries live.entries catalog.entries
      then (CatalogCheck.matches, none)
      else (CatalogCheck.differs (Message.other_build Message.different_values), none)
  decide catalog (err (CatalogError.memory e)) = (CatalogCheck.checking, some (Message.carrier e))
  decide catalog (err e) = (CatalogCheck.differs (Message.other_build (message_of e)), none)

  -- Entry `id`'s type tag and the bits that request a value.
  unfoldable pub encode : Tuner → ℕ → ℕ → Except Message (ℕ × ℕ)
  encode t id v = elim (entry t.catalog id) [
    | none ↦ err (Message.no_value id)
    | some e ↦ elim (request_bits fl e v) [ ok bits ↦ ok (tag e.kind, bits) | err m ↦ err m ]
  ]

  -- What a value is shown as: a cell that was not read has none, and an `f32` is widened again.
  -- `float_bits` are the bits of the `f64` that a sampled value is.
  unfoldable pub cell : (Value → ℕ) → CatalogEntry → Value → Option ℕ
  cell float_bits e v =
      let f = float_bits v in
      if fl.is_nan f
      then none
      else if same_kind e.kind CellKind.f32 && fl.is_finite f
      then some (widen fl (fl.to_f32 f))
      else some f

  unfoldable pub tune_values : (Value → ℕ) → ℕ → List CatalogEntry → List Value → List TuneValue
  unfolding cell
  tune_values float_bits i [] row = []
  tune_values float_bits i (e ∷ es) row =
      record {
        id = e.id;
        requested = cell float_bits e (get_or row (2 * i) Value.nan);
        applied = cell float_bits e (get_or row (2 * i + 1) Value.nan);
      }
      ∷ tune_values float_bits (suc i) es row

  module _ (c : MemoryAccess) (utf8 : List ℕ → Option Text) where
    open c use {Memory}

    unfoldable pub verify_when : CatalogCheck → Tuner → Memory → Option Message × (Tuner × Memory)
    unfolding decide
    verify_when CatalogCheck.matches t m = (none, (t, m))
    verify_when (CatalogCheck.differs reason) t m = (none, (t, m))
    verify_when CatalogCheck.checking t m =
        let (live, m') = Read.read fl utf8 c t.layout m in
        let (check, message) = decide t.catalog live in (message, (record t { check = check }, m'))

    -- Compare the target's table with the ELF's until it is decided.
    unfoldable pub verify : Tuner → Memory → Option Message × (Tuner × Memory)
    unfolding verify_when
    verify t m = verify_when t.check t m

    unfoldable pub sample : (Value → ℕ) → Tuner → Memory → List TuneValue × Memory
    unfolding tune_values
    sample float_bits t m =
        let (tick, m') = ReadPlan.sample c t.plan m in
        (tune_values float_bits 0 t.catalog.entries tick.0, m')

    -- The write of a request, where its value has bits.
    unfoldable pub write_bits :
        CatalogEntry → Except Message ℕ → Memory → Except Message (Unit {0}) × Memory
    write_bits e (err message) m = (err message, m)
    write_bits e (ok bits) m = write_message (c.write m e.requested_address (to_le_bytes 4 bits))

    unfoldable pub write_found :
        ℕ → Option CatalogEntry → ℕ → Memory → Except Message (Unit {0}) × Memory
    unfolding write_bits
    write_found id none v m = (err (Message.no_value id), m)
    write_found id (some e) v m = write_bits e (request_bits fl e v) m

    unfoldable pub request_when :
        CatalogCheck → Catalog → ℕ → ℕ → Memory → Except Message (Unit {0}) × Memory
    unfolding write_found
    request_when CatalogCheck.checking catalog id v m = (err Message.still_checking, m)
    request_when (CatalogCheck.differs reason) catalog id v m = (err reason, m)
    request_when CatalogCheck.matches catalog id v m = write_found id (entry catalog id) v m

    -- Write a request for a value into the cell of entry `id`.
    unfoldable pub request : Tuner → ℕ → ℕ → Memory → Except Message (Unit {0}) × Memory
    unfolding request_when
    request t id v m = request_when t.check t.catalog id v m

    unfoldable pub when_done :
        Except Message (Unit {0}) × Memory
        → (Memory → Except Message (Unit {0}) × Memory)
        → Except Message (Unit {0}) × Memory
    when_done (ok u, m) next = next m
    when_done (err x, m) next = (err x, m)

    -- The requests of `discard`, until one fails.
    unfoldable pub request_all :
        Tuner → List CatalogEntry → Memory → Except Message (Unit {0}) × Memory
    unfolding request when_done
    request_all t [] m = (ok tt, m)
    request_all t (e ∷ es) m =
        let rest = request_all t es in
        if is_read_only e.access then rest m else when_done (request t e.id e.default m) rest

    -- Request every tunable's built-in default.
    unfoldable pub discard : Tuner → Memory → Except Message (Unit {0}) × Memory
    unfolding request_all
    discard t m = request_all t t.catalog.entries m
