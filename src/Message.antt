-- ===== src/Message.antt =====
-- The texts of errors and notes, by what they say, and results that carry one.
use tuning_tools.Base.{ℕ, List}
use tuning_tools.Carrier.{CarrierError}

abbrev pub Text : Type 0
Text = List ℕ

-- A text that the source formats, with the values that it puts in.
pub data Message : Type 0 where
  -- Values that a cell cannot take, and cells that take none.
  not_a_number : Message
  does_not_fit : ℕ → Message
  read_only : Text → Message
  takes : Text → ℕ → ℕ → Message
  no_value unknown_value : ℕ → Message
  -- The check of the target's table.
  still_checking different_values : Message
  other_build : Message → Message
  layout : Message
  bad_magic bad_version too_many bad_kind bad_access : ℕ → Message
  bad_name bad_unit : Message
  shared_id : Text → Text → ℕ → Message
  in_entry : ℕ → Message → Message
  carrier : CarrierError → Message
  -- The framed link.
  refused : ℕ → Message
  empty_reply short_hello no_firmware no_lease no_catalog short_catalog no_answer : Message
  lease_not_renewed link_closed needs_probe too_many_watches : Message
  control_full session_closed : Message
  -- The probe session.
  no_table memory_not_open cannot_save unknown_error : Message
  reads_failed : ℕ → Message → Message
  -- The firmware's task counters.
  short_read not_started : Message
  not_reset other_format : ℕ → Message
  speaks slower : ℕ → Message

-- `Result<A, E>`.
pub data Except (E A : Type 0) : Type 0 where
  ok : A → Except E A
  err : E → Except E A

infixl 5 ◌>>=◌
abbrev pub ◌>>=◌ : {E A B : Type 0} → Except E A → (A → Except E B) → Except E B
ok a >>= f = f a
err e >>= f = err e
