-- ===== src/Core.antt =====
-- crates/studio-carriers/src/cortex_m.rs: the core's run state, from a debug register.
use tuning_tools.Base.{ℕ, ◌/◌, ◌%◌, ◌^◌, Bool, ◌==◌, if◌then◌else◌}
use tuning_tools.Base.Bytes.{from_le_bytes}
use tuning_tools.Carrier.{MemoryAccess, Step, ◌>>=◌, pure}
use tuning_tools.Session.{CoreState}

abbrev pub dhcsr : ℕ
dhcsr = 3758157296

-- The bit of a word.
abbrev pub has_bit : ℕ → ℕ → Bool
has_bit word bit = word / 2 ^ bit % 2 == 1

unfoldable pub decode_dhcsr : ℕ → CoreState
decode_dhcsr word =
    if has_bit word 19
    then CoreState.locked_up
    else if has_bit word 17
    then CoreState.halted
    else if has_bit word 18
    then CoreState.sleeping
    else CoreState.running

unfoldable pub core_state : (c : MemoryAccess) → Step c.Memory CoreState
unfolding decode_dhcsr
core_state c = (λ m. c.read m dhcsr 4) >>= λ bytes. pure (decode_dhcsr (from_le_bytes bytes))
