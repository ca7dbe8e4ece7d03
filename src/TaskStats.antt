-- ===== src/TaskStats.antt =====
-- crates/studio-dwarf/src/task_stats.rs: the tasks' counters, decoded from the firmware's static.
mod Slots
mod Tests
use tuning_tools.Base.{
  ℕ, zero, suc, ◌+◌, ◌*◌, ◌%◌, ◌^◌, max, Bool, true, false, not, Option, none, some, List, [], ◌∷◌,
  ◌++◌, length, take, drop, ltb, ◌==◌, if◌then◌else◌,
}
use tuning_tools.Base.Bytes.{from_le_bytes}
use tuning_tools.Message.{Message, Text, Except, ok, err, ◌>>=◌}

-- "RMTS" as a little-endian word.
abbrev pub stats_magic : ℕ
stats_magic = 1398033746

abbrev pub stats_version : ℕ
stats_version = 1

-- The offsets of the fields in a slot.
pub record SlotLayout : Type 0 where
  pub task : ℕ
  pub polls : ℕ
  pub cycles : ℕ
  pub max_cycles : ℕ
  pub peak : ℕ
  pub last_peak : ℕ

pub record StatsLayout : Type 0 where
  pub symbol : Text
  pub address : ℕ
  pub size : ℕ
  pub little_endian : Bool
  pub magic : ℕ
  pub version : ℕ
  pub clock_hz : ℕ
  pub untracked : ℕ
  pub slots : ℕ
  pub stride : ℕ
  pub count : ℕ
  pub slot : SlotLayout

pub record TaskCounters : Type 0 where
  pub task : ℕ
  pub polls : ℕ
  pub cycles : ℕ
  pub max_cycles : ℕ
  pub recent_max_cycles : ℕ

pub record StatsReading : Type 0 where
  pub clock_hz : ℕ
  pub untracked : ℕ
  pub slots : List TaskCounters

-- `region`.
abbrev pub region : StatsLayout → ℕ × ℕ
region l = (l.address, l.size)

abbrev pub reversed : List ℕ → List ℕ → List ℕ
reversed [] out = out
reversed (b ∷ bytes) out = reversed bytes (b ∷ out)

-- The number of a word's bytes.
unfoldable pub number : Bool → List ℕ → ℕ
number true bytes = from_le_bytes bytes
number false bytes = from_le_bytes (reversed bytes [])

-- The word at an offset, where it lies inside.
unfoldable pub word : Bool → List ℕ → ℕ → Except Message ℕ
unfolding number
word little bytes at =
    if ltb (length bytes) (at + 4)
    then err Message.short_read
    else ok (number little (take 4 (drop at bytes)))

module _ (l : StatsLayout) (bytes : List ℕ) where
  abbrev pub at_offset : ℕ → Except Message ℕ
  at_offset at = word l.little_endian bytes at

  abbrev pub check_magic : ℕ → Except Message (Unit {0})
  check_magic magic =
      if magic == stats_magic
      then ok tt
      else err (if magic == 0 then Message.not_started else Message.not_reset magic)

  abbrev pub check_version : ℕ → Except Message (Unit {0})
  check_version version =
      if version == stats_version then ok tt else err (Message.other_format version)

  -- The counters of a slot in use, from its start.
  unfoldable pub read_slot : ℕ → ℕ → Except Message TaskCounters
  unfolding word
  read_slot at task = do
    polls ← at_offset (at + l.slot.polls)
    cycles ← at_offset (at + l.slot.cycles)
    max_cycles ← at_offset (at + l.slot.max_cycles)
    peak ← at_offset (at + l.slot.peak)
    last_peak ← at_offset (at + l.slot.last_peak)
    ok (record {
      task = task;
      polls = polls;
      cycles = cycles;
      max_cycles = max_cycles;
      recent_max_cycles = max peak last_peak;
    })

  abbrev pub before_slots :
      Except Message (List TaskCounters) → TaskCounters → Except Message (List TaskCounters)
  before_slots (ok rest) c = ok (c ∷ rest)
  before_slots (err m) c = err m

  -- The `n` slots from the `i`th on; one without a task is passed over.
  unfoldable pub read_slots : ℕ → ℕ → Except Message (List TaskCounters)
  unfolding read_slot
  read_slots i zero = ok []
  read_slots i (suc n) =
      let at = l.slots + i * l.stride in
      let rest = read_slots (suc i) n in
      at_offset (at + l.slot.task) >>= λ task.
      if task == 0 then rest else (read_slot at task >>= before_slots rest)

  -- Decode what was read of the region.
  unfoldable pub decode : Except Message StatsReading
  unfolding read_slots
  decode = do
    magic ← at_offset l.magic
    u ← check_magic magic
    version ← at_offset l.version
    v ← check_version version
    slots ← read_slots 0 l.count
    clock_hz ← at_offset l.clock_hz
    untracked ← at_offset l.untracked
    ok (record { clock_hz = clock_hz; untracked = untracked; slots = slots })

-- The counters of the task whose slot starts at the address.
unfoldable pub find_task : List TaskCounters → ℕ → Option TaskCounters
find_task [] address = none
find_task (c ∷ slots) address =
    let rest = find_task slots address in if c.task == address % 2 ^ 32 then some c else rest

unfoldable pub task : StatsReading → ℕ → Option TaskCounters
unfolding find_task
task r address = find_task r.slots address
