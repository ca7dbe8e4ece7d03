-- ===== src/TaskStats/Slots.antt =====
-- crates/studio-dwarf/src/task_stats.rs: what is decoded of a region that was read whole.
use tuning_tools.Base.{
  ℕ, zero, suc, ◌+◌, ◌*◌, ◌≤◌, ◌≡◌, refl, arith, max, Bool, false, List, [], ◌∷◌, length, take,
  drop, ltb, ◌==◌, if◌then◌else◌, Bool-cases, inl, inr,
}
use tuning_tools.Message.{ok}
use tuning_tools.TaskStats.{
  StatsLayout, TaskCounters, stats_magic, stats_version, number, word, read_slot, read_slots,
  decode,
}

word-ok :
    (little : Bool) (bytes : List ℕ) (at : ℕ)
    → at + 4 ≤ length bytes
    → word little bytes at ≡ ok (number little (take 4 (drop at bytes)))
unfolding word
word-ok little bytes at h =
    let inside : ltb (length bytes) (at + 4) ≡ false = ground arith in rw inside refl

module _ (l : StatsLayout) (bytes : List ℕ) where
  -- The word that stands at an offset.
  unfoldable pub value_at : ℕ → ℕ
  value_at at = number l.little_endian (take 4 (drop at bytes))

  -- The slots lie in what was read, and the words in front of them.
  pub record IsWhole : Type 0 where
    pub magic_in : l.magic + 4 ≤ length bytes
    pub version_in : l.version + 4 ≤ length bytes
    pub clock_in : l.clock_hz + 4 ≤ length bytes
    pub untracked_in : l.untracked + 4 ≤ length bytes
    pub slots_in : l.slots + l.count * l.stride ≤ length bytes
    pub task_in : l.slot.task + 4 ≤ l.stride
    pub polls_in : l.slot.polls + 4 ≤ l.stride
    pub cycles_in : l.slot.cycles + 4 ≤ l.stride
    pub max_cycles_in : l.slot.max_cycles + 4 ≤ l.stride
    pub peak_in : l.slot.peak + 4 ≤ l.stride
    pub last_peak_in : l.slot.last_peak + 4 ≤ l.stride

  abbrev pub counters_at : ℕ → TaskCounters
  counters_at at = record {
    task = value_at (at + l.slot.task);
    polls = value_at (at + l.slot.polls);
    cycles = value_at (at + l.slot.cycles);
    max_cycles = value_at (at + l.slot.max_cycles);
    recent_max_cycles = max (value_at (at + l.slot.peak)) (value_at (at + l.slot.last_peak));
  }

  -- The counters of the slots in use, of the `n` from the `i`th on, in their order.
  unfoldable pub used : ℕ → ℕ → List TaskCounters
  used i zero = []
  used i (suc n) =
      let c = counters_at (l.slots + i * l.stride) in
      let rest = used (suc i) n in if c.task == 0 then rest else c ∷ rest

  in_slot :
      (i n field : ℕ)
      → l.slots + (i + suc n) * l.stride ≤ length bytes
      → field + 4 ≤ l.stride
      → l.slots + i * l.stride + field + 4 ≤ length bytes
  in_slot i n field h g = grind arith

  read_slot-ok :
      (i n : ℕ)
      → IsWhole
      → l.slots + (i + suc n) * l.stride ≤ length bytes
      → let at = l.slots + i * l.stride in
        read_slot l bytes at (value_at (at + l.slot.task)) ≡ ok (counters_at at)
  unfolding read_slot value_at
  read_slot-ok i n whole h =
      rw
        (
          word-ok l.little_endian bytes _ (in_slot i n l.slot.polls h whole.polls_in),
          word-ok l.little_endian bytes _ (in_slot i n l.slot.cycles h whole.cycles_in),
          word-ok l.little_endian bytes _ (in_slot i n l.slot.max_cycles h whole.max_cycles_in),
          word-ok l.little_endian bytes _ (in_slot i n l.slot.peak h whole.peak_in),
          word-ok l.little_endian bytes _ (in_slot i n l.slot.last_peak h whole.last_peak_in),
        )
        refl

  read_slots-ok :
      (i n : ℕ)
      → IsWhole
      → l.slots + (i + n) * l.stride ≤ length bytes
      → read_slots l bytes i n ≡ ok (used i n)
  unfolding read_slots used value_at
  read_slots-ok i zero whole h = refl
  read_slots-ok i (suc n) whole h =
      let at = l.slots + i * l.stride in
      let there =
        word-ok l.little_endian bytes (at + l.slot.task)
          (in_slot i n l.slot.task h whole.task_in) in
      let rest = read_slots-ok (suc i) n whole (grind arith) in
      let slot = read_slot-ok i n whole h in
      elim (Bool-cases (value_at (at + l.slot.task) == 0)) [
        | inl free ↦ rw (there, free) rest
        | inr taken ↦ rw (there, taken, slot, rest) refl
      ]

  -- A region that was read whole, whose magic and version are right, is decoded: to its words, and to
  -- the counters of the slots that have a task, in their order.
  pub decode-ok :
      IsWhole
      → value_at l.magic ≡ stats_magic
      → value_at l.version ≡ stats_version
      → decode l bytes
        ≡ ok (record {
          clock_hz = value_at l.clock_hz;
          untracked = value_at l.untracked;
          slots = used 0 l.count;
        })
  unfolding decode value_at
  decode-ok whole m v =
      rw
        (
          word-ok l.little_endian bytes l.magic whole.magic_in,
          word-ok l.little_endian bytes l.version whole.version_in,
          word-ok l.little_endian bytes l.clock_hz whole.clock_in,
          word-ok l.little_endian bytes l.untracked whole.untracked_in,
          m,
          v,
          read_slots-ok 0 l.count whole (grind (arith, whole.slots_in)),
        )
        refl
