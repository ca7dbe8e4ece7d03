-- ===== src/Carrier/Mock.antt =====
-- crates/studio-carriers/src/mock.rs: the in-memory target. RAM that was never written reads as zero,
-- and a read that touches a faulty range fails.
use tuning_tools.Base.{
  ℕ, ◌+◌, ◌%◌, ◌^◌, ◌≡◌, refl, Bool, false, ◌&&◌, ◌||◌, List, [], ◌∷◌, ◌++◌, arith, ltb,
  if◌then◌else◌,
}
use tuning_tools.Carrier.{Result, ok, err, CarrierError, MemoryAccess}
use tuning_tools.Carrier.Ram.{Ram, bytes_at, poke}

pub record MockLink : Type 0 where
  pub ram : Ram
  pub faults : List (ℕ × ℕ)
  pub reads : ℕ

unfoldable pub touches : List (ℕ × ℕ) → ℕ → ℕ → Bool
touches [] start end = false
touches ((s, e) ∷ faults) start end = ltb start e && ltb s end || touches faults start end

unfoldable pub read : MockLink → ℕ → ℕ → Result (List ℕ) × MockLink
read m address n =
    let counted = record m { reads = (m.reads + 1) % 2 ^ 64 } in
    if touches m.faults address (address + n)
    then (err (CarrierError.read address n "mock fault"), counted)
    else (ok (bytes_at m.ram address n), counted)

unfoldable pub write : MockLink → ℕ → List ℕ → Result (Unit {0}) × MockLink
write m address bs = (ok tt, record m { ram = poke m.ram address bs })

unfoldable pub fail_reads : MockLink → ℕ → ℕ → MockLink
fail_reads m start end = record m { faults = m.faults ++ ((start, end) ∷ []) }

unfoldable pub clear_faults : MockLink → MockLink
clear_faults m = record m { faults = [] }

pub read_ok :
    (m : MockLink) (a n : ℕ) (bs : List ℕ) → (read m a n).0 ≡ ok bs → bs ≡ bytes_at m.ram a n
unfolding read
read_ok m a n bs h = ground arith

pub read_keeps : (m : MockLink) (a n : ℕ) → (read m a n).1.ram ≡ m.ram
unfolding read
read_keeps m a n = ground arith

pub write_ok :
    (m : MockLink) (a : ℕ) (bs : List ℕ)
    → (write m a bs).0 ≡ ok tt
    → (write m a bs).1.ram ≡ poke m.ram a bs
unfolding write
write_ok m a bs h = refl

-- The mock target is a memory.
abbrev pub mock_memory : MemoryAccess
mock_memory = record {
  Memory = MockLink;
  read = read;
  write = write;
  byte = λ m. m.ram;
  read_ok = read_ok;
  read_keeps = read_keeps;
  write_ok = write_ok;
}
