-- ===== src/Carrier.antt =====
-- crates/studio-carriers/src/lib.rs: random access to target memory, as an interface. A memory is a
-- state that every access passes on; the laws say what a carrier's memory promises while nothing
-- but the host writes to it.
pub mod Ram
pub mod Mock
pub mod Ends
use Prim.Native.String.{String}
use tuning_tools.Base.{ℕ, ◌≡◌, List}
use Ram.{bytes_at, poke}

pub data CarrierError : Type 0 where
  probe_not_found probe attach : String → CarrierError
  read write : ℕ → ℕ → String → CarrierError
  port : String → String → CarrierError
  stream other : String → CarrierError

pub data Result {ℓ} (A : Type ℓ) : Type ℓ where
  ok : A → Result A
  err : CarrierError → Result A

-- `read m a n` fills a buffer of `n` bytes.
pub record MemoryAccess : Type 1 where
  pub Memory : Type 0
  pub read : Memory → ℕ → ℕ → Result (List ℕ) × Memory
  pub write : Memory → ℕ → List ℕ → Result (Unit {0}) × Memory
  -- The byte that stands at an address.
  pub byte : Memory → ℕ → ℕ
  pub read_ok :
      (m : Memory) (a n : ℕ) (bs : List ℕ) → (read m a n).0 ≡ ok bs → bs ≡ bytes_at (byte m) a n
  pub read_keeps : (m : Memory) (a n : ℕ) → byte (read m a n).1 ≡ byte m
  pub write_ok :
      (m : Memory) (a : ℕ) (bs : List ℕ)
      → (write m a bs).0 ≡ ok tt
      → byte (write m a bs).1 ≡ poke (byte m) a bs

-- An access takes the memory and passes it on, with a result or an error.
abbrev pub Step : Type 0 → Type 0 → Type 0
Step M A = M → Result A × M

abbrev pub and_then : {M A B : Type 0} → Result A × M → (A → Step M B) → Result B × M
and_then (ok a, m) f = f a m
and_then (err e, m) f = (err e, m)

infixl 5 ◌>>=◌ ◌>>◌
abbrev pub ◌>>=◌ : {M A B : Type 0} → Step M A → (A → Step M B) → Step M B
◌>>=◌ s f m = and_then (s m) f

abbrev pub ◌>>◌ : {M B : Type 0} → Step M (Unit {0}) → Step M B → Step M B
s >> t = s >>= λ _. t

abbrev pub pure : {M A : Type 0} → A → Step M A
pure a m = (ok a, m)
