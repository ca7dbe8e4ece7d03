-- ===== src/Rtt/Channels/Streams.antt =====
-- The byte streams of `RttDuplex`, both ways, through the rings it is attached to.
use tuning_tools.Base.{
  ℕ, ◌+◌, ◌≤◌, ◌≡◌, ◌⊎◌, inl, inr, refl, ap, sym, subst, arith, Bool, false, Option, none, some,
  List, [],
}
use tuning_tools.Base.Bytes.{from_le_bytes}
use tuning_tools.Carrier.{Result, ok, err, MemoryAccess}
use tuning_tools.Carrier.Ram.{bytes_at}
use tuning_tools.Carrier.Ends.{Ends, Ends-and_then}
use tuning_tools.Rtt.{Ring, read_ring, write_ring}
use tuning_tools.Rtt.Pending.{Holds, IsSeparate}
use tuning_tools.Rtt.ReadRing.{Takes, read_ring-Takes, read_ring-none}
use tuning_tools.Rtt.WriteRing.{Puts, write_ring-Puts}
use tuning_tools.Rtt.Channels.{RttDuplex, pass_on, read_up, write_down, duplex_read, duplex_write}

module _ (c : MemoryAccess) (lossy : List ℕ → List ℕ) where
  open c use {Memory, byte}

  on_memory-Ends :
      {A : Type 0} (d : RttDuplex) (x : Result A × Memory) (P : A → Memory → Type 0)
      → Ends x P
      → Ends {M = RttDuplex × Memory} (x.0, (d, x.1)) (λ a s. (s.0 ≡ d) × P a s.1)
  on_memory-Ends d (ok a, m) P h = (refl, h)
  on_memory-Ends d (err e, m) P h = tt

  -- An attached end whose up ring has its offsets in range reads the oldest bytes of the ring, all of
  -- them or as many as the buffer takes, leaves the others in their order, and stays attached, when
  -- no access fails.
  pub duplex_read-Takes :
      (capacity : ℕ) (d : RttDuplex) (m : Memory) (up down : Ring) (w r : ℕ)
      → d.rings ≡ some (up, down)
      → IsSeparate up
      → Holds up (byte m) w r
      → Ends
          (duplex_read c lossy capacity (d, m))
          (λ got s. (s.0 ≡ d) × Takes c up capacity (byte m) w r (some got) (byte s.1))
  unfolding duplex_read read_up pass_on
  duplex_read-Takes capacity d m up down w r there s h =
      subst
        (λ rings.
          Ends (read_up c lossy capacity rings (d, m))
            (λ got s. (s.0 ≡ d) × Takes c up capacity (byte m) w r (some got) (byte s.1)))
        (sym there)
        (Ends-and_then ((read_ring c up capacity m).0, (d, (read_ring c up capacity m).1))
          (pass_on c lossy []) _ _
          (on_memory-Ends d (read_ring c up capacity m) _ (read_ring-Takes c up m capacity w r s h))
          passed)
    where
      passed :
          (got : Option (List ℕ)) (s : RttDuplex × Memory)
          → (s.0 ≡ d) × Takes c up capacity (byte m) w r got (byte s.1)
          → Ends
              (pass_on c lossy [] got s)
              (λ got s. (s.0 ≡ d) × Takes c up capacity (byte m) w r (some got) (byte s.1))
      passed (some bytes) s k = k
      passed none s (e, (bytes, r', eq, len, holds, rest)) = absurd (ground arith)

  -- An attached end whose down ring has its offsets in range writes all of the bytes behind the ones
  -- that the ring holds and answers so, or answers that they do not fit and writes nothing; it stays
  -- attached, when no access fails.
  pub duplex_write-Puts :
      (bytes : List ℕ) (d : RttDuplex) (m : Memory) (up down : Ring) (w r : ℕ)
      → d.rings ≡ some (up, down)
      → IsSeparate down
      → Holds down (byte m) w r
      → Ends
          (duplex_write c lossy bytes (d, m))
          (λ done s. (s.0 ≡ d) × Puts c down bytes (byte m) w r (some done) (byte s.1))
  unfolding duplex_write write_down pass_on
  duplex_write-Puts bytes d m up down w r there s h =
      subst
        (λ rings.
          Ends (write_down c lossy bytes rings (d, m))
            (λ done s. (s.0 ≡ d) × Puts c down bytes (byte m) w r (some done) (byte s.1)))
        (sym there)
        (Ends-and_then ((write_ring c down bytes m).0, (d, (write_ring c down bytes m).1))
          (pass_on c lossy false) _ _
          (on_memory-Ends d (write_ring c down bytes m) _ (write_ring-Puts c down m w r bytes s h))
          passed)
    where
      passed :
          (done : Option Bool) (s : RttDuplex × Memory)
          → (s.0 ≡ d) × Puts c down bytes (byte m) w r done (byte s.1)
          → Ends
              (pass_on c lossy false done s)
              (λ done s. (s.0 ≡ d) × Puts c down bytes (byte m) w r (some done) (byte s.1))
      passed (some done) s k = k
      passed none s (e, inl (fits, eq, holds, rest)) = absurd (ground arith)
      passed none s (e, inr (full, eq, k)) = absurd (ground arith)

  -- An end whose up ring has an offset out of range reads nothing, writes nothing, and is detached,
  -- when no access fails.
  pub duplex_read-none :
      (capacity : ℕ) (d : RttDuplex) (m : Memory) (up down : Ring)
      → d.rings ≡ some (up, down)
      → (up.size ≤ from_le_bytes (bytes_at (byte m) (up.descriptor + 12) 4))
        ⊎ (up.size ≤ from_le_bytes (bytes_at (byte m) (up.descriptor + 16) 4))
      → Ends
          (duplex_read c lossy capacity (d, m))
          (λ got s. (got ≡ []) × (s.0 ≡ record d { rings = none }) × (byte s.1 ≡ byte m))
  unfolding duplex_read read_up pass_on
  duplex_read-none capacity d m up down there far =
      subst
        (λ rings.
          Ends (read_up c lossy capacity rings (d, m))
            (λ got s. (got ≡ []) × (s.0 ≡ record d { rings = none }) × (byte s.1 ≡ byte m)))
        (sym there)
        (Ends-and_then ((read_ring c up capacity m).0, (d, (read_ring c up capacity m).1))
          (pass_on c lossy []) _ _
          (on_memory-Ends d (read_ring c up capacity m) _ (read_ring-none c up m capacity far))
          detached)
    where
      detached :
          (got : Option (List ℕ)) (s : RttDuplex × Memory)
          → (s.0 ≡ d) × ((got ≡ none) × (byte s.1 ≡ byte m))
          → Ends
              (pass_on c lossy [] got s)
              (λ got s. (got ≡ []) × (s.0 ≡ record d { rings = none }) × (byte s.1 ≡ byte m))
      detached none s (e, (eq, k)) = (refl, ap (λ (d : RttDuplex). record d { rings = none }) e, k)
      detached (some bytes) s (e, (eq, k)) = absurd (ground arith)
