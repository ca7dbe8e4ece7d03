-- ===== src/Rtt/Tests.antt =====
-- A ring of eight bytes in the mock target, whose newest bytes wrap around its end, and the theorems
-- about rings and channels at it.
use tuning_tools.Base.{◌≡◌, refl, inl, arith, false, some, none, [], ◌∷◌}
use tuning_tools.Carrier.{ok}
use tuning_tools.Carrier.Ram.{Ram, poke, bytes_at}
use tuning_tools.Carrier.Ends.{Ends}
use tuning_tools.Carrier.Mock.{MockLink, mock_memory, read, write, touches}
use tuning_tools.Rtt.{Ring, read_ring, write_ring}
use tuning_tools.Rtt.Pending.{Holds, IsSeparate}
use tuning_tools.Rtt.ReadRing.{Takes, read_ring-Takes}
use tuning_tools.Rtt.WriteRing.{Puts, write_ring-Puts}
use tuning_tools.Rtt.Channels.{RttDuplex, attach, duplex_read, duplex_write}
use tuning_tools.Rtt.Channels.Attach.{attach-attach}
use tuning_tools.Rtt.Channels.Streams.{duplex_read-Takes, duplex_write-Puts, duplex_read-none}

abbrev small_ring : Ring
small_ring = record { descriptor = 100; buffer = 200; size = 8 }

-- Write offset 2, read offset 6, and the bytes 1 to 8.
abbrev wrapped_ram : Ram
wrapped_ram =
    poke (poke (λ i. 0) 112 (2 ∷ 0 ∷ 0 ∷ 0 ∷ 6 ∷ 0 ∷ 0 ∷ 0 ∷ [])) 200
      (1 ∷ 2 ∷ 3 ∷ 4 ∷ 5 ∷ 6 ∷ 7 ∷ 8 ∷ [])

abbrev wrapped : MockLink
wrapped = record { ram = wrapped_ram; faults = []; reads = 0 }

small_ring-IsSeparate : IsSeparate small_ring
small_ring-IsSeparate = record { apart = inl (omega arith); word = omega arith }

wrapped_ram-Holds : Holds small_ring wrapped_ram 2 6
unfolding poke bytes_at
wrapped_ram-Holds = record {
  write_at = refl;
  read_at = refl;
  write_in = omega arith;
  read_in = omega arith;
}

reads_oldest : (read_ring mock_memory small_ring 3 wrapped).0 ≡ ok (some (7 ∷ 8 ∷ 1 ∷ []))
unfolding read_ring read poke bytes_at touches write
reads_oldest = refl

refuses_four : (write_ring mock_memory small_ring (1 ∷ 2 ∷ 3 ∷ 4 ∷ []) wrapped).0 ≡ ok (some false)
unfolding write_ring read poke bytes_at touches
refuses_four = refl

read_ring-Takes_example :
    Ends
      (read_ring mock_memory small_ring 3 wrapped)
      (λ result m. Takes mock_memory small_ring 3 wrapped_ram 2 6 result m.ram)
read_ring-Takes_example =
    read_ring-Takes mock_memory small_ring wrapped 3 2 6 small_ring-IsSeparate wrapped_ram-Holds

write_ring-Puts_example :
    Ends
      (write_ring mock_memory small_ring (9 ∷ 10 ∷ []) wrapped)
      (λ result m. Puts mock_memory small_ring (9 ∷ 10 ∷ []) wrapped_ram 2 6 result m.ram)
write_ring-Puts_example =
    write_ring-Puts mock_memory small_ring wrapped 2 6 (9 ∷ 10 ∷ []) small_ring-IsSeparate
      wrapped_ram-Holds

abbrev joined : RttDuplex
joined = record {
  address = 76;
  up_name = 117 ∷ [];
  down_name = 100 ∷ [];
  last_try = some 5;
  rings = some (small_ring, small_ring);
}

duplex_read-Takes_example :
    Ends
      (duplex_read mock_memory (λ bs. bs) 3 (joined, wrapped))
      (λ got s. (s.0 ≡ joined) × Takes mock_memory small_ring 3 wrapped_ram 2 6 (some got) s.1.ram)
duplex_read-Takes_example =
    duplex_read-Takes mock_memory (λ bs. bs) 3 joined wrapped small_ring small_ring 2 6 refl
      small_ring-IsSeparate wrapped_ram-Holds

duplex_write-Puts_example :
    Ends (duplex_write mock_memory (λ bs. bs) (9 ∷ 10 ∷ []) (joined, wrapped)) (λ done s.
      (s.0 ≡ joined)
      × Puts mock_memory small_ring (9 ∷ 10 ∷ []) wrapped_ram 2 6 (some done) s.1.ram)
duplex_write-Puts_example =
    duplex_write-Puts mock_memory (λ bs. bs) (9 ∷ 10 ∷ []) joined wrapped small_ring small_ring 2 6
      refl small_ring-IsSeparate wrapped_ram-Holds

-- A target whose memory is blank: no control block stands at 76.
abbrev blank : MockLink
blank = record { ram = λ i. 0; faults = []; reads = 0 }

abbrev fresh : RttDuplex
fresh = record {
  address = 76;
  up_name = 117 ∷ [];
  down_name = 100 ∷ [];
  last_try = none;
  rings = none;
}

attach-attach_example :
    attach mock_memory (λ bs. bs) 400000000 (attach mock_memory (λ bs. bs) 10 (fresh, blank)).1
    ≡ (ok false, (attach mock_memory (λ bs. bs) 10 (fresh, blank)).1)
unfolding attach read touches bytes_at
attach-attach_example =
    attach-attach mock_memory (λ bs. bs) 10 400000000 fresh blank refl refl refl (omega arith)

-- The same ring with the write offset 8, out of range.
abbrev broken : MockLink
broken = record { ram = poke wrapped_ram 112 (8 ∷ []); faults = []; reads = 0 }

duplex_read-none_example :
    Ends
      (duplex_read mock_memory (λ bs. bs) 3 (joined, broken))
      (λ got s. (got ≡ []) × (s.0 ≡ record joined { rings = none }) × (s.1.ram ≡ broken.ram))
unfolding poke bytes_at
duplex_read-none_example =
    duplex_read-none mock_memory (λ bs. bs) 3 joined broken small_ring small_ring refl
      (inl (omega arith))
