-- ===== src/Rtt/Channels/Attach.antt =====
-- What the ends of the RTT channels promise: searches are `retry` apart, an end that is attached has
-- buffers to use, and it passes bytes on until the firmware puts an offset out of range.
use tuning_tools.Base.{
  ℕ, zero, suc, ◌+◌, ◌-◌, ◌*◌, ◌<◌, ◌≡◌, ◌≢◌, inl, inr, refl, ◌∙◌, arith, Bool, true, false, ◌&&◌,
  not, Option, none, some, List, drop, ltb, ◌==◌, if◌then◌else◌, Bool-cases, Option-cases,
}
use tuning_tools.Carrier.{Result, ok, err, MemoryAccess, and_then}
use tuning_tools.Carrier.Ends.{Ends, Ends-and_then, read-Ends}
use tuning_tools.Rtt.{Ring}
use tuning_tools.Rtt.Channels.{
  retry, RttDuplex, is_attached, tried_at, word_in, find_in, find_named, read_header, find_down,
  find_both, find_pair, attach, keep,
}

abbrev HasBuffer : Ring → Type 0
HasBuffer ring = (ring.buffer ≢ 0) × (ring.size ≢ 0)

abbrev FoundUsable : Option Ring → Type 0
FoundUsable none = Unit {0}
FoundUsable (some ring) = HasBuffer ring

abbrev PairUsable : Option (Ring × Ring) → Type 0
PairUsable none = Unit {0}
PairUsable (some (up, down)) = HasBuffer up × HasBuffer down

-- Both rings of an attached end have a buffer with room in it.
pub record IsUsable (d : RttDuplex) : Type 0 where
  pub usable : PairUsable d.rings

-- Where an attach leaves the end that searched, by what the search found.
abbrev searched :
    {M : Type 0} → RttDuplex → ℕ → Result (Option (Ring × Ring)) × M → Result Bool × (RttDuplex × M)
searched d now (err e, m) = (err e, (record d { last_try = some now }, m))
searched d now (ok none, m) = (ok false, (record d { last_try = some now }, m))
searched d now (ok (some rings), m) =
    (ok true, (record d { last_try = some now; rings = some rings }, m))

first_branch : {A : Type 0} (p : Bool) (x y : A) → p ≡ true → (if p then x else y) ≡ x
first_branch p x y h = rw h

last_branch :
    {A : Type 0} (p q : Bool) (x y z : A)
    → p ≡ false
    → q ≡ false
    → (if p then x else if q then y else z) ≡ z
last_branch p q x y z h k = rw (h, k)

module _ (c : MemoryAccess) (lossy : List ℕ → List ℕ) where
  open c use {Memory, byte, read}

  attach-searched :
      (now : ℕ) (d : RttDuplex) (m : Memory)
      → d.rings ≡ none
      → tried_at d.last_try now ≡ false
      → attach c lossy now (d, m)
        ≡ searched d now (find_pair c lossy d.address d.up_name d.down_name m)
  unfolding attach is_attached keep
  attach-searched now d m detached due =
      last_branch (is_attached d) (tried_at d.last_try now) _ _ _ (rw detached) due
      ∙ go (find_pair c lossy d.address d.up_name d.down_name m)
    where
      go :
          (x : Result (Option (Ring × Ring)) × Memory)
          → and_then
              (x.0, (record d { last_try = some now }, x.1))
              (keep c lossy (record d { last_try = some now }))
            ≡ searched d now x
      go (err e, m') = refl
      go (ok none, m') = refl
      go (ok (some rings), m') = refl

  attach-there :
      (now : ℕ) (d : RttDuplex) (m : Memory) (rings : Ring × Ring)
      → d.rings ≡ some rings
      → attach c lossy now (d, m) ≡ (ok true, (d, m))
  unfolding attach is_attached
  attach-there now d m rings there = first_branch (is_attached d) _ _ (rw there)

  attach-early :
      (now : ℕ) (d : RttDuplex) (m : Memory)
      → d.rings ≡ none
      → tried_at d.last_try now ≡ true
      → attach c lossy now (d, m) ≡ (ok false, (d, m))
  unfolding attach is_attached
  attach-early now d m detached early = rw (detached, early)

  find_in-FoundUsable :
      (at : ℕ) (name : List ℕ) (i n : ℕ) (table : List ℕ) (m : Memory)
      → FoundUsable (find_in c lossy at name i n table m).0
  unfolding find_in
  find_in-FoundUsable at name i zero table m = tt
  find_in-FoundUsable at name i (suc n) table m =
      choose (not (word_in table 4 == 0) && not (word_in table 8 == 0)) _ _ _ _
        (λ yes. ground arith) (find_in-FoundUsable at name (suc i) n (drop 24 table) _)
    where
      choose :
          (usable named : Bool) (ring : Ring) (m1 : Memory) (rest : Option Ring × Memory)
          → (usable ≡ true → HasBuffer ring)
          → FoundUsable rest.0
          → FoundUsable (if usable && named then (some ring, m1) else rest).0
      choose true true ring m1 rest h k = h refl
      choose true false ring m1 rest h k = k
      choose false named ring m1 rest h k = k

  -- A search that found nothing keeps the next one away for `retry`: until then, an attach answers
  -- that there is nothing, without an access to memory or a change of the end. That holds also where
  -- an access failed.
  pub attach-attach :
      (now later : ℕ) (d : RttDuplex) (m : Memory)
      → d.rings ≡ none
      → tried_at d.last_try now ≡ false
      → (attach c lossy now (d, m)).1.0.rings ≡ none
      → later < now + retry
      → attach c lossy later (attach c lossy now (d, m)).1
        ≡ (ok false, (attach c lossy now (d, m)).1)
  unfolding tried_at
  attach-attach now later d m detached due failed soon = rw (attach-searched now d m detached due) (
      spaced (find_pair c lossy d.address d.up_name d.down_name m)
        (rw (attach-searched now d m detached due) at failed))
    where
      still : ltb (later - now) retry ≡ true
      still = ground arith

      spaced :
          (x : Result (Option (Ring × Ring)) × Memory)
          → (searched d now x).1.0.rings ≡ none
          → attach c lossy later (searched d now x).1 ≡ (ok false, (searched d now x).1)
      spaced (err e, m') h = attach-early later (record d { last_try = some now }) m' h still
      spaced (ok none, m') h = attach-early later (record d { last_try = some now }) m' h still
      spaced (ok (some rings), m') h = absurd (ground arith)

  find_named-FoundUsable :
      (address first n : ℕ) (name : List ℕ) (m : Memory)
      → Ends (find_named c lossy address first n name m) (λ found _. FoundUsable found)
  unfolding find_named
  find_named-FoundUsable address first n name m =
      let at = address + 24 + first * 24 in
      Ends-and_then (read m at (n * 24)) _ _ _ (read-Ends c m at (n * 24))
        λ table m' h. find_in-FoundUsable at name 0 n table m'

  find_down-PairUsable :
      (address : ℕ) (name : List ℕ) (max_up max_down : ℕ) (first : Option Ring) (m : Memory)
      → FoundUsable first
      → Ends (find_down c lossy address name max_up max_down first m) (λ found _. PairUsable found)
  unfolding find_down
  find_down-PairUsable address name max_up max_down none m h = tt
  find_down-PairUsable address name max_up max_down (some up) m h =
      Ends-and_then (find_named c lossy address max_up max_down name m) _ _ _
        (find_named-FoundUsable address max_up max_down name m) λ found m' k. paired found k
    where
      paired :
          (found : Option Ring)
          → FoundUsable found
          → PairUsable (elim found [ none ↦ none | some down ↦ some (up, down) ])
      paired none k = tt
      paired (some down) k = (h, k)

  find_both-PairUsable :
      (address : ℕ) (up_name down_name : List ℕ) (counts : Option (ℕ × ℕ)) (m : Memory)
      → Ends (find_both c lossy address up_name down_name counts m) (λ found _. PairUsable found)
  unfolding find_both
  find_both-PairUsable address up_name down_name none m = tt
  find_both-PairUsable address up_name down_name (some (max_up, max_down)) m =
      Ends-and_then (find_named c lossy address 0 max_up up_name m) _ _ _
        (find_named-FoundUsable address 0 max_up up_name m)
        λ first m' h. find_down-PairUsable address down_name max_up max_down first m' h

  find_pair-PairUsable :
      (address : ℕ) (up_name down_name : List ℕ) (m : Memory)
      → Ends (find_pair c lossy address up_name down_name m) (λ found _. PairUsable found)
  unfolding find_pair
  find_pair-PairUsable address up_name down_name m =
      Ends-and_then (read_header c lossy address m) _ _ _ (anything (read_header c lossy address m))
        λ counts m' _. find_both-PairUsable address up_name down_name counts m'
    where
      anything : {A : Type 0} (x : Result A × Memory) → Ends x (λ _ _. Unit {0})
      anything (ok a, m) = tt
      anything (err e, m) = tt

  searched-IsUsable :
      (d : RttDuplex) (now : ℕ) (x : Result (Option (Ring × Ring)) × Memory)
      → IsUsable d
      → Ends x (λ found _. PairUsable found)
      → IsUsable (searched d now x).1.0
  searched-IsUsable d now (err e, m) h k = record { usable = h.usable }
  searched-IsUsable d now (ok none, m) h k = record { usable = h.usable }
  searched-IsUsable d now (ok (some rings), m) h k = record { usable = k }

  -- An attach of an end whose rings, if it has any, have a buffer each leaves an end of which the same
  -- holds, whether it finds rings, finds none, or ends with an error.
  pub attach-IsUsable :
      (now : ℕ) (d : RttDuplex) (m : Memory) → IsUsable d → IsUsable (attach c lossy now (d, m)).1.0
  attach-IsUsable now d m h = elim (Option-cases d.rings) [
    | inr (rings, e) ↦ rw (attach-there now d m rings e) h
    | inl detached ↦ elim (Bool-cases (tried_at d.last_try now)) [
      | inl early ↦ rw (attach-early now d m detached early) h
      | inr due ↦ rw (attach-searched now d m detached due) (
          searched-IsUsable d now (find_pair c lossy d.address d.up_name d.down_name m) h
            (find_pair-PairUsable d.address d.up_name d.down_name m))
    ]
  ]
