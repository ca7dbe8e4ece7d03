-- ===== src/Wire/Rounds.antt =====
-- One round of the loop of `feed`: what it consumes, what it leaves, and that more input behind the
-- buffer does not change what it decides.
use tuning_tools.Base.{
  inl, inr, ◌⊎◌, ap, ℕ, ◌+◌, ◌≤◌, ◌<◌, ◌≡◌, refl, List, [], ◌∷◌, ◌++◌, arith, length, length-append,
  length-drop, take-append, drop-append, get_or-append, drop,
}
use tuning_tools.Wire.{Round, scan, Frame, from_magic, u16_at, waits, rejects, delivers, scan_at}

pub from_magic-append : (xs ys : List ℕ) → from_magic (xs ++ ys) ≡ from_magic (from_magic xs ++ ys)
unfolding from_magic
from_magic-append [] ys = refl
from_magic-append (x ∷ xs) ys = ground (arith, from_magic-append xs ys)

from_magic_idem : (xs : List ℕ) → from_magic (from_magic xs) ≡ from_magic xs
unfolding from_magic
from_magic_idem [] = refl
from_magic_idem (x ∷ xs) = ground (arith, from_magic_idem xs)

pub length-from_magic : (xs : List ℕ) → length (from_magic xs) ≤ length xs
unfolding from_magic
length-from_magic [] = omega arith
length-from_magic (x ∷ xs) = ground (arith, length-from_magic xs)

-- Where a magic byte was found, bytes behind the buffer only join its end.
pub from_magic-cons :
    (xs ys : List ℕ) (b : ℕ) (bs : List ℕ)
    → from_magic xs ≡ b ∷ bs
    → from_magic (xs ++ ys) ≡ b ∷ bs ++ ys
unfolding from_magic
from_magic-cons [] ys b bs e = ground arith
from_magic-cons (x ∷ xs) ys b bs e = ground (arith, from_magic-cons xs ys b bs)

-- A round that waits keeps what the search left.
scan_at_waits : (xs kept : List ℕ) → scan_at xs ≡ waits kept → kept ≡ xs
unfolding scan_at
scan_at_waits [] kept e = ground arith
scan_at_waits (b ∷ bs) kept e = ground arith

scan_at_rejects : (xs rest : List ℕ) → scan_at xs ≡ rejects rest → length rest < length xs
unfolding scan_at
scan_at_rejects [] rest e = ground arith
scan_at_rejects (b ∷ bs) rest e = ground arith

scan_at_delivers :
    (xs : List ℕ) (f : Frame) (rest : List ℕ)
    → scan_at xs ≡ delivers f rest
    → length rest < length xs
unfolding scan_at
scan_at_delivers [] f rest e = ground arith
scan_at_delivers (b ∷ bs) f rest e =
    ground (arith, length-drop (8 + u16_at (b ∷ bs) 6 + 2) (b ∷ bs))

scan_at_rejects-append :
    (b : ℕ) (bs ys rest : List ℕ)
    → scan_at (b ∷ bs) ≡ rejects rest
    → scan_at (b ∷ bs ++ ys) ≡ rejects (rest ++ ys)
unfolding scan_at
scan_at_rejects-append b bs ys rest e = ground (
  arith,
  length-append bs ys,
  get_or-append (b ∷ bs) ys 1 0,
  get_or-append (b ∷ bs) ys 6 0,
  get_or-append (b ∷ bs) ys 7 0,
  get_or-append (b ∷ bs) ys (8 + u16_at (b ∷ bs) 6) 0,
  get_or-append (b ∷ bs) ys (8 + u16_at (b ∷ bs) 6 + 1) 0,
  take-append (8 + u16_at (b ∷ bs) 6) (b ∷ bs) ys,
)

scan_at_delivers-append :
    (b : ℕ) (bs ys : List ℕ) (f : Frame) (rest : List ℕ)
    → scan_at (b ∷ bs) ≡ delivers f rest
    → scan_at (b ∷ bs ++ ys) ≡ delivers f (rest ++ ys)
unfolding scan_at
scan_at_delivers-append b bs ys f rest e = ground (
  arith,
  length-append bs ys,
  get_or-append (b ∷ bs) ys 1 0,
  get_or-append (b ∷ bs) ys 2 0,
  get_or-append (b ∷ bs) ys 4 0,
  get_or-append (b ∷ bs) ys 5 0,
  get_or-append (b ∷ bs) ys 6 0,
  get_or-append (b ∷ bs) ys 7 0,
  get_or-append (b ∷ bs) ys (8 + u16_at (b ∷ bs) 6) 0,
  get_or-append (b ∷ bs) ys (8 + u16_at (b ∷ bs) 6 + 1) 0,
  take-append (8 + u16_at (b ∷ bs) 6) (b ∷ bs) ys,
  drop-append (8 + u16_at (b ∷ bs) 6 + 2) (b ∷ bs) ys,
  drop-append 8 (b ∷ bs) ys,
  length-drop 8 (b ∷ bs),
  take-append (u16_at (b ∷ bs) 6) (drop 8 (b ∷ bs)) ys,
)

-- A round that waits holds less than the longest frame.
scan_at_waits-lt : (xs kept : List ℕ) → scan_at xs ≡ waits kept → length kept < 266
unfolding scan_at
scan_at_waits-lt [] kept e = ground arith
scan_at_waits-lt (b ∷ bs) kept e = ground arith

pub Round-cases :
    (r : Round)
    → ((kept : List ℕ) × (r ≡ waits kept))
      ⊎ ((rest : List ℕ) × (r ≡ rejects rest))
      ⊎ ((f : Frame) × (rest : List ℕ) × (r ≡ delivers f rest))
Round-cases (waits kept) = inl (kept, refl)
Round-cases (rejects rest) = inr (inl (rest, refl))
Round-cases (delivers f rest) = inr (inr (f, rest, refl))

pub scan_waits : (xs kept : List ℕ) → scan xs ≡ waits kept → kept ≡ from_magic xs
unfolding scan
scan_waits xs kept e = scan_at_waits (from_magic xs) kept e

pub scan_waits-lt : (xs kept : List ℕ) → scan xs ≡ waits kept → length kept < 266
unfolding scan
scan_waits-lt xs kept e = scan_at_waits-lt (from_magic xs) kept e

pub scan_waits-append :
    (xs ys kept : List ℕ) → scan xs ≡ waits kept → scan (xs ++ ys) ≡ scan (kept ++ ys)
unfolding scan
scan_waits-append xs ys kept e = rw (scan_waits xs kept e) (ap scan_at (from_magic-append xs ys))

pub scan_rejects : (xs rest : List ℕ) → scan xs ≡ rejects rest → length rest < length xs
unfolding scan
scan_rejects xs rest e = omega (arith, scan_at_rejects (from_magic xs) rest e, length-from_magic xs)

pub scan_delivers :
    (xs : List ℕ) (f : Frame) (rest : List ℕ) → scan xs ≡ delivers f rest → length rest < length xs
unfolding scan
scan_delivers xs f rest e =
    omega (arith, scan_at_delivers (from_magic xs) f rest e, length-from_magic xs)

pub scan_rejects-append :
    (xs ys rest : List ℕ) → scan xs ≡ rejects rest → scan (xs ++ ys) ≡ rejects (rest ++ ys)
unfolding scan
scan_rejects-append xs ys rest e = go (from_magic xs) refl e
  where
    go :
        (zs : List ℕ)
        → from_magic xs ≡ zs
        → scan_at zs ≡ rejects rest
        → scan_at (from_magic (xs ++ ys)) ≡ rejects (rest ++ ys)
    go [] found h = ground (arith, scan_at_rejects [] rest h)
    go (b ∷ bs) found h =
        rw (from_magic-cons xs ys b bs found) (scan_at_rejects-append b bs ys rest h)

pub scan_delivers-append :
    (xs ys : List ℕ) (f : Frame) (rest : List ℕ)
    → scan xs ≡ delivers f rest
    → scan (xs ++ ys) ≡ delivers f (rest ++ ys)
unfolding scan
scan_delivers-append xs ys f rest e = go (from_magic xs) refl e
  where
    go :
        (zs : List ℕ)
        → from_magic xs ≡ zs
        → scan_at zs ≡ delivers f rest
        → scan_at (from_magic (xs ++ ys)) ≡ delivers f (rest ++ ys)
    go [] found h = absurd (omega (arith, scan_at_delivers [] f rest h))
    go (b ∷ bs) found h =
        rw (from_magic-cons xs ys b bs found) (scan_at_delivers-append b bs ys f rest h)
