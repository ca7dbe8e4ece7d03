-- ===== src/Carrier/Ram.antt =====
-- Byte-granular memory: the bytes at an address, and a write over them.
use tuning_tools.Base.{
  ℕ, zero, suc, ◌+◌, ◌≤◌, ◌<◌, ◌≡◌, ◌⊎◌, refl, ap, List, [], ◌∷◌, ◌++◌, arith, length, ◌==◌,
  if◌then◌else◌, get_or,
}

abbrev pub Ram : Type 0
Ram = ℕ → ℕ

unfoldable pub bytes_at : Ram → ℕ → ℕ → List ℕ
bytes_at f a zero = []
bytes_at f a (suc n) = f a ∷ bytes_at f (suc a) n

unfoldable pub poke : Ram → ℕ → List ℕ → Ram
poke f a [] = f
poke f a (b ∷ bs) = λ i. if i == a then b else poke f (suc a) bs i

pub length-bytes_at : (f : Ram) (a n : ℕ) → length (bytes_at f a n) ≡ n
unfolding bytes_at
length-bytes_at f a zero = refl
length-bytes_at f a (suc n) = ap suc (length-bytes_at f (suc a) n)

pub bytes_at-append :
    (f : Ram) (a n k : ℕ) → bytes_at f a (n + k) ≡ bytes_at f a n ++ bytes_at f (a + n) k
unfolding bytes_at
bytes_at-append f a zero k =
    let e : 0 + k ≡ k = omega arith in let e' : a + 0 ≡ a = omega arith in rw (e, e')
bytes_at-append f a (suc n) k =
    let e : suc n + k ≡ suc (n + k) = omega arith in
    let e' : a + suc n ≡ suc a + n = omega arith in
    rw (e, e') (ap (◌∷◌ (f a)) (bytes_at-append f (suc a) n k))

-- A write is seen inside its range alone.
pub poke-outside :
    (f : Ram) (a : ℕ) (bs : List ℕ) (i : ℕ) → (i < a) ⊎ (a + length bs ≤ i) → poke f a bs i ≡ f i
unfolding poke
poke-outside f a [] i h = refl
poke-outside f a (b ∷ bs) i h = ground (arith, poke-outside f (suc a) bs i)

pub poke-inside :
    (f : Ram) (a : ℕ) (bs : List ℕ) (k : ℕ) → k < length bs → poke f a bs (a + k) ≡ get_or bs k 0
unfolding poke
poke-inside f a [] k h = absurd (omega arith)
poke-inside f a (b ∷ bs) zero h = ground arith
poke-inside f a (b ∷ bs) (suc k) h =
    let e : a + suc k ≡ suc a + k = omega arith in rw e (ground (arith, poke-inside f (suc a) bs k))

-- What two memories agree on, they are read alike on.
pub bytes_at-agree :
    (f g : Ram) (a n : ℕ)
    → ((i : ℕ) → a ≤ i → i < a + n → f i ≡ g i)
    → bytes_at f a n ≡ bytes_at g a n
unfolding bytes_at
bytes_at-agree f g a zero h = refl
bytes_at-agree f g a (suc n) h =
    let first = h a (omega arith) (omega arith) in
    rw (first, bytes_at-agree f g (suc a) n (λ i lo hi. h i (omega arith) (omega arith)))

-- A list is read where it stands.
pub bytes_at-eq :
    (f : Ram) (a : ℕ) (bs : List ℕ)
    → ((k : ℕ) → k < length bs → f (a + k) ≡ get_or bs k 0)
    → bytes_at f a (length bs) ≡ bs
unfolding bytes_at
bytes_at-eq f a [] h = refl
bytes_at-eq f a (b ∷ bs) h =
    let here : a + 0 ≡ a = omega arith in
    let first : f a ≡ b = rw here at (h 0 (omega arith)) in
    rw (first, bytes_at-eq f (suc a) bs (λ k lt. next k (h (suc k) (omega arith))))
  where
    next : (k : ℕ) → f (a + suc k) ≡ get_or bs k 0 → f (suc a + k) ≡ get_or bs k 0
    next k e = let there : suc a + k ≡ a + suc k = omega arith in rw there e

-- What was written is read back, and so is what lies outside.
pub bytes_at-poke : (f : Ram) (a : ℕ) (bs : List ℕ) → bytes_at (poke f a bs) a (length bs) ≡ bs
bytes_at-poke f a bs = bytes_at-eq (poke f a bs) a bs (poke-inside f a bs)

pub bytes_at-poke_outside :
    (f : Ram) (a n b : ℕ) (bs : List ℕ)
    → (a + n ≤ b) ⊎ (b + length bs ≤ a)
    → bytes_at (poke f b bs) a n ≡ bytes_at f a n
bytes_at-poke_outside f a n b bs h =
    bytes_at-agree (poke f b bs) f a n (λ i lo hi. poke-outside f b bs i (ground arith))
