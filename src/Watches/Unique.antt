-- ===== src/Watches/Unique.antt =====
-- crates/studio-core/src/tap.rs: the names of a watch set are unique, if no number sign stands in one before.
use tuning_tools.Base.{
  ℕ, zero, suc, ◌+◌, ◌-◌, ◌*◌, ◌/◌, ◌%◌, ◌^◌, ◌<◌, ◌≡◌, ◌≢◌, ◌⊎◌, refl, sym, ap, ◌∙◌, arith, true,
  false, List, [], ◌∷◌, ◌++◌, All, All-append, All-map, ltb, Bool-cases, inl, inr, same_bytes,
  subst,
}
use tuning_tools.Message.{Text}
use tuning_tools.Watches.{
  WatchMeta, WatchSet, digits, decimal, contains, named, free_name, rename_all, watch_set,
}
use tuning_tools.Watches.Names.{same_bytes_refl}

-- A text without a number sign.
abbrev pub IsPlain : Text → Type 0
IsPlain = All (λ c. c ≢ 35)

value_from : ℕ → Text → ℕ
value_from acc [] = acc
value_from acc (c ∷ cs) = value_from (10 * acc + (c - 48)) cs

value_from-append :
    (acc : ℕ) (xs ys : Text) → value_from acc (xs ++ ys) ≡ value_from (value_from acc xs) ys
unfolding value_from
value_from-append acc [] ys = refl
value_from-append acc (x ∷ xs) ys = value_from-append (10 * acc + (x - 48)) xs ys

-- Of at most `n` digits.
abbrev HasDigits : ℕ → ℕ → Type 0
HasDigits zero x = x ≡ 0
HasDigits (suc n) x = HasDigits n (x / 10)

value_from-digits : (n x : ℕ) → HasDigits n x → value_from 0 (digits n x) ≡ x
unfolding value_from digits
value_from-digits zero x h = sym h
value_from-digits (suc n) x h = elim (Bool-cases (ltb x 10)) [
  | inl small ↦ rw small (ground arith)
  | inr large ↦ rw large (
      value_from-append 0 (digits n (x / 10)) ((48 + x % 10) ∷ [])
      ∙ rw (value_from-digits n (x / 10) h) (omega arith))
]

decimal_injective : (x y : ℕ) → x < 2 ^ 32 → y < 2 ^ 32 → decimal x ≡ decimal y → x ≡ y
decimal_injective x y h k e =
    sym (value_from-digits 10 x (omega arith))
    ∙ ap (value_from 0) e
    ∙ value_from-digits 10 y (omega arith)

digits-IsPlain : (n x : ℕ) → IsPlain (digits n x)
unfolding digits
digits-IsPlain zero x = tt
digits-IsPlain (suc n) x = elim (Bool-cases (ltb x 10)) [
  | inl small ↦ rw small (last, tt)
  | inr large ↦ rw large (
      All-append (λ c. c ≢ 35) (digits n (x / 10)) ((48 + x % 10) ∷ []) (digits-IsPlain n (x / 10))
        (last, tt))
]
  where
    last : 48 + x % 10 ≢ 35
    last e = omega arith

named-IsPlain : (id : ℕ) (name : Text) → IsPlain name → IsPlain (named id name)
named-IsPlain id [] h = ((λ e. omega arith), ((λ e. omega arith), digits-IsPlain 10 id))
named-IsPlain id (c ∷ cs) h = h

no_sign : (xs ys : Text) → IsPlain (xs ++ (35 ∷ ys)) → ⊥
no_sign [] ys h = h.0 refl
no_sign (x ∷ xs) ys h = no_sign xs ys h.1

after_sign :
    (xs ys us vs : Text) → IsPlain xs → IsPlain ys → xs ++ (35 ∷ us) ≡ ys ++ (35 ∷ vs) → us ≡ vs
after_sign [] [] us vs h k e = ground arith
after_sign [] (y ∷ ys) us vs h k e = absurd (k.0 (ground arith))
after_sign (x ∷ xs) [] us vs h k e = absurd (h.0 (ground arith))
after_sign (x ∷ xs) (y ∷ ys) us vs h k e = after_sign xs ys us vs h.1 k.1 (ground arith)

not_contained :
    (taken : List Text) (name : Text) → contains taken name ≡ false → All (λ t. t ≢ name) taken
unfolding contains
not_contained [] name h = tt
not_contained (x ∷ xs) name h = (
  λ e. clash (ap (λ x. same_bytes x name) e ∙ same_bytes_refl name),
  not_contained xs name (ground arith),
)
  where
    clash : same_bytes x name ≡ true → ⊥
    clash p = ground arith

-- A name that is taken: a plain one, or one with the number of a watch that is none of those to come.
abbrev IsTaken : List WatchMeta → Text → Type 0
IsTaken ws t =
    IsPlain t
    ⊎ ((x : Text) × (j : ℕ) × IsPlain x
        × (j < 2 ^ 32)
        × (t ≡ x ++ (35 ∷ decimal j))
        × All (λ w. w.id ≢ j) ws)

-- Watches of distinct numbers, each with a plain name.
abbrev pub AreDistinct : List WatchMeta → Type 0
AreDistinct [] = Unit {0}
AreDistinct (w ∷ ws) = IsPlain w.name × (w.id < 2 ^ 32) × All (λ v. v.id ≢ w.id) ws × AreDistinct ws

abbrev pub HaveDistinctNames : WatchSet → Type 0
HaveDistinctNames [] = Unit {0}
HaveDistinctNames (w ∷ ws) = All (λ v. w.name ≢ v.name) ws × HaveDistinctNames ws

free_name-fresh :
    (taken : List Text) (w : WatchMeta) (ws : List WatchMeta) (name : Text)
    → IsPlain name
    → w.id < 2 ^ 32
    → All (λ v. v.id ≢ w.id) ws
    → All (IsTaken (w ∷ ws)) taken
    → All (λ t. t ≢ free_name taken w.id name) taken × IsTaken ws (free_name taken w.id name)
unfolding free_name
free_name-fresh taken w ws name plain small others h = elim (Bool-cases (contains taken name)) [
  | inl used ↦ rw used (All-map differs taken h, inr (name, w.id, plain, small, refl, others))
  | inr free ↦ rw free (not_contained taken name free, inl plain)
]
  where
    differs : (t : Text) → IsTaken (w ∷ ws) t → t ≢ name ++ (35 ∷ decimal w.id)
    differs t (inl p) e = no_sign name (decimal w.id) (subst IsPlain e p)
    differs t (inr (x, j, p, few, same, other)) e = other.0 (
        decimal_injective w.id j small few
          (after_sign name x (decimal w.id) (decimal j) plain p (sym e ∙ same)))

rename_all-distinct :
    (taken : List Text) (ws : List WatchMeta)
    → AreDistinct ws
    → All (IsTaken ws) taken
    → All (λ m. All (λ t. t ≢ m.name) taken) (rename_all taken ws)
      × HaveDistinctNames (rename_all taken ws)
unfolding rename_all
rename_all-distinct taken [] d h = (tt, tt)
rename_all-distinct taken (w ∷ ws) (plain, small, others, d) h =
    let given = named w.id w.name in
    let name = free_name taken w.id given in
    let (fresh, taken_too) =
      free_name-fresh taken w ws given (named-IsPlain w.id w.name plain) small others h in
    let (behind, distinct) =
      rename_all-distinct (name ∷ taken) ws d (taken_too, All-map weaken taken h) in
    (
      (fresh, All-map (λ m k. k.1) (rename_all (name ∷ taken) ws) behind),
      (All-map (λ m k. k.0) (rename_all (name ∷ taken) ws) behind, distinct),
    )
  where
    weaken : (t : Text) → IsTaken (w ∷ ws) t → IsTaken ws t
    weaken t (inl p) = inl p
    weaken t (inr (x, j, p, few, same, other)) = inr (x, j, p, few, same, other.1)

-- The names of a watch set are distinct, where the watches have distinct numbers of 32 bits and no name
-- that they are given has a number sign in it.
pub watch_set-distinct : (ws : List WatchMeta) → AreDistinct ws → HaveDistinctNames (watch_set ws)
unfolding watch_set
watch_set-distinct ws d =
    (rename_all-distinct ((116 ∷ []) ∷ []) ws d (inl ((λ e. omega arith), tt), tt)).1
