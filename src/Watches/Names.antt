-- ===== src/Watches/Names.antt =====
-- crates/studio-core/src/tap.rs: the names of a watch set.
use tuning_tools.Base.{
  ℕ, ◌≡◌, ◌≢◌, refl, sym, ap, ◌∙◌, arith, true, false, List, [], ◌∷◌, ◌++◌, All, length,
  length-append, Bool-cases, inl, inr, same_bytes,
}
use tuning_tools.Message.{Text}
use tuning_tools.Watches.{WatchMeta, decimal, contains, named, free_name, rename_all, watch_set}

pub same_bytes_refl : (xs : List ℕ) → same_bytes xs xs ≡ true
same_bytes_refl [] = refl
same_bytes_refl (x ∷ xs) = ground (arith, same_bytes_refl xs)

-- A name that can stand as a key beside the time.
abbrev pub IsKey : Text → Type 0
IsKey name = (name ≢ 116 ∷ []) × (name ≢ [])

free_name-IsKey :
    (taken : List Text) (id : ℕ) (name : Text)
    → name ≢ []
    → contains taken (116 ∷ []) ≡ true
    → IsKey (free_name taken id name)
unfolding free_name
free_name-IsKey taken id [] h t = absurd (h refl)
free_name-IsKey taken id (c ∷ cs) h t = elim (Bool-cases (contains taken (c ∷ cs))) [
  | inl used ↦ rw used (λ p. long (ap (λ (l : Text). length l) p), λ p. ground arith)
  | inr free ↦ rw free (λ p. clash (sym t ∙ ap (contains taken) (sym p) ∙ free), λ p. ground arith)
]
  where
    long : length (c ∷ cs ++ (35 ∷ decimal id)) ≡ 1 → ⊥
    long e = omega (arith, length-append cs (35 ∷ decimal id))

    clash : true ≡ false → ⊥
    clash e = ground arith

named-nonempty : (id : ℕ) (name : Text) → named id name ≢ []
named-nonempty id [] = λ p. ground arith
named-nonempty id (c ∷ cs) = λ p. ground arith

contains-cons :
    (x name : Text) (taken : List Text)
    → contains taken name ≡ true
    → contains (x ∷ taken) name ≡ true
unfolding contains
contains-cons x name taken h = ground (arith, h)

rename_all-IsKey :
    (taken : List Text) (ws : List WatchMeta)
    → contains taken (116 ∷ []) ≡ true
    → All (λ w. IsKey w.name) (rename_all taken ws)
unfolding rename_all
rename_all-IsKey taken [] h = tt
rename_all-IsKey taken (w ∷ ws) h =
    let name = free_name taken w.id (named w.id w.name) in
    (
      free_name-IsKey taken w.id (named w.id w.name) (named-nonempty w.id w.name) h,
      rename_all-IsKey (name ∷ taken) ws (contains-cons name (116 ∷ []) taken h),
    )

-- No name of a watch set is empty, and none is the time key `t`.
pub watch_set-IsKey : (ws : List WatchMeta) → All (λ w. IsKey w.name) (watch_set ws)
unfolding watch_set contains
watch_set-IsKey ws = rename_all-IsKey ((116 ∷ []) ∷ []) ws refl
