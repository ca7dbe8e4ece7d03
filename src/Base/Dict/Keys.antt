-- ===== src/Base/Dict/Keys.antt =====
-- Maps in which no key stands twice, and sums over what they hold.
use Prim.Native.Nat.{ℕ, ◌+◌}
use mathlib.Core.Path.{◌≡◌, refl, ap}
use mathlib.Core.Logic.{inl, inr}
use mathlib.Core.Option.{none, some}
use mathlib.Core.List.{List, [], ◌∷◌}
use native.Mathlib.Omega.{arith}
use tuning_tools.Base.Tests.{◌==◌, Bool-cases, ==_iff}
use tuning_tools.Base.Dict.{lookup, remove, insert, lookup-remove}

module _ {ℓ} {V : Type ℓ} where
  -- No key stands twice.
  abbrev pub IsUnique : List (ℕ × V) → Type ℓ
  IsUnique [] = Unit
  IsUnique ((j, v) ∷ m) = (lookup j m ≡ none) × IsUnique m

  pub remove-none : (k : ℕ) (m : List (ℕ × V)) → lookup k m ≡ none → remove k m ≡ m
  unfolding lookup remove
  remove-none k [] h = refl
  remove-none k ((j, v) ∷ m) h = elim (Bool-cases (j == k)) [
    | inl same ↦ absurd (found (rw same at h))
    | inr other ↦ rw other (ap (λ l. (j, v) ∷ l) (remove-none k m (rw other at h)))
  ]
    where
      found : some v ≡ none → ⊥
      found p = ground arith

  pub remove-IsUnique : (k : ℕ) (m : List (ℕ × V)) → IsUnique m → IsUnique (remove k m)
  unfolding remove
  remove-IsUnique k [] u = u
  remove-IsUnique k ((j, v) ∷ m) u = elim (Bool-cases (j == k)) [
    | inl same ↦ rw same (remove-IsUnique k m u.1)
    | inr other ↦ rw other (ground (arith, lookup-remove k j m, u.0), remove-IsUnique k m u.1)
  ]

  pub insert-IsUnique : (k : ℕ) (v : V) (m : List (ℕ × V)) → IsUnique m → IsUnique (insert k v m)
  unfolding insert
  insert-IsUnique k v m u = (ground (arith, lookup-remove k k m), remove-IsUnique k m u)

  -- The sum of a weight over the values.
  unfoldable pub total : (V → ℕ) → List (ℕ × V) → ℕ
  total f [] = 0
  total f ((j, v) ∷ m) = f v + total f m

  -- A value that is taken out takes its weight along.
  pub total-remove :
      (f : V → ℕ) (k : ℕ) (v : V) (m : List (ℕ × V))
      → IsUnique m
      → lookup k m ≡ some v
      → total f m ≡ f v + total f (remove k m)
  unfolding total lookup remove
  total-remove f k v [] u h = absurd (ground arith)
  total-remove f k v ((j, w) ∷ m) u h = elim (Bool-cases (j == k)) [
    | inl same ↦
        let e : j ≡ k = (==_iff j k).0 same in
        let gone : lookup k m ≡ none = rw (← e) u.0 in
        let here : w ≡ v = some_inj (rw same at h) in rw (same, remove-none k m gone, here)
    | inr other ↦ rw other (omega (arith, total-remove f k v m u.1 (rw other at h)))
  ]
    where
      some_inj : some w ≡ some v → w ≡ v
      some_inj p = ground arith

  -- A value that is put in adds its weight, where the key was free.
  pub total-insert :
      (f : V → ℕ) (k : ℕ) (v : V) (m : List (ℕ × V))
      → lookup k m ≡ none
      → total f (insert k v m) ≡ f v + total f m
  unfolding insert total
  total-insert f k v m h = rw (remove-none k m h)
