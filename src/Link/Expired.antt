-- ===== src/Link/Expired.antt =====
-- crates/studio-core/src/link.rs: no request waits beyond its time.
use tuning_tools.Base.{
  ℕ, ◌-◌, ◌≡◌, refl, sym, arith, false, Option, none, some, List, [], ◌∷◌, ltb, ◌==◌, Bool-cases,
  inl, inr, ◌⊎◌, ◌≤◌, All, All-map, subst,
}
use tuning_tools.Base.Dict.{lookup, remove}
use tuning_tools.Base.Dict.Keys.{remove-none}
use tuning_tools.Link.{Worker, Pending, Setting, and_then}
use tuning_tools.Link.Frames.{limit_of, late_seqs, on_late, on_expired, expire_all, expire}

remove_all : List ℕ → List (ℕ × (Pending × ℕ)) → List (ℕ × (Pending × ℕ))
remove_all [] m = m
remove_all (seq ∷ seqs) m = remove_all seqs (remove seq m)

abbrev Entry : Type 0
Entry = ℕ × (Pending × ℕ)

In : ℕ → List ℕ → Type 0
In x [] = ⊥
In x (y ∷ ys) = (x ≡ y) ⊎ In x ys

module _ (env : Setting) where
  open env use {World}

  expire_all-pending :
      (seqs : List ℕ) (w : Worker) (s : World)
      → (expire_all env seqs (w, s)).1.0.pending ≡ remove_all seqs w.pending
  unfolding expire_all remove_all on_expired on_late
  expire_all-pending [] w s = refl
  expire_all-pending (seq ∷ seqs) w s = go (lookup seq w.pending) refl (expire_all-pending seqs)
    where
      go :
          (o : Option (Pending × ℕ))
          → lookup seq w.pending ≡ o
          → ((w : Worker) (s : World)
              → (expire_all env seqs (w, s)).1.0.pending ≡ remove_all seqs w.pending)
          → (and_then (on_expired env seq o (w, s)) (λ u. expire_all env seqs)).1.0.pending
            ≡ remove_all seqs (remove seq w.pending)
      go none e more = rw (remove-none seq w.pending e) (more w s)
      go (some (Pending.write k, sent)) e more = more _ _
      go (some (Pending.discard k, sent)) e more = more _ _
      go (some (Pending.save k, sent)) e more = more _ _
      go (some (Pending.lease, sent)) e more = more _ _
      go (some (Pending.read, sent)) e more = more _ _
      go (some (Pending.stats, sent)) e more = more _ _
      go (some (Pending.watch subs period, sent)) e more = more _ _

  -- Whether a request is still within its time.
  abbrev pub IsTimely : ℕ → Entry → Type 0
  IsTimely now (seq, (p, sent)) = now - sent ≤ limit_of p

  Covered : ℕ → List ℕ → Entry → Type 0
  unfolding In
  Covered now seqs e = IsTimely now e ⊎ In e.0 seqs

  late-Covered : (now : ℕ) (m : List Entry) → All (Covered now (late_seqs env now m)) m
  unfolding late_seqs Covered In
  late-Covered now [] = tt
  late-Covered now ((seq, (p, sent)) ∷ m) = elim (Bool-cases (ltb (limit_of p) (now - sent))) [
    | inl late ↦
        let e : late_seqs env now ((seq, (p, sent)) ∷ m) ≡ seq ∷ late_seqs env now m =
          rw late refl in
        subst (λ l. All (Covered now l) ((seq, (p, sent)) ∷ m)) (sym e)
          (inr (inl refl), All-map wider m (late-Covered now m))
    | inr timely ↦
        let e : late_seqs env now ((seq, (p, sent)) ∷ m) ≡ late_seqs env now m = rw timely refl in
        subst (λ l. All (Covered now l) ((seq, (p, sent)) ∷ m)) (sym e)
          (inl (ground arith), late-Covered now m)
  ]
    where
      wider :
          (e : Entry)
          → Covered now (late_seqs env now m) e
          → Covered now (seq ∷ late_seqs env now m) e
      wider e (inl t) = inl t
      wider e (inr i) = inr (inr i)

  remove-Covered :
      (now seq : ℕ) (seqs : List ℕ) (m : List Entry)
      → All (Covered now (seq ∷ seqs)) m
      → All (Covered now seqs) (remove seq m)
  unfolding remove Covered In
  remove-Covered now seq seqs [] h = tt
  remove-Covered now seq seqs ((j, v) ∷ m) (h, hs) = elim (Bool-cases (j == seq)) [
    | inl same ↦ rw same (remove-Covered now seq seqs m hs)
    | inr other ↦ rw other (narrow h other, remove-Covered now seq seqs m hs)
  ]
    where
      narrow : Covered now (seq ∷ seqs) (j, v) → (j == seq) ≡ false → Covered now seqs (j, v)
      narrow (inl t) e = inl t
      narrow (inr (inl p)) e = absurd (ground (arith, p))
      narrow (inr (inr i)) e = inr i

  remove_all-IsTimely :
      (now : ℕ) (seqs : List ℕ) (m : List Entry)
      → All (Covered now seqs) m
      → All (IsTimely now) (remove_all seqs m)
  unfolding remove_all Covered In
  remove_all-IsTimely now [] m h = All-map kept m h
    where
      kept : (e : Entry) → Covered now [] e → IsTimely now e
      kept e (inl t) = t
      kept e (inr i) = absurd i
  remove_all-IsTimely now (seq ∷ seqs) m h =
      remove_all-IsTimely now seqs (remove seq m) (remove-Covered now seq seqs m h)

  -- When the requests that are late have been given up, each one that still waits is within its time: a
  -- save within 3 s, another one within 1 s.
  pub expire-IsTimely :
      (now : ℕ) (w : Worker) (s : World) → All (IsTimely now) (expire env now (w, s)).1.0.pending
  unfolding expire
  expire-IsTimely now w s =
      rw (expire_all-pending (late_seqs env now w.pending) w s) (
        remove_all-IsTimely now (late_seqs env now w.pending) w.pending
          (late-Covered now w.pending))
