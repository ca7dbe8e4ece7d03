-- ===== src/Tune/Guards.antt =====
-- No request reaches memory but into its own cell, and none before the target's table was found equal.
use tuning_tools.Base.{
  ℕ, ◌≡◌, ◌≢◌, ◌⊎◌, inl, inr, refl, sym, ap, ◌∙◌, arith, true, Option, none, some, List, [], ◌∷◌,
  Bool-cases,
}
use tuning_tools.Base.Bytes.{to_le_bytes}
use tuning_tools.Carrier
use tuning_tools.Carrier.{MemoryAccess}
use tuning_tools.Carrier.Ram.{poke}
use tuning_tools.Float.{Floats}
use tuning_tools.Message.{Message, Text, Except, ok, err}
use tuning_tools.Catalog.{Catalog, CatalogEntry, is_read_only, entry, request_bits}
use tuning_tools.Catalog.Read.{TableLayout, CatalogError}
use tuning_tools.Catalog.Read
use tuning_tools.Catalog.Read.Keeps.{read-Keeps}
use tuning_tools.Tune.{
  CatalogCheck, Tuner, same_entries, decide, verify_when, verify, write_bits, write_found,
  request_when, request, when_done, request_all, discard, write_message,
}

module _ (fl : Floats) (c : MemoryAccess) (utf8 : List ℕ → Option Text) where
  open c use {Memory, byte, write}

  -- Where an access came to its end, the bytes are written.
  abbrev pub Wrote : Memory → ℕ → List ℕ → Except Message (Unit {0}) × Memory → Type 0
  Wrote m a bs (ok u, m') = byte m' ≡ poke (byte m) a bs
  Wrote m a bs (err x, m') = Unit {0}

  -- What a request may do to a memory: nothing, with an error, or the write of the bits of the value
  -- into the cell of its entry.
  abbrev pub Requests : Tuner → ℕ → ℕ → Memory → Except Message (Unit {0}) × Memory → Type 0
  Requests t id v m r =
      ((r.0 ≢ ok tt) × (r.1 ≡ m))
      ⊎ ((t.check ≡ CatalogCheck.matches)
          × ((e : CatalogEntry) × (bits : ℕ) × (entry t.catalog id ≡ some e)
              × (request_bits fl e v ≡ ok bits)
              × Wrote m e.requested_address (to_le_bytes 4 bits) r))

  refused : {m : Message} → ◌≢◌ {A = Except Message (Unit {0})} (err m) (ok tt)
  refused p = ground arith

  write-Wrote : (m : Memory) (a : ℕ) (bs : List ℕ) → Wrote m a bs (write_message (write m a bs))
  write-Wrote m a bs = go (write m a bs) refl
    where
      go :
          (x : Carrier.Result (Unit {0}) × Memory)
          → write m a bs ≡ x
          → Wrote m a bs (write_message x)
      go (Carrier.ok tt, m') e = sym (ap (λ x. byte x.1) e) ∙ c.write_ok m a bs (ap (λ x. x.0) e)
      go (Carrier.err x, m') e = tt

  -- A request that succeeds was allowed, and wrote the four bytes of the value's bits into the requested
  -- cell of its entry and no other byte; one that is refused leaves memory as it was. It is refused
  -- unless the target's table was found equal, the catalog has the entry, and the entry takes the value.
  pub request-Requests :
      (t : Tuner) (id v : ℕ) (m : Memory) → Requests t id v m (request fl c utf8 t id v m)
  unfolding request
  request-Requests t id v m = by_check t.check refl
    where
      by_bits :
          t.check ≡ CatalogCheck.matches
          → (x : CatalogEntry) → entry t.catalog id ≡ some x
          → (b : Except Message ℕ) → request_bits fl x v ≡ b
          → Requests t id v m (write_bits fl c utf8 x b m)
      by_bits e x f (err y) g = inl (refused, refl)
      by_bits e x f (ok bits) g =
          inr (e, (x, bits, f, g, write-Wrote m x.requested_address (to_le_bytes 4 bits)))

      by_entry :
          t.check ≡ CatalogCheck.matches
          → (o : Option CatalogEntry) → entry t.catalog id ≡ o
          → Requests t id v m (write_found fl c utf8 id o v m)
      by_entry e none f = inl (refused, refl)
      by_entry e (some x) f = by_bits e x f (request_bits fl x v) refl

      by_check :
          (k : CatalogCheck)
          → t.check ≡ k
          → Requests t id v m (request_when fl c utf8 k t.catalog id v m)
      by_check CatalogCheck.checking e = inl (refused, refl)
      by_check (CatalogCheck.differs reason) e = inl (refused, refl)
      by_check CatalogCheck.matches e = by_entry e (entry t.catalog id) refl

  request_all-keeps :
      (t : Tuner) (es : List CatalogEntry) (m : Memory)
      → t.check ≢ CatalogCheck.matches
      → (request_all fl c utf8 t es m).1 ≡ m
  unfolding request_all
  request_all-keeps t [] m ne = refl
  request_all-keeps t (e ∷ es) m ne = elim (Bool-cases (is_read_only e.access)) [
    | inl locked ↦ rw locked (request_all-keeps t es m ne)
    | inr open_to ↦
        rw open_to
          (stopped (request fl c utf8 t e.id e.default m) (request-Requests t e.id e.default m))
  ]
    where
      stopped :
          (r : Except Message (Unit {0}) × Memory)
          → Requests t e.id e.default m r
          → (when_done fl c utf8 r (request_all fl c utf8 t es)).1 ≡ m
      stopped (ok tt, m') (inl (no_ok, same)) = absurd (no_ok refl)
      stopped (err x, m') (inl (no_ok, same)) = same
      stopped r (inr (e, rest)) = absurd (ne e)

  -- Before the target's table was found equal, a discard does not change memory at all.
  pub discard-keeps :
      (t : Tuner) (m : Memory) → t.check ≢ CatalogCheck.matches → (discard fl c utf8 t m).1 ≡ m
  unfolding discard
  discard-keeps t m ne = request_all-keeps t t.catalog.entries m ne

  decide-matches :
      (catalog : Catalog) (x : Except CatalogError Catalog)
      → (decide fl catalog x).0 ≡ CatalogCheck.matches
      → (live : Catalog) × (x ≡ ok live) × (same_entries fl live.entries catalog.entries ≡ true)
  unfolding decide
  decide-matches catalog (ok live) h =
      elim (Bool-cases (same_entries fl live.entries catalog.entries)) [
        | inl same ↦ (live, refl, same)
        | inr other ↦ absurd (unlike (rw other at h))
      ]
    where
      unlike : {m : Message} → CatalogCheck.differs m ≡ CatalogCheck.matches → ⊥
      unlike p = ground arith
  decide-matches catalog (err (CatalogError.memory e)) h = absurd (ground arith)
  decide-matches catalog (err (CatalogError.layout e)) h = absurd (ground arith)
  decide-matches catalog (err (CatalogError.invalid a e)) h = absurd (ground arith)

  verify_cases :
      (t : Tuner) (m : Memory)
      → (byte (verify fl c utf8 t m).1.1 ≡ byte m)
        × (t.check ≢ CatalogCheck.checking → (verify fl c utf8 t m).1.0 ≡ t)
        × ((verify fl c utf8 t m).1.0.check ≡ CatalogCheck.matches
            → (t.check ≡ CatalogCheck.matches)
              ⊎ ((live : Catalog) × ((Read.read fl utf8 c t.layout m).0 ≡ ok live)
                  × (same_entries fl live.entries t.catalog.entries ≡ true)))
  unfolding verify
  verify_cases t m = by_check t.check refl
    where
      by_check :
          (k : CatalogCheck)
          → t.check ≡ k
          → let r = verify_when fl c utf8 k t m in
            (byte r.1.1 ≡ byte m)
            × (t.check ≢ CatalogCheck.checking → r.1.0 ≡ t)
            × (r.1.0.check ≡ CatalogCheck.matches
                → (t.check ≡ CatalogCheck.matches)
                  ⊎ ((live : Catalog) × ((Read.read fl utf8 c t.layout m).0 ≡ ok live)
                      × (same_entries fl live.entries t.catalog.entries ≡ true)))
      by_check CatalogCheck.matches e = (refl, λ _. refl, λ _. inl e)
      by_check (CatalogCheck.differs reason) e = (refl, λ _. refl, λ h. inl h)
      by_check CatalogCheck.checking e = (
        read-Keeps fl utf8 c t.layout m,
        λ ne. absurd (ne e),
        λ h. inr (decide-matches t.catalog (Read.read fl utf8 c t.layout m).0 h),
      )

  -- A check whose outcome was decided before leaves the tuner and each byte of memory as they were.
  pub verify-keeps :
      (t : Tuner) (m : Memory)
      → t.check ≢ CatalogCheck.checking
      → ((verify fl c utf8 t m).1.0 ≡ t) × (byte (verify fl c utf8 t m).1.1 ≡ byte m)
  verify-keeps t m h = ((verify_cases t m).1 h, (verify_cases t m).0)

  -- Where the target's table counts as equal behind a check, it did before, or the check read a table with
  -- the entries of the catalog; and the check changed no byte of memory.
  pub verify-matches :
      (t : Tuner) (m : Memory)
      → (verify fl c utf8 t m).1.0.check ≡ CatalogCheck.matches
      → ((t.check ≡ CatalogCheck.matches)
          ⊎ ((live : Catalog) × ((Read.read fl utf8 c t.layout m).0 ≡ ok live)
              × (same_entries fl live.entries t.catalog.entries ≡ true)))
        × (byte (verify fl c utf8 t m).1.1 ≡ byte m)
  verify-matches t m h = ((verify_cases t m).2 h, (verify_cases t m).0)
