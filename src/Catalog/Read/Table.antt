-- ===== src/Catalog/Read/Table.antt =====
-- What a table that was read promises, whatever bytes the memory holds.
use tuning_tools.Base.{
  ℕ, zero, suc, ◌+◌, ◌*◌, ◌%◌, ◌^◌, ◌≤◌, ◌≡◌, ◌≢◌, refl, ap, sym, ◌∙◌, inl, inr, arith, not, Option,
  none, some, List, [], ◌∷◌, ◌++◌, length, length-append, ltb, ◌==◌, Bool-cases, All, All-map,
}
use tuning_tools.Carrier.{MemoryAccess}
use tuning_tools.Float.{Floats}
use tuning_tools.Message.{Message, Text, Except, ok, err}
use tuning_tools.Catalog.{CatalogEntry, find_entry, entry}
use tuning_tools.Catalog.Read.{
  CatalogError, TableLayout, Reads, and_then, map_error, guard, name_entry, read_uint, read_entry,
  add_unless, add_entry, read_entries, read, table_magic, bad,
}

-- No id stands twice.
abbrev pub IsDistinct : List CatalogEntry → Type 0
IsDistinct [] = Unit {0}
IsDistinct (e ∷ es) = (find_entry e.id es ≡ none) × IsDistinct es

find_entry-append :
    (id : ℕ) (es : List CatalogEntry) (e : CatalogEntry)
    → find_entry id es ≡ none
    → e.id ≢ id
    → find_entry id (es ++ (e ∷ [])) ≡ none
unfolding find_entry
find_entry-append id [] e h ne = ground arith
find_entry-append id (x ∷ xs) e h ne = ground (arith, find_entry-append id xs e)

append-IsDistinct :
    (es : List CatalogEntry) (e : CatalogEntry)
    → IsDistinct es
    → find_entry e.id es ≡ none
    → IsDistinct (es ++ (e ∷ []))
unfolding find_entry
append-IsDistinct [] e d h = (refl, tt)
append-IsDistinct (x ∷ xs) e d h =
    (find_entry-append x.id xs e d.0 (ground arith), append-IsDistinct xs e d.1 (ground arith))

-- Then an entry is what its id finds.
find_entry-cons :
    (e x : CatalogEntry) (es : List CatalogEntry)
    → find_entry x.id es ≡ none
    → find_entry e.id es ≡ some e
    → find_entry e.id (x ∷ es) ≡ some e
unfolding find_entry
find_entry-cons e x es fresh found = ground (arith, differ)
  where
    none_some : ◌≡◌ {A = Option CatalogEntry} none (some e) → ⊥
    none_some q = ground arith

    differ : x.id ≢ e.id
    differ same = none_some (sym fresh ∙ ap (λ (i : ℕ). find_entry i es) same ∙ found)

self : (x : CatalogEntry) (xs : List CatalogEntry) → find_entry x.id (x ∷ xs) ≡ some x
unfolding find_entry
self x xs = ground arith

find_entry_self :
    (es : List CatalogEntry) → IsDistinct es → All (λ e. find_entry e.id es ≡ some e) es
find_entry_self [] d = tt
find_entry_self (x ∷ xs) d =
    (self x xs, All-map (λ e found. find_entry-cons e x xs d.0 found) xs (find_entry_self xs d.1))

module _ (fl : Floats) (utf8 : List ℕ → Option Text) (c : MemoryAccess) where
  open c use {Memory, byte}

  module _ (l : TableLayout) where
    -- The entries read so far are distinct, and so are those behind another, if it is taken.
    abbrev pub Yields : {A : Type 0} → Except CatalogError A × Memory → (A → Type 0) → Type 0
    Yields (ok a, m) P = P a
    Yields (err e, m) P = Unit {0}

    chain-Yields :
        {A B : Type 0} (x : Except CatalogError A × Memory) (f : A → Reads Memory B)
        (P : A → Type 0) (Q : B → Type 0)
        → Yields x P
        → ((a : A) (m : Memory) → P a → Yields (f a m) Q)
        → Yields (and_then x f) Q
    chain-Yields (ok a, m) f P Q h k = k a m h
    chain-Yields (err e, m) f P Q h k = tt

    weaken :
        {A : Type 0} (x : Except CatalogError A × Memory) (P Q : A → Type 0)
        → Yields x P
        → ((a : A) → P a → Q a)
        → Yields x Q
    weaken (ok a, m) P Q h k = k a h
    weaken (err e, m) P Q h k = tt

    anything : {A : Type 0} (x : Except CatalogError A × Memory) → Yields x (λ _. Unit {0})
    anything (ok a, m) = tt
    anything (err e, m) = tt

    add_entry-Yields :
        (found : List CatalogEntry) (e : CatalogEntry) (m : Memory)
        → IsDistinct found
        → Yields
            (add_entry fl utf8 c l found e m)
            (λ all. IsDistinct all × (length all ≡ length found + 1))
    unfolding add_entry
    add_entry-Yields found e m d = go (find_entry e.id found) refl
      where
        go :
            (o : Option CatalogEntry)
            → find_entry e.id found ≡ o
            → Yields
                (add_unless fl utf8 c l o found e m)
                (λ all. IsDistinct all × (length all ≡ length found + 1))
        go none fresh = (append-IsDistinct found e d fresh, length-append found (e ∷ []))
        go (some first) there = tt

    read_entries-Yields :
        (list i n : ℕ) (found : List CatalogEntry) (m : Memory)
        → IsDistinct found
        → Yields
            (read_entries fl utf8 c l list i n found m)
            (λ all. IsDistinct all × (length all ≡ length found + n))
    unfolding read_entries
    read_entries-Yields list i zero found m d = (d, omega arith)
    read_entries-Yields list i (suc n) found m d =
        chain-Yields
          (read_uint fl utf8 c (list + i * l.pointer) (record { offset = 0; size = l.pointer }) m) _
          _ _
          (anything (
            read_uint fl utf8 c (list + i * l.pointer) (record { offset = 0; size = l.pointer }) m))
          λ at m1 _.
            chain-Yields (map_error (name_entry l.address i) (read_entry fl utf8 c l at) m1) _ _ _
              (anything (map_error (name_entry l.address i) (read_entry fl utf8 c l at) m1))
              λ e m2 _.
                chain-Yields (add_entry fl utf8 c l found e m2) _ _ _
                  (add_entry-Yields found e m2 d)
                  λ all m3 h.
                    weaken (read_entries fl utf8 c l list (suc i) n all m3) _ _
                      (read_entries-Yields list (suc i) n all m3 h.0)
                      λ xs k. (k.0, omega (arith, k.1, h.1))

    -- A table that is read holds at most 4096 entries, and each of them is the entry that its id finds.
    pub read-Yields :
        (m : Memory)
        → Yields
            (read fl utf8 c l m)
            (λ cat. All (λ e. entry cat e.id ≡ some e) cat.entries × (length cat.entries ≤ 4096))
    unfolding read entry
    read-Yields m =
        chain-Yields (read_uint fl utf8 c l.address l.magic m) _ _ _
          (anything (read_uint fl utf8 c l.address l.magic m))
          λ magic m1 _.
            chain-Yields (guard (magic % 2 ^ 32 == table_magic) _ m1) _ _ _
              (anything (guard (magic % 2 ^ 32 == table_magic) _ m1))
              λ _ m2 _.
                chain-Yields (read_uint fl utf8 c l.address l.version m2) _ _ _
                  (anything (read_uint fl utf8 c l.address l.version m2))
                  λ version m3 _.
                    chain-Yields (guard (version % 2 ^ 32 == 1) _ m3) _ _ _
                      (anything (guard (version % 2 ^ 32 == 1) _ m3))
                      λ _ m4 _.
                        chain-Yields (read_uint fl utf8 c l.address l.entries_ptr m4) _ _ _
                          (anything (read_uint fl utf8 c l.address l.entries_ptr m4))
                          λ list m5 _.
                            chain-Yields (read_uint fl utf8 c l.address l.entries_len m5) _ _ _
                              (anything (read_uint fl utf8 c l.address l.entries_len m5))
                              λ count m6 _.
                                chain-Yields
                                  (guard (not (ltb 4096 count))
                                    (bad fl utf8 c l (Message.too_many count)) m6)
                                  _ _ _ (few count m6)
                                  λ _ m7 small.
                                    chain-Yields (read_entries fl utf8 c l list 0 count [] m7) _ _ _
                                      (read_entries-Yields list 0 count [] m7 tt)
                                      λ entries m8 h.
                                        (find_entry_self entries h.0, omega (arith, h.1, small))
      where
        few :
            (count : ℕ) (m : Memory)
            → Yields
                (guard (not (ltb 4096 count)) (bad fl utf8 c l (Message.too_many count)) m)
                (λ _. count ≤ 4096)
        few count m = elim (Bool-cases (ltb 4096 count)) [
          | inl many ↦ rw many tt
          | inr small ↦ rw small (ground arith)
        ]
