-- ===== src/Catalog/Read/Keeps.antt =====
-- Reading the table changes no byte of memory.
use tuning_tools.Base.{
  ℕ, zero, suc, ◌+◌, ◌*◌, ◌%◌, ◌^◌, ◌≡◌, min, refl, ◌∙◌, Bool, true, false, not, Option, none, some,
  List, [], ltb, ◌==◌, if◌then◌else◌,
}
use tuning_tools.Carrier
use tuning_tools.Carrier.{MemoryAccess}
use tuning_tools.Float.{Floats}
use tuning_tools.Message.{Text, Except, ok, err}
use tuning_tools.Catalog.{CatalogEntry, kind_from_tag, access_from_tag, find_entry}
use tuning_tools.Catalog.Read.{
  CatalogError, Field, TableLayout, Reads, and_then, from_carrier, mapped, map_error, some_or,
  guard, pure, name_entry, read_bytes, read_uint, read_text, read_float, read_entry, add_unless,
  add_entry, read_entries, read, table_magic,
}

module _ (fl : Floats) (utf8 : List ℕ → Option Text) (c : MemoryAccess) where
  open c use {Memory, byte}

  -- A step that leaves every byte as it is, errors included.
  abbrev Keeps : {A : Type 0} → Reads Memory A → Type 0
  Keeps s = (m : Memory) → byte (s m).1 ≡ byte m

  chain :
      {A B : Type 0} (m : Memory) (x : Except CatalogError A × Memory) (f : A → Reads Memory B)
      → byte x.1 ≡ byte m
      → ((a : A) → Keeps (f a))
      → byte (and_then x f).1 ≡ byte m
  chain m (ok a, m') f h k = k a m' ∙ h
  chain m (err e, m') f h k = h

  read_bytes-Keeps : (a n : ℕ) → Keeps (read_bytes fl utf8 c a n)
  unfolding read_bytes
  read_bytes-Keeps a n m = same (c.read m a n) ∙ c.read_keeps m a n
    where
      same : {A : Type 0} (x : Carrier.Result A × Memory) → byte (from_carrier x).1 ≡ byte x.1
      same (Carrier.ok a, m) = refl
      same (Carrier.err e, m) = refl

  some_or-Keeps : {A : Type 0} (o : Option A) (e : CatalogError) → Keeps (some_or o e)
  some_or-Keeps none e m = refl
  some_or-Keeps (some a) e m = refl

  guard-Keeps : (b : Bool) (e : CatalogError) → Keeps (guard b e)
  guard-Keeps true e m = refl
  guard-Keeps false e m = refl

  either-Keeps :
      {A : Type 0} (b : Bool) (s t : Reads Memory A)
      → Keeps s
      → Keeps t
      → Keeps (if b then s else t)
  either-Keeps true s t h k = h
  either-Keeps false s t h k = k

  read_uint-Keeps : (base : ℕ) (f : Field) → Keeps (read_uint fl utf8 c base f)
  unfolding read_uint
  read_uint-Keeps base f m =
      chain m (read_bytes fl utf8 c (base + f.offset) (min f.size 8) m) _
        (read_bytes-Keeps (base + f.offset) (min f.size 8) m) (λ bytes m. refl)

  read_text-Keeps : (base : ℕ) (p l : Field) → Keeps (read_text fl utf8 c base p l)
  unfolding read_text
  read_text-Keeps base p l m =
      chain m (read_uint fl utf8 c base p m) _ (read_uint-Keeps base p m) λ at m1.
        chain m1 (read_uint fl utf8 c base l m1) _ (read_uint-Keeps base l m1) λ n.
          either-Keeps (ltb 256 n) _ _ (λ m. refl)
            λ m2.
              chain m2 ((if ltb 0 n then read_bytes fl utf8 c at n else pure []) m2) _
                (either-Keeps (ltb 0 n) _ _ (read_bytes-Keeps at n) (λ m. refl) m2)
                (λ bytes m. refl)

  read_float-Keeps : (at : ℕ) (f : Field) → Keeps (read_float fl utf8 c at f)
  unfolding read_float
  read_float-Keeps at f m =
      chain m (read_uint fl utf8 c at f m) _ (read_uint-Keeps at f m) (λ word m. refl)

  module _ (l : TableLayout) where
    read_entry-Keeps : (at : ℕ) → Keeps (read_entry fl utf8 c l at)
    unfolding read_entry
    read_entry-Keeps at m0 =
        chain m0 (read_uint fl utf8 c at l.kind m0) _ (read_uint-Keeps at l.kind m0) λ kind_word m1.
          chain m1 (some_or (kind_from_tag (kind_word % 256)) _ m1) _
            (some_or-Keeps (kind_from_tag (kind_word % 256)) _ m1)
            λ kind m2.
              chain m2 (read_uint fl utf8 c at l.access m2) _ (read_uint-Keeps at l.access m2)
                λ tag m3.
                  chain m3 (some_or (access_from_tag tag) _ m3) _
                    (some_or-Keeps (access_from_tag tag) _ m3)
                    λ access m4.
                      chain m4 (read_text fl utf8 c at l.name_ptr l.name_len m4) _
                        (read_text-Keeps at l.name_ptr l.name_len m4)
                        λ name m5.
                          chain m5 (read_text fl utf8 c at l.unit_ptr l.unit_len m5) _
                            (read_text-Keeps at l.unit_ptr l.unit_len m5)
                            λ unit m6.
                              chain m6 (read_float fl utf8 c at l.min m6) _
                                (read_float-Keeps at l.min m6)
                                λ min m7.
                                  chain m7 (read_float fl utf8 c at l.max m7) _
                                    (read_float-Keeps at l.max m7)
                                    λ max m8.
                                      chain m8 (read_float fl utf8 c at l.max_step m8) _
                                        (read_float-Keeps at l.max_step m8)
                                        λ step m9.
                                          chain m9 (read_uint fl utf8 c at l.id m9) _
                                            (read_uint-Keeps at l.id m9)
                                            λ id m10.
                                              chain m10 (some_or name _ m10) _
                                                (some_or-Keeps name _ m10)
                                                λ name m11.
                                                  chain m11 (some_or unit _ m11) _
                                                    (some_or-Keeps unit _ m11)
                                                    λ unit m12.
                                                      chain m12
                                                        (read_uint fl utf8 c at l.default m12) _
                                                        (read_uint-Keeps at l.default m12)
                                                        λ default m13. refl

    read_entries-Keeps :
        (list i n : ℕ) (found : List CatalogEntry) → Keeps (read_entries fl utf8 c l list i n found)
    unfolding read_entries
    read_entries-Keeps list i zero found m = refl
    read_entries-Keeps list i (suc n) found m =
        chain m
          (read_uint fl utf8 c (list + i * l.pointer) (record { offset = 0; size = l.pointer }) m) _
          (read_uint-Keeps (list + i * l.pointer) (record { offset = 0; size = l.pointer }) m)
          λ at m1.
            chain m1 (map_error (name_entry l.address i) (read_entry fl utf8 c l at) m1) _
              (mapped-keeps (read_entry fl utf8 c l at m1) ∙ read_entry-Keeps at m1)
              λ e m2.
                chain m2 (add_entry fl utf8 c l found e m2) _
                  (add_entry-Keeps (find_entry e.id found) e m2)
                  λ all. read_entries-Keeps list (suc i) n all
      where
        mapped-keeps :
            (x : Except CatalogError CatalogEntry × Memory)
            → byte (mapped (name_entry l.address i) x).1 ≡ byte x.1
        mapped-keeps (ok a, m) = refl
        mapped-keeps (err e, m) = refl

        add_entry-Keeps :
            (o : Option CatalogEntry) (e : CatalogEntry) → Keeps (add_unless fl utf8 c l o found e)
        add_entry-Keeps none e m = refl
        add_entry-Keeps (some first) e m = refl

    -- Reading a table changes no byte of memory, whether it fails or not.
    pub read-Keeps : (m : Memory) → byte (read fl utf8 c l m).1 ≡ byte m
    unfolding read
    read-Keeps m =
        chain m (read_uint fl utf8 c l.address l.magic m) _ (read_uint-Keeps l.address l.magic m)
          λ magic m1.
            chain m1 (guard (magic % 2 ^ 32 == table_magic) _ m1) _
              (guard-Keeps (magic % 2 ^ 32 == table_magic) _ m1)
              λ _ m2.
                chain m2 (read_uint fl utf8 c l.address l.version m2) _
                  (read_uint-Keeps l.address l.version m2)
                  λ version m3.
                    chain m3 (guard (version % 2 ^ 32 == 1) _ m3) _
                      (guard-Keeps (version % 2 ^ 32 == 1) _ m3)
                      λ _ m4.
                        chain m4 (read_uint fl utf8 c l.address l.entries_ptr m4) _
                          (read_uint-Keeps l.address l.entries_ptr m4)
                          λ list m5.
                            chain m5 (read_uint fl utf8 c l.address l.entries_len m5) _
                              (read_uint-Keeps l.address l.entries_len m5)
                              λ count m6.
                                chain m6 (guard (not (ltb 4096 count)) _ m6) _
                                  (guard-Keeps (not (ltb 4096 count)) _ m6)
                                  λ _ m7.
                                    chain m7 (read_entries fl utf8 c l list 0 count [] m7) _
                                      (read_entries-Keeps list 0 count [] m7) λ entries m8. refl
