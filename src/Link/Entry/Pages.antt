-- ===== src/Link/Entry/Pages.antt =====
-- The loop that reads the firmware's catalog ends, whatever the firmware answers.
use tuning_tools.Base.{
  ℕ, zero, suc, ◌+◌, ◌^◌, ◌<◌, ◌≡◌, refl, arith, Option, none, some, List, [], ◌∷◌, ◌++◌, length,
  length-append, leb, ltb, ◌==◌, Bool-cases, inl, inr, >>=-eq-some, ap, sym, ◌∙◌, take, drop,
  length-take, All, All-take,
}
use tuning_tools.Base.Bytes.{IsByte, from_le_bytes, from_le_bytes-lt}
use tuning_tools.Message.{Message, Except, ok, err}
use tuning_tools.Wire.Reader.{read_u8, read_u16, read_word, read_bytes}
use tuning_tools.Catalog.{Catalog, CatalogEntry}
use tuning_tools.Float.{Floats}
use tuning_tools.Link.Entry.{
  parse_entry, parse_entries, parse_page, Round, after_page, after_call, read_pages, read_catalog,
  page_request, returns,
}

module _ (fl : Floats) (lossy : List ℕ → List ℕ) where
  length-parse_entries :
      (n : ℕ) (bytes : List ℕ) (es : List CatalogEntry)
      → parse_entries fl lossy n bytes ≡ some es
      → length es ≡ n
  unfolding parse_entries
  length-parse_entries zero bytes es h = let same : [] ≡ es = ground arith in rw (← same)
  length-parse_entries (suc n) bytes es h =
      let (e, p, q) = >>=-eq-some (parse_entry fl lossy bytes) _ es h in
      let (rest, r, t) = >>=-eq-some (parse_entries fl lossy n e.1) _ es q in
      let same : e.0 ∷ rest ≡ es = some_inj t in
      rw (← same) (ap suc (length-parse_entries n e.1 rest r))
    where
      some_inj : {x y : List CatalogEntry} → some x ≡ some y → x ≡ y
      some_inj p = ground arith

  read_u16-lt :
      (bytes : List ℕ) (t : ℕ × List ℕ) → All IsByte bytes → read_u16 bytes ≡ some t → t.0 < 2 ^ 16
  unfolding read_u16 read_word read_bytes
  read_u16-lt bytes t h e = elim (Bool-cases (ltb (length bytes) 2)) [
    | inl short ↦ absurd (none_some (rw short at e))
    | inr whole ↦
        let got : some (from_le_bytes (take 2 bytes), drop 2 bytes) ≡ some t = rw whole at e in
        let same : from_le_bytes (take 2 bytes) ≡ t.0 = first got in
        let len : length (take 2 bytes) ≡ 2 = ground (arith, length-take 2 bytes) in
        let small = from_le_bytes-lt (take 2 bytes) (All-take IsByte 2 bytes h) in
        rw (← same) (rw len at small)
  ]
    where
      none_some : ◌≡◌ {A = Option (ℕ × List ℕ)} none (some t) → ⊥
      none_some p = ground arith

      first : {x y : ℕ × List ℕ} → some x ≡ some y → x.0 ≡ y.0
      first p = ground arith

  parse_page-counts :
      (body : List ℕ) (total returned : ℕ) (es : List CatalogEntry)
      → All IsByte body
      → parse_page fl lossy body ≡ some (total, (returned, es))
      → (total < 2 ^ 16) × (length es ≡ returned)
  unfolding parse_page
  parse_page-counts body total returned es bytes h =
      let (t, p, q) = >>=-eq-some (read_u16 body) _ _ h in
      let (r, p', q') = >>=-eq-some (read_u8 t.1) _ _ q in
      let (xs, p'', q'') = >>=-eq-some (parse_entries fl lossy r.0 r.1) _ _ q' in
      counts t r xs (read_u16-lt body t bytes p) (length-parse_entries r.0 r.1 xs p'') q''
    where
      counts :
          (t r : ℕ × List ℕ) (xs : List CatalogEntry)
          → t.0 < 2 ^ 16
          → length xs ≡ r.0
          → ◌≡◌ {A = Option (ℕ × (ℕ × List CatalogEntry))}
              (some (t.0, (r.0, xs)))
              (some (total, (returned, es)))
          → (total < 2 ^ 16) × (length es ≡ returned)
      counts t r xs small len e =
          let same : xs ≡ es = ground arith in
          (ground arith, ap (λ (l : List CatalogEntry). length l) (sym same) ∙ len ∙ ground arith)

  -- A round that goes on brings an entry at least, and has not yet all of fewer than 2 ^ 16.
  after_page-grows :
      (found found' : List CatalogEntry) (page : Option (ℕ × (ℕ × List CatalogEntry)))
      → ((total returned : ℕ) (es : List CatalogEntry)
          → page ≡ some (total, (returned, es))
          → (total < 2 ^ 16) × (length es ≡ returned))
      → after_page fl lossy found page ≡ Round.asks found'
      → (length found < length found') × (length found' < 2 ^ 16)
  unfolding after_page
  after_page-grows found found' none h e = absurd (ground arith)
  after_page-grows found found' (some (total, (returned, es))) h e =
      let (small, len) = h total returned es refl in
      elim (Bool-cases (leb total (length (found ++ es)))) [
        | inl whole ↦ absurd (other (rw whole at e))
        | inr more ↦ elim (Bool-cases (returned == 0)) [
          | inl empty ↦ absurd (other (rw (more, empty) at e))
          | inr some_more ↦
              let same : found ++ es ≡ found' = asked (rw (more, some_more) at e) in
              let size = length-append found es in rw (← same) (ground arith, ground arith)
        ]
      ]
    where
      other : {r : Except Message Catalog} → returns r ≡ Round.asks found' → ⊥
      other p = ground arith

      asked : {xs ys : List CatalogEntry} → Round.asks xs ≡ Round.asks ys → xs ≡ ys
      asked p = ground arith

  module _ (call : List ℕ → Except Message (Option (List ℕ)))
      (bytes : (p body : List ℕ) → call p ≡ ok (some body) → All IsByte body) where
    after_call-grows :
        (found found' : List CatalogEntry)
        → after_call fl lossy found (call (page_request fl lossy found)) ≡ Round.asks found'
        → (length found < length found') × (length found' < 2 ^ 16)
    unfolding after_call
    after_call-grows found found' = go (call (page_request fl lossy found)) refl
      where
        go :
            (r : Except Message (Option (List ℕ)))
            → call (page_request fl lossy found) ≡ r
            → after_call fl lossy found r ≡ Round.asks found'
            → (length found < length found') × (length found' < 2 ^ 16)
        go (err m) e h = absurd (ground arith)
        go (ok none) e h = absurd (ground arith)
        go (ok (some body)) e h =
            after_page-grows found found' (parse_page fl lossy body)
              (λ total returned es p.
                parse_page-counts body total returned es
                  (bytes (page_request fl lossy found) body e) p)
              h

    read_pages_total :
        (n : ℕ) (found : List CatalogEntry)
        → length found < 2 ^ 16
        → 2 ^ 16 < length found + n
        → (r : Except Message Catalog) × (read_pages fl lossy call n found ≡ some r)
    unfolding read_pages
    read_pages_total zero found small h = absurd (omega arith)
    read_pages_total (suc n) found small h =
        go (after_call fl lossy found (call (page_request fl lossy found))) (read_pages_total n)
          refl
      where
        go :
            (round : Round)
            → ((found' : List CatalogEntry)
                → length found' < 2 ^ 16
                → 2 ^ 16 < length found' + n
                → (r : Except Message Catalog) × (read_pages fl lossy call n found' ≡ some r))
            → after_call fl lossy found (call (page_request fl lossy found)) ≡ round
            → (r : Except Message Catalog) × (read_pages fl lossy call (suc n) found ≡ some r)
        go (returns r) more e = (r, rw (e, read_pages) refl)
        go (Round.asks found') more e =
            let (grows, small') = after_call-grows found found' e in
            let (r, p) = more found' small' (omega arith) in (r, rw (e, read_pages) p)

    -- Reading the catalog returns a catalog or an error, with the fuel that it has, for whatever
    -- answers the firmware gives, as long as they are bytes.
    pub read_catalog_total : (r : Except Message Catalog) × (read_catalog fl lossy call ≡ some r)
    unfolding read_catalog
    read_catalog_total = read_pages_total (2 ^ 16 + 1) [] (omega arith) (omega arith)
