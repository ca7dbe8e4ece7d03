-- ===== src/Link/Entry.antt =====
-- crates/studio-core/src/link.rs: the catalog that the firmware sends, a page at a time.
pub mod Pages
use tuning_tools.Base.{
  ℕ, zero, suc, ◌+◌, ◌%◌, ◌^◌, Bool, true, not, Option, none, some, List, [], ◌∷◌, ◌++◌, length,
  leb, ltb, ◌==◌, if◌then◌else◌, ◌>>=◌,
}
use tuning_tools.Base.Bytes.{to_le_bytes}
use tuning_tools.Message.{Message, Except, ok, err}
use tuning_tools.Wire.Reader.{read_u8, read_u16, read_u32, read_text}
use tuning_tools.Catalog.{
  Catalog, CatalogEntry, CellKind, Access, kind_from_tag, access_from_tag, is_read_only, decode,
  widen,
}
use tuning_tools.Catalog.Read.{if_tunable}
use tuning_tools.Float.{Floats}

-- How a round of `read_catalog` goes on behind a page.
pub data Round : Type 0 where
  returns : Except Message Catalog → Round
  asks : List CatalogEntry → Round

module _ (fl : Floats) (lossy : List ℕ → List ℕ) where
  -- The text, and what is left; `none` where it is cut short.
  abbrev text : List ℕ → Option (List ℕ × List ℕ)
  text bytes =
      let (t, rest) = read_text lossy bytes in elim t [ none ↦ none | some x ↦ some (x, rest) ]

  unfoldable pub parse_entry : List ℕ → Option (CatalogEntry × List ℕ)
  parse_entry bytes = read_u32 bytes >>= λ id. read_u8 id.1 >>= λ kind_tag.
      kind_from_tag kind_tag.0 >>= λ kind. read_u8 kind_tag.1 >>= λ access_tag.
      access_from_tag access_tag.0 >>= λ access. read_u32 access_tag.1 >>= λ default.
      read_u32 default.1 >>= λ min. read_u32 min.1 >>= λ max. read_u32 max.1 >>= λ step.
      text step.1 >>= λ name. text name.1 >>= λ unit.
      let tunable = not (is_read_only access) in
      some (
        record {
          id = id.0;
          name = name.0;
          unit = unit.0;
          kind = kind;
          access = access;
          default = decode fl kind default.0;
          min = if_tunable tunable (some (widen fl min.0));
          max = if_tunable tunable (some (widen fl max.0));
          max_step = if_tunable tunable (some (widen fl step.0));
          requested_address = 0;
          applied_address = 0;
        },
        unit.1,
      )

  -- `n` entries.
  unfoldable pub parse_entries : ℕ → List ℕ → Option (List CatalogEntry)
  unfolding parse_entry
  parse_entries zero bytes = some []
  parse_entries (suc n) bytes =
      parse_entry bytes >>= λ e. parse_entries n e.1 >>= λ es. some (e.0 ∷ es)

  -- A page: how many entries the catalog has, and those that it brings.
  unfoldable pub parse_page : List ℕ → Option (ℕ × (ℕ × List CatalogEntry))
  unfolding parse_entries
  parse_page body = read_u16 body >>= λ total. read_u8 total.1 >>= λ returned.
      parse_entries returned.0 returned.1 >>= λ es. some (total.0, (returned.0, es))

  -- The payload that asks for the entries from an offset on, as many as fit.
  abbrev pub page_request : List CatalogEntry → List ℕ
  page_request found = to_le_bytes 2 (length found % 2 ^ 16) ++ (255 ∷ [])

  abbrev pub found_catalog : List CatalogEntry → Catalog
  found_catalog entries = record { address = 0; symbol = []; entries = entries }

  unfoldable pub after_page : List CatalogEntry → Option (ℕ × (ℕ × List CatalogEntry)) → Round
  after_page found none = returns (err Message.short_catalog)
  after_page found (some (total, (returned, es))) =
      if leb total (length (found ++ es))
      then returns (ok (found_catalog (found ++ es)))
      else if returned == 0
      then returns (err Message.short_catalog)
      else asks (found ++ es)

  -- What the firmware's answer to the request leads to: an error, no answer in time, or a body.
  unfoldable pub after_call : List CatalogEntry → Except Message (Option (List ℕ)) → Round
  unfolding parse_page after_page
  after_call found (err m) = returns (err m)
  after_call found (ok none) = returns (err Message.no_catalog)
  after_call found (ok (some body)) = after_page found (parse_page body)

  -- The loop of `read_catalog`, on fuel. `call` is what the firmware answers to a request's payload,
  -- which is another one in each round. `none` is a loop that is still running.
  unfoldable pub read_pages :
      (List ℕ → Except Message (Option (List ℕ)))
      → ℕ
      → List CatalogEntry
      → Option (Except Message Catalog)
  unfolding after_call
  read_pages call zero found = none
  read_pages call (suc n) found = elim (after_call found (call (page_request found))) [
    | returns r ↦ some r
    | asks found' ↦ read_pages call n found'
  ]

  -- `read_catalog`. Each round but the last brings an entry, and there are fewer than 2 ^ 16.
  unfoldable pub read_catalog :
      (List ℕ → Except Message (Option (List ℕ))) → Option (Except Message Catalog)
  unfolding read_pages
  read_catalog call = read_pages call (2 ^ 16 + 1) []
