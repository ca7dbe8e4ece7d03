-- ===== src/Catalog/Read/Tests.antt =====
-- A table with one value in the mock target, and the theorems about tables at it.
use tuning_tools.Base.{ℕ, ◌≡◌, refl, ◌≤◌, some, List, [], ◌∷◌, ◌++◌, length, arith, All}
use tuning_tools.Base.Bytes.{to_le_bytes}
use tuning_tools.Carrier.Ram.{Ram, poke, bytes_at}
use tuning_tools.Carrier.Mock
use tuning_tools.Carrier.Mock.{MockLink, mock_memory, touches}
use tuning_tools.Float.Sample.{sample_floats}
use tuning_tools.Message.{ok}
use tuning_tools.Catalog.{
  CatalogEntry, CellKind, Access, entry, find_entry, kind_from_tag, access_from_tag, decode, encode,
}
use tuning_tools.Catalog.Cells.{encode-decode}
use tuning_tools.Catalog.Read.{Field, TableLayout, read, table_magic}
use tuning_tools.Catalog.Read.Table.{Yields, read-Yields}

abbrev pub word : ℕ → Field
word at = record { offset = at; size = 4 }

abbrev pub byte_field : ℕ → Field
byte_field at = record { offset = at; size = 1 }

abbrev pub layout : TableLayout
layout = record {
  address = 256;
  symbol = [];
  magic = word 0;
  version = word 4;
  entries_ptr = word 8;
  entries_len = word 12;
  pointer = 4;
  id = word 0;
  kind = byte_field 4;
  access = byte_field 5;
  name_ptr = word 8;
  name_len = word 12;
  unit_ptr = word 16;
  unit_len = word 20;
  default = word 24;
  min = word 28;
  max = word 32;
  max_step = word 36;
  requested = word 40;
  applied = word 44;
}

abbrev pub words : List ℕ → List ℕ
words [] = []
words (w ∷ ws) = to_le_bytes 4 w ++ words ws

-- The table, the list of its one pointer, the entry, and its name "kp".
abbrev pub table_ram : Ram
table_ram =
    poke
      (poke
        (poke (poke (λ i. 0) 256 (words (table_magic ∷ 1 ∷ 512 ∷ 1 ∷ []))) 512 (words (768 ∷ [])))
        768 (words (77 ∷ 258 ∷ 1024 ∷ 2 ∷ 0 ∷ 0 ∷ 5 ∷ 1 ∷ 9 ∷ 2 ∷ [])))
      1024 (107 ∷ 112 ∷ [])

abbrev pub target : MockLink
target = record { ram = table_ram; faults = []; reads = 0 }

-- A `u32` cell that is tunable; the sample floats are four times the numbers, and two for an `f32`.
abbrev pub gain : CatalogEntry
gain = record {
  id = 77;
  name = 107 ∷ 112 ∷ [];
  unit = [];
  kind = CellKind.u32;
  access = Access.live;
  default = 20;
  min = some 6;
  max = some 38;
  max_step = some 10;
  requested_address = 808;
  applied_address = 812;
}

reads_the_gain :
    (read sample_floats (λ bs. some bs) mock_memory layout target).0
    ≡ ok (record { address = 256; symbol = []; entries = gain ∷ [] })
unfolding read Mock.read touches poke bytes_at decode find_entry kind_from_tag access_from_tag
reads_the_gain = refl

read-Yields_example :
    Yields sample_floats
      (λ bs. some bs)
      mock_memory
      layout
      (read sample_floats (λ bs. some bs) mock_memory layout target)
      (λ cat. All (λ e. entry cat e.id ≡ some e) cat.entries × (length cat.entries ≤ 4096))
read-Yields_example = read-Yields sample_floats (λ bs. some bs) mock_memory layout target

encode-decode_example :
    encode sample_floats CellKind.i32 (decode sample_floats CellKind.i32 0xfffffffe) ≡ ok 0xfffffffe
encode-decode_example = encode-decode sample_floats CellKind.i32 0xfffffffe (omega arith)
