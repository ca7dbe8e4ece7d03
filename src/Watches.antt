-- ===== src/Watches.antt =====
-- crates/studio-core/src/tap.rs: the watched values that go with a batch, and how their names are chosen.
pub mod Names
pub mod Unique
use tuning_tools.Base.{
  ℕ, zero, suc, ◌+◌, ◌-◌, ◌*◌, ◌/◌, ◌%◌, ◌^◌, max, Bool, true, false, ◌&&◌, ◌||◌, not, Option, none,
  some, List, [], ◌∷◌, ◌++◌, map, length, ltb, ◌==◌, if◌then◌else◌, same_bytes,
}
use tuning_tools.Base.Dict.{lookup, insert}
use tuning_tools.Message.{Message, Text}
use tuning_tools.Batch.{SampleBatch}
use tuning_tools.Session.{LinkState, SessionEvent}
use tuning_tools.Tune.{CatalogCheck}

pub record WatchMeta : Type 0 where
  pub id : ℕ
  pub name : Text
  pub path : Text
  pub type_name : Text
  pub unit : Option Text

abbrev pub WatchSet : Type 0
WatchSet = List WatchMeta

-- The decimal digits of a number, at most `n` of them; a `u32` has at most ten.
unfoldable pub digits : ℕ → ℕ → Text
digits zero x = []
digits (suc n) x =
    let front = digits n (x / 10) in (if ltb x 10 then [] else front) ++ ((48 + x % 10) ∷ [])

abbrev pub decimal : ℕ → Text
decimal x = digits 10 x

unfoldable pub contains : List Text → Text → Bool
contains [] name = false
contains (x ∷ xs) name = same_bytes x name || contains xs name

-- The name `id` and the number.
abbrev pub numbered : ℕ → Text
numbered id = 105 ∷ 100 ∷ decimal id

abbrev pub named : ℕ → Text → Text
named id [] = numbered id
named id (c ∷ cs) = c ∷ cs

-- The name, with the number behind it where the name is taken.
unfoldable pub free_name : List Text → ℕ → Text → Text
unfolding contains
free_name taken id name = if contains taken name then name ++ (35 ∷ decimal id) else name

unfoldable pub rename_all : List Text → List WatchMeta → WatchSet
unfolding free_name
rename_all taken [] = []
rename_all taken (w ∷ ws) =
    let name = free_name taken w.id (named w.id w.name) in
    record w { name = name } ∷ rename_all (name ∷ taken) ws

-- `WatchSet::new`: no name is that of the time key `t`.
unfoldable pub watch_set : List WatchMeta → WatchSet
unfolding rename_all
watch_set ws = rename_all ((116 ∷ []) ∷ []) ws

abbrev pub ids : WatchSet → List ℕ
ids ws = map (λ w. w.id) ws
