-- ===== src/Tap/Columns.antt =====
-- crates/studio-core/src/tap.rs: the names that go with a batch are those of its columns.
use tuning_tools.Base.{
  ℕ, ◌≡◌, refl, ap, ◌∙◌, arith, Bool, true, false, Option, none, some, List, [], ◌∷◌, not, ◌||◌,
  if◌then◌else◌, Bool-cases, inl, inr, same_bytes, ◌==◌,
}
use tuning_tools.Base.Dict.{lookup, insert, lookup-insert}
use tuning_tools.Message.{Text}
use tuning_tools.Batch.{SampleBatch}
use tuning_tools.Session.{SessionEvent}
use tuning_tools.Tap.{
  SessionInfo, TuneRequest, TapEvent, Inner, offer_all, subscribe, unsubscribe, same_set, keep_meta,
  is_connected, set_watches, connecting, rated, set_rate, start_clock, request_tune, or_unnamed,
  metas, built_set, set_for, publish_samples, noted, on_event, new,
}
use tuning_tools.Watches.{WatchMeta, WatchSet, ids, free_name, named, rename_all, watch_set}

ids-rename_all : (taken : List Text) (ws : List WatchMeta) → ids (rename_all taken ws) ≡ ids ws
unfolding rename_all
ids-rename_all taken [] = refl
ids-rename_all taken (w ∷ ws) =
    ap (λ x. w.id ∷ x) (ids-rename_all (free_name taken w.id (named w.id w.name) ∷ taken) ws)

ids-watch_set : (ws : List WatchMeta) → ids (watch_set ws) ≡ ids ws
unfolding watch_set
ids-watch_set ws = ids-rename_all ((116 ∷ []) ∷ []) ws

same_bytes-eq : (xs ys : List ℕ) → same_bytes xs ys ≡ true → xs ≡ ys
same_bytes-eq [] [] h = refl
same_bytes-eq [] (y ∷ ys) h = absurd (ground arith)
same_bytes-eq (x ∷ xs) [] h = absurd (ground arith)
same_bytes-eq (x ∷ xs) (y ∷ ys) h = ground (arith, same_bytes-eq xs ys)

-- Each number finds a watch of that number, if any.
abbrev MetaOf : ℕ → Option WatchMeta → Type 0
MetaOf id none = Unit {0}
MetaOf id (some w) = w.id ≡ id

abbrev SetOf : Option (List ℕ × WatchSet) → Type 0
SetOf none = Unit {0}
SetOf (some (xs, set)) = ids set ≡ xs

-- What the tap knows of a watch, and the set of the last batch, are those of their ids.
unfoldable pub IsNamed : Inner → Type 0
IsNamed t = ((id : ℕ) → MetaOf id (lookup id t.meta)) × SetOf t.batch_set

insert-MetaOf :
    (w : WatchMeta) (meta : List (ℕ × WatchMeta)) (id : ℕ)
    → MetaOf id (lookup id meta)
    → MetaOf id (lookup id (insert w.id w meta))
insert-MetaOf w meta id h = elim (Bool-cases (w.id == id)) [
  | inl same ↦ rw (lookup-insert w.id id w meta, same) (ground arith)
  | inr other ↦ rw (lookup-insert w.id id w meta, other) h
]

keep_meta-MetaOf :
    (ws : List WatchMeta) (meta : List (ℕ × WatchMeta))
    → ((id : ℕ) → MetaOf id (lookup id meta))
    → (id : ℕ) → MetaOf id (lookup id (keep_meta ws meta))
unfolding keep_meta
keep_meta-MetaOf [] meta h = h
keep_meta-MetaOf (w ∷ ws) meta h =
    keep_meta-MetaOf ws (insert w.id w meta) (λ id. insert-MetaOf w meta id (h id))

ids-metas :
    (meta : List (ℕ × WatchMeta)) (xs : List ℕ)
    → ((id : ℕ) → MetaOf id (lookup id meta))
    → ids (metas meta xs) ≡ xs
unfolding metas
ids-metas meta [] h = refl
ids-metas meta (x ∷ xs) h = rw (head (lookup x meta) (h x)) (ap (λ l. x ∷ l) (ids-metas meta xs h))
  where
    head : (o : Option WatchMeta) → MetaOf x o → (or_unnamed x o).id ≡ x
    head none e = refl
    head (some w) e = e

ids-built_set : (t : Inner) (xs : List ℕ) → IsNamed t → ids (built_set t xs) ≡ xs
unfolding built_set IsNamed
ids-built_set t xs h = elim (Bool-cases (same_bytes (ids t.watches) xs)) [
  | inl same ↦ rw same (same_bytes-eq (ids t.watches) xs same)
  | inr other ↦ rw other (ids-watch_set (metas t.meta xs) ∙ ids-metas t.meta xs h.0)
]

ids-set_for :
    (t : Inner) (last : Option (List ℕ × WatchSet)) (xs : List ℕ)
    → IsNamed t
    → SetOf last
    → ids (set_for t last xs) ≡ xs
unfolding set_for
ids-set_for t none xs h e = ids-built_set t xs h
ids-set_for t (some (ys, set)) xs h e = elim (Bool-cases (same_bytes ys xs)) [
  | inl same ↦ rw same (e ∙ same_bytes-eq ys xs same)
  | inr other ↦ rw other (ids-built_set t xs h)
]

-- The calls of the tap that change it.
pub data Call : Type 0 where
  watch : List WatchMeta → Call
  connect : SessionInfo → Call
  rate : ℕ → Call
  start : ℕ → Call
  tune : TuneRequest → Call
  tell : SessionEvent → Call
  sample : SampleBatch → Call
  join : ℕ → Call
  leave : ℕ → Call

pub step : Call → Inner → Inner
unfolding subscribe
step (watch ws) t = set_watches ws t
step (connect i) t = connecting i t
step (rate hz) t = set_rate hz t
step (start at) t = start_clock at t
step (tune r) t = request_tune r t
step (tell e) t = on_event e t
step (sample b) t = publish_samples b t
step (join capacity) t = (subscribe capacity t).1.1
step (leave key) t = unsubscribe key t

pub steps : List Call → Inner → Inner
steps [] t = t
steps (c ∷ cs) t = steps cs (step c t)

if_IsNamed : (b : Bool) (t u : Inner) → IsNamed t → IsNamed u → IsNamed (if b then t else u)
if_IsNamed true t u h k = h
if_IsNamed false t u h k = k

set_watches-IsNamed : (ws : List WatchMeta) (t : Inner) → IsNamed t → IsNamed (set_watches ws t)
unfolding set_watches IsNamed
set_watches-IsNamed ws t h =
    let known = keep_meta-MetaOf ws t.meta h.0 in
    if_IsNamed (same_set (watch_set ws) t.watches) _ _ (known, h.1)
      (if_IsNamed (not (is_connected t.link) || same_bytes (ids (watch_set ws)) (ids t.watches)) _ _
        (known, tt) (known, tt))

rated-IsNamed : (hz : ℕ) (i : Option SessionInfo) (t : Inner) → IsNamed t → IsNamed (rated hz i t)
unfolding IsNamed
rated-IsNamed hz none t h = h
rated-IsNamed hz (some i) t h = h

noted-IsNamed : (e : SessionEvent) (t : Inner) → IsNamed t → IsNamed (noted e t)
unfolding IsNamed
noted-IsNamed (SessionEvent.status state message) t h = h
noted-IsNamed (SessionEvent.stats shot core log last) t h = h
noted-IsNamed (SessionEvent.log lines) t h = h
noted-IsNamed (SessionEvent.tune check values) t h = h
noted-IsNamed (SessionEvent.catalog c) t h = h

step-IsNamed : (c : Call) (t : Inner) → IsNamed t → IsNamed (step c t)
unfolding step IsNamed subscribe connecting on_event publish_samples
step-IsNamed (watch ws) t h = set_watches-IsNamed ws t h
step-IsNamed (connect i) t h = h
step-IsNamed (rate hz) t h = rated-IsNamed hz t.info t h
step-IsNamed (start at) t h = h
step-IsNamed (tune r) t h = h
step-IsNamed (tell e) t h = noted-IsNamed e t h
step-IsNamed (sample b) t h = (h.0, ids-set_for t t.batch_set b.ids h h.1)
step-IsNamed (join capacity) t h = h
step-IsNamed (leave key) t h = h

steps-IsNamed : (cs : List Call) (t : Inner) → IsNamed t → IsNamed (steps cs t)
unfolding steps
steps-IsNamed [] t h = h
steps-IsNamed (c ∷ cs) t h = steps-IsNamed cs (step c t) (step-IsNamed c t h)

-- Whatever calls a new tap had before, a batch is offered to each subscriber with a set of watches that
-- has one for each of the batch's columns, with the column's id, in their order.
pub samples_are_named :
    (cs : List Call) (b : SampleBatch)
    → (set : WatchSet) × (ids set ≡ b.ids)
      × ((publish_samples b (steps cs new)).subscribers
          ≡ offer_all (TapEvent.samples b set) (steps cs new).subscribers)
unfolding publish_samples IsNamed lookup
samples_are_named cs b =
    let t = steps cs new in
    let h = steps-IsNamed cs new ((λ id. tt), tt) in
    (set_for t t.batch_set b.ids, ids-set_for t t.batch_set b.ids h h.1, refl)
