-- ===== src/Store/Keyed.antt =====
-- The invariant of the tables, which every transaction keeps.
use topic.Base.{
  ◌≡◌, refl, sym, ◌∙◌, subst, ◌⊎◌, inl, inr, Bool, true, false, not, ◌&&◌, ◌||◌, Option, none, some,
  List, [], ◌∷◌, ◌++◌, arith, String, str_eq, All, All-map, All-append, Bool-cases,
}
use topic.Base.Results.{
  DomainError, Result, ok, err, ◌>>=◌, >>=-eq-ok, ok-injective, ok-err, guard-eq-ok,
}
use topic.Base.Pairs.{Pairs-snoc}
use topic.Model.{ChainId, Height, Hash, BlockMeta, EventRow, IngestBatch, WorkItem, RawRecord}
use topic.Queue.Serial
use topic.Store.{
  Db, same_raw, same_block, put_parts, insert_raws, upsert_parts, upsert_blocks, advance, repeats,
  raw_parts, block_parts,
}
use topic.Store.Rows.{
  has, IsKeyed, Differ, has-append, put_all, put_all-IsKeyed, put_over_all, put_over_all-IsKeyed,
  has-Differ,
}
use topic.Store.Events.{
  same_event, is_parent, put_event, put_events, upsert_events, upsert_tables, enqueue, event_rows,
  safe_names, batch_tables, advance_to, commit_ingest,
}

-- A row is not a receipt, or its transaction is there.
abbrev pub HasParent : List (String × EventRow) → String × EventRow → Type 0
HasParent events r = (not (str_eq r.0 "receipts") || has (is_parent r.1) events) ≡ true

-- The typed rows: no key stands twice in a table, and every receipt has its transaction.
pub record AreSound (by_tx : String → Bool) (events : List (String × EventRow)) : Type 0 where
  pub keyed : IsKeyed (same_event by_tx) events
  pub parents : All (HasParent events) events

pub record IsSound (db : Db) : Type 0 where
  pub raws : IsKeyed same_raw db.raws
  pub blocks : IsKeyed same_block db.blocks
  pub events : AreSound db.by_tx db.events
  pub queue : Serial.IsValid db.queue

pub HasParent-append :
    (events new : List (String × EventRow)) (r : String × EventRow)
    → HasParent events r
    → HasParent (events ++ new) r
HasParent-append events new r h = ground (arith, has-append (is_parent r.1) events new)

-- A row conflicts, is refused, or is appended.
pub put_event-cases :
    (by_tx : String → Bool) (r : String × EventRow) (events : List (String × EventRow))
    → ((put_event by_tx r events ≡ ok events) × (has (same_event by_tx r) events ≡ true))
      ⊎ ((x : DomainError) × (put_event by_tx r events ≡ err x))
      ⊎ ((put_event by_tx r events ≡ ok (events ++ r ∷ []))
          × (has (same_event by_tx r) events ≡ false)
          × HasParent events r)
unfolding put_event
put_event-cases by_tx (t, row) events = elim (Bool-cases (has (same_event by_tx (t, row)) events)) [
  | inl old ↦ inl (rw (old, put_event) refl, old)
  | inr new ↦ elim (Bool-cases (str_eq t "receipts" && not (has (is_parent row) events))) [
    | inl orphan ↦
        inr (inl (DomainError.storage "receipts_tx_fk", rw (new, orphan, put_event) refl))
    | inr fine ↦ inr (inr (rw (new, fine, put_event) refl, new, ground arith))
  ]
]

put_event-AreSound :
    (by_tx : String → Bool) (r : String × EventRow) (events events' : List (String × EventRow))
    → put_event by_tx r events ≡ ok events'
    → AreSound by_tx events
    → AreSound by_tx events'
put_event-AreSound by_tx r events events' e s = elim (put_event-cases by_tx r events) [
  | inl (same, old) ↦ subst (AreSound by_tx) (ok-injective (sym same ∙ e)) s
  | inr (inl (x, refused)) ↦ absurd (ok-err (sym e ∙ refused))
  | inr (inr (added, new, parent)) ↦ subst (AreSound by_tx) (ok-injective (sym added ∙ e)) (record {
    keyed =
        Pairs-snoc (Differ (same_event by_tx)) events r s.keyed
          (has-Differ (same_event by_tx) r events new);
    parents =
        All-append (HasParent (events ++ r ∷ [])) events (r ∷ [])
          (All-map events (λ p h. HasParent-append events (r ∷ []) p h) s.parents)
          (HasParent-append events (r ∷ []) r parent, tt);
  })
]

put_events-AreSound :
    (by_tx : String → Bool) (rows events events' : List (String × EventRow))
    → put_events by_tx rows events ≡ ok events'
    → AreSound by_tx events
    → AreSound by_tx events'
unfolding put_events
put_events-AreSound by_tx [] events events' e s = subst (AreSound by_tx) (ok-injective e) s
put_events-AreSound by_tx (r ∷ rows) events events' e s =
    let (mid, p, q) = >>=-eq-ok (put_event by_tx r events) (put_events by_tx rows) e in
    put_events-AreSound by_tx rows mid events' q (put_event-AreSound by_tx r events mid p s)

-- The transactions touch the typed rows and nothing else of the invariant.
pub IsSound-events :
    (db : Db) (events : List (String × EventRow))
    → AreSound db.by_tx events
    → IsSound db
    → IsSound (record db { events = events })
IsSound-events db events h s = record {
  raws = s.raws;
  blocks = s.blocks;
  events = h;
  queue = s.queue;
}

pub upsert_events-ok :
    (table : String) (rows : List EventRow) (db db' : Db)
    → upsert_events table rows db ≡ ok db'
    → (events : List (String × EventRow)) × (safe_names table rows ≡ true)
      × (put_events db.by_tx (event_rows table rows) db.events ≡ ok events)
      × (record db { events = events } ≡ db')
unfolding upsert_events
upsert_events-ok table rows db db' e =
    let put = put_events db.by_tx (event_rows table rows) db.events in
    let done : List (String × EventRow) → Result DomainError Db =
      λ events. ok (record db { events = events }) in
    let (safe, q) =
      guard-eq-ok (safe_names table rows) (DomainError.storage "unsafe identifier") (put >>= done)
        e in
    let (events, p, r) = >>=-eq-ok put done q in (events, safe, p, ok-injective r)

upsert_events-IsSound :
    (table : String) (rows : List EventRow) (db db' : Db)
    → upsert_events table rows db ≡ ok db'
    → IsSound db
    → IsSound db'
upsert_events-IsSound table rows db db' e s =
    let (events, _, p, r) = upsert_events-ok table rows db db' e in
    subst IsSound r (
      IsSound-events db events
        (put_events-AreSound db.by_tx (event_rows table rows) db.events events p s.events) s)

upsert_tables-IsSound :
    (tables : List (String × List EventRow)) (db db' : Db)
    → upsert_tables tables db ≡ ok db'
    → IsSound db
    → IsSound db'
unfolding upsert_tables
upsert_tables-IsSound [] db db' e s = subst IsSound (ok-injective e) s
upsert_tables-IsSound ((t, rows) ∷ tables) db db' e s =
    let (mid, p, q) = >>=-eq-ok (upsert_events t rows db) (upsert_tables tables) e in
    upsert_tables-IsSound tables mid db' q (upsert_events-IsSound t rows db mid p s)

put_parts-IsKeyed :
    {A : Type 0} (same : A → A → Bool) (parts : List (List A)) (rows : List A)
    → IsKeyed same rows
    → IsKeyed same (put_parts same parts rows)
unfolding put_parts
put_parts-IsKeyed same [] rows k = k
put_parts-IsKeyed same (part ∷ parts) rows k =
    put_parts-IsKeyed same parts (put_all same part rows) (put_all-IsKeyed same part rows k)

same_block-left : (x y z : BlockMeta) → same_block x y ≡ true → same_block z y ≡ same_block z x
unfolding same_block
same_block-left x y z h = ground arith

upsert_parts-IsKeyed :
    (parts : List (List BlockMeta)) (blocks blocks' : List BlockMeta)
    → upsert_parts parts blocks ≡ ok blocks'
    → IsKeyed same_block blocks
    → IsKeyed same_block blocks'
unfolding upsert_parts
upsert_parts-IsKeyed [] blocks blocks' e k = subst (IsKeyed same_block) (ok-injective e) k
upsert_parts-IsKeyed (part ∷ parts) blocks blocks' e k = elim (Bool-cases (repeats part)) [
  | inl twice ↦
      let refused : upsert_parts (part ∷ parts) blocks
          ≡ err (DomainError.storage "row updated a second time") =
        rw (twice, upsert_parts) refl in
      absurd (ok-err (sym e ∙ refused))
  | inr once ↦
      let went : upsert_parts (part ∷ parts) blocks
          ≡ upsert_parts parts (put_over_all same_block part blocks) =
        rw (once, upsert_parts) refl in
      upsert_parts-IsKeyed parts _ blocks' (sym went ∙ e)
        (put_over_all-IsKeyed same_block same_block-left part blocks k)
]

insert_raws-IsSound :
    (records : List RawRecord) (db : Db) → IsSound db → IsSound (insert_raws records db)
unfolding insert_raws
insert_raws-IsSound records db s = record {
  raws = put_parts-IsKeyed same_raw (raw_parts records) db.raws s.raws;
  blocks = s.blocks;
  events = s.events;
  queue = s.queue;
}

upsert_blocks-IsSound :
    (bs : List BlockMeta) (db db' : Db) → upsert_blocks bs db ≡ ok db' → IsSound db → IsSound db'
unfolding upsert_blocks
upsert_blocks-IsSound bs db db' e s =
    let done : List BlockMeta → Result DomainError Db =
      λ blocks. ok (record db { blocks = blocks }) in
    let (blocks, p, q) = >>=-eq-ok (upsert_parts (block_parts bs) db.blocks) done e in
    subst IsSound (ok-injective q) (record {
      raws = s.raws;
      blocks = upsert_parts-IsKeyed (block_parts bs) db.blocks blocks p s.blocks;
      events = s.events;
      queue = s.queue;
    })

enqueue-IsSound : (o : Option WorkItem) (db : Db) → IsSound db → IsSound (enqueue o db)
unfolding enqueue
enqueue-IsSound none db s = s
enqueue-IsSound (some item) db s = record {
  raws = s.raws;
  blocks = s.blocks;
  events = s.events;
  queue = Serial.push-IsValid db.queue item s.queue;
}

advance_to-IsSound :
    (o : Option (ChainId × Height × Hash)) (db : Db) → IsSound db → IsSound (advance_to o db)
unfolding advance_to advance
advance_to-IsSound none db s = s
advance_to-IsSound (some (chain, last, hash)) db s = record {
  raws = s.raws;
  blocks = s.blocks;
  events = s.events;
  queue = s.queue;
}

pub commit_ingest-ok :
    (batch : IngestBatch) (db db' : Db)
    → commit_ingest batch db ≡ ok db'
    → (db1 : Db) × (db2 : Db) × (upsert_blocks batch.block_metas (insert_raws batch.raw_records db)
        ≡ ok db1)
      × (upsert_tables (batch_tables batch) db1 ≡ ok db2)
      × (advance_to batch.advance_cursor (enqueue batch.enqueue db2) ≡ db')
unfolding commit_ingest
commit_ingest-ok batch db db' e =
    let last : Db → Result DomainError Db =
      λ db2. ok (advance_to batch.advance_cursor (enqueue batch.enqueue db2)) in
    let rest : Db → Result DomainError Db =
      λ db1. upsert_tables (batch_tables batch) db1 >>= last in
    let (db1, p, q) =
      >>=-eq-ok (upsert_blocks batch.block_metas (insert_raws batch.raw_records db)) rest e in
    let (db2, r, t) = >>=-eq-ok (upsert_tables (batch_tables batch) db1) last q in
    (db1, db2, p, r, ok-injective t)

-- A committed batch leaves no key twice in any table, every receipt with its transaction, and a queue
-- that keeps its own invariant.
pub commit_ingest-IsSound :
    (batch : IngestBatch) (db db' : Db) → commit_ingest batch db ≡ ok db' → IsSound db → IsSound db'
unfolding commit_ingest
commit_ingest-IsSound batch db db' e s =
    let (db1, db2, p, r, t) = commit_ingest-ok batch db db' e in
    let s1 =
      upsert_blocks-IsSound batch.block_metas (insert_raws batch.raw_records db) db1 p
        (insert_raws-IsSound batch.raw_records db s) in
    let s2 = upsert_tables-IsSound (batch_tables batch) db1 db2 r s1 in
    subst IsSound t
      (advance_to-IsSound batch.advance_cursor _ (enqueue-IsSound batch.enqueue db2 s2))
