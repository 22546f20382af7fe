-- ===== src/Store/Again.antt =====
-- A batch that is committed again, as after an error later in its window.
use topic.Base.{
  ℕ, ◌≡◌, refl, sym, ◌∙◌, ◌⊎◌, ap, subst, inl, inr, Bool, true, Option, none, some, List, [], ◌∷◌,
  ◌++◌, map, arith, All, All-map, All-append, Bool-cases,
}
use topic.Base.Results.{DomainError, Result, ok, ◌>>=◌, >>=-eq-ok, ok-injective}
use topic.Base.Chunks.{concat, concat-chunks}
use topic.Queue.{Row, WorkQueue, push, new_row, has_item, same_item}
use topic.Model.{WorkItem, kind_eq, ChainId, Height, Hash, BlockMeta, IngestBatch, RawRecord}
use topic.Store.{
  Db, RawRow, raw_row, same_raw, same_block, put_parts, insert_raws, upsert_parts, upsert_blocks,
  raw_parts, block_parts, repeats, chunk_rows, advance,
}
use topic.Store.Rows.{has, put_all, put_all-has, put_all-has_all, put_all-same, put_over_all}
use topic.Store.Over.{put_over_all-twice, upsert_parts-ok}
use topic.Store.Events.{upsert_tables, batch_tables, enqueue, advance_to, commit_ingest}
use topic.Store.Kept.{AreKept, upsert_tables-AreKept, upsert_tables-same, upsert_tables-rest}
use topic.Store.Keyed.{commit_ingest-ok}

pub put_parts-has :
    {A : Type 0} (same : A → A → Bool) (p : A → Bool) (parts : List (List A)) (rows : List A)
    → has p rows ≡ true
    → has p (put_parts same parts rows) ≡ true
unfolding put_parts
put_parts-has same p [] rows h = h
put_parts-has same p (part ∷ parts) rows h =
    put_parts-has same p parts (put_all same part rows) (put_all-has same p part rows h)

pub put_parts-has_all :
    {A : Type 0} (same : A → A → Bool) (parts : List (List A)) (rows : List A)
    → ((x : A) → same x x ≡ true)
    → All {A = List A}
        (λ part. All (λ y. has (same y) (put_parts same parts rows) ≡ true) part)
        parts
unfolding put_parts
put_parts-has_all same [] rows r = tt
put_parts-has_all same (part ∷ parts) rows r = (
  All-map part (λ y h. put_parts-has same (same y) parts (put_all same part rows) h)
      (put_all-has_all same r part rows),
  put_parts-has_all same parts (put_all same part rows) r,
)

put_parts-same :
    {A : Type 0} (same : A → A → Bool) (parts : List (List A)) (rows : List A)
    → All {A = List A} (λ part. All (λ y. has (same y) rows ≡ true) part) parts
    → put_parts same parts rows ≡ rows
unfolding put_parts
put_parts-same same [] rows h = refl
put_parts-same same (part ∷ parts) rows h =
    ap (put_parts same parts) (put_all-same same part rows h.0) ∙ put_parts-same same parts rows h.1

raw_parts-concat : (records : List RawRecord) → concat (raw_parts records) ≡ map raw_row records
unfolding raw_parts chunk_rows
raw_parts-concat records = concat-chunks _ (map raw_row records) (omega arith)

All-concat :
    (P : RawRow → Type 0) (parts : List (List RawRow))
    → All {A = List RawRow} (All P) parts
    → All P (concat parts)
All-concat P [] h = tt
All-concat P (part ∷ parts) h = All-append P part (concat parts) h.0 (All-concat P parts h.1)

-- A raw record with the key of each of the records is in the table.
abbrev pub AreStored : List RawRecord → List RawRow → Type 0
AreStored records rows = All (λ y. has (same_raw y) rows ≡ true) (map raw_row records)

pub put_parts-AreStored :
    (records : List RawRecord) (rows : List RawRow)
    → AreStored records (put_parts same_raw (raw_parts records) rows)
put_parts-AreStored records rows =
    let stored = put_parts same_raw (raw_parts records) rows in
    subst (All (λ y. has (same_raw y) stored ≡ true)) (raw_parts-concat records) (
      All-concat (λ y. has (same_raw y) stored ≡ true) (raw_parts records)
        (put_parts-has_all same_raw (raw_parts records) rows
          (λ x. unfold same_raw in ground arith)))

insert_raws-twice :
    (records : List RawRecord) (rows : List RawRow)
    → put_parts same_raw (raw_parts records) (put_parts same_raw (raw_parts records) rows)
      ≡ put_parts same_raw (raw_parts records) rows
insert_raws-twice records rows =
    put_parts-same same_raw (raw_parts records) _
      (put_parts-has_all same_raw (raw_parts records) rows (λ x. unfold same_raw in ground arith))

block_parts-concat : (bs : List BlockMeta) → concat (block_parts bs) ≡ bs
unfolding block_parts chunk_rows
block_parts-concat bs = concat-chunks _ bs (omega arith)

-- The blocks after the statements of a batch, which were not refused.
pub upsert_blocks-ok :
    (bs : List BlockMeta) (db db' : Db)
    → upsert_blocks bs db ≡ ok db'
    → (record db { blocks = put_over_all same_block bs db.blocks } ≡ db')
      × ((d : Db)
          → upsert_blocks bs d ≡ ok (record d { blocks = put_over_all same_block bs d.blocks }))
unfolding upsert_blocks
upsert_blocks-ok bs db db' e =
    let done : List BlockMeta → Result DomainError Db =
      λ blocks. ok (record db { blocks = blocks }) in
    let (blocks, p, q) = >>=-eq-ok (upsert_parts (block_parts bs) db.blocks) done e in
    let whole : concat (block_parts bs) ≡ bs = block_parts-concat bs in
    let went = upsert_parts-ok (block_parts bs) db.blocks blocks db.blocks p in
    (
      ap (λ l. record db { blocks = put_over_all same_block l db.blocks }) (sym whole)
          ∙ ap (λ l. record db { blocks = l }) (ok-injective (sym went ∙ p))
          ∙ ok-injective q,
      λ d.
          ap (λ r. r >>= λ blocks. ok (record d { blocks = blocks }))
            (upsert_parts-ok (block_parts bs) db.blocks blocks d.blocks p)
          ∙ ap (λ l. ok (record d { blocks = put_over_all same_block l d.blocks })) whole,
    )

same_item_refl : (item : WorkItem) → same_item item item ≡ true
unfolding same_item kind_eq
same_item_refl item = ground arith

has_item-snoc :
    (rows : List Row) (id : ℕ) (item : WorkItem)
    → has_item item (rows ++ new_row id item ∷ []) ≡ true
unfolding has_item
has_item-snoc [] id item = ground (arith, same_item_refl item)
has_item-snoc (r ∷ rows) id item = ground (arith, has_item-snoc rows id item)

push-twice : (q : WorkQueue) (item : WorkItem) → (push (push q item) item).rows ≡ (push q item).rows
unfolding push
push-twice q item = elim (Bool-cases (has_item item q.rows)) [
  | inl h ↦ rw (h, push) (rw (h, push) refl)
  | inr h ↦ rw (h, push) (rw (has_item-snoc q.rows q.next_id item, push) refl)
]

-- The last part of a commit.
abbrev finish : IngestBatch → Db → Db
finish batch db = advance_to batch.advance_cursor (enqueue batch.enqueue db)

abbrev SameRows : Db → Db → Type 0
SameRows d d' =
    (d'.by_tx ≡ d.by_tx) × (d'.raws ≡ d.raws) × (d'.blocks ≡ d.blocks) × (d'.events ≡ d.events)

advance_to-rest :
    (o : Option (ChainId × Height × Hash)) (d : Db)
    → SameRows d (advance_to o d) × ((advance_to o d).queue ≡ d.queue)
unfolding advance_to advance
advance_to-rest none d = ((refl, refl, refl, refl), refl)
advance_to-rest (some (c, h, b)) d = ((refl, refl, refl, refl), refl)

enqueue-rest : (o : Option WorkItem) (d : Db) → SameRows d (enqueue o d)
unfolding enqueue
enqueue-rest none d = (refl, refl, refl, refl)
enqueue-rest (some item) d = (refl, refl, refl, refl)

finish-rest : (batch : IngestBatch) (d : Db) → SameRows d (finish batch d)
finish-rest batch d =
    let a = (advance_to-rest batch.advance_cursor (enqueue batch.enqueue d)).0 in
    let b = enqueue-rest batch.enqueue d in (a.0 ∙ b.0, a.1 ∙ b.1, a.2 ∙ b.2, a.3 ∙ b.3)

enqueue-twice :
    (o : Option WorkItem) (d d' : Db)
    → d'.queue ≡ (enqueue o d).queue
    → (enqueue o d').queue.rows ≡ (enqueue o d).queue.rows
unfolding enqueue
enqueue-twice none d d' e = ap (λ (q : WorkQueue). q.rows) e
enqueue-twice (some item) d d' e = ap (λ q. (push q item).rows) e ∙ push-twice d.queue item

-- The first and the second run of the same batch, from the states that they pass.
commit-again :
    (batch : IngestBatch) (db' d : Db)
    → insert_raws batch.raw_records db' ≡ db'
    → upsert_blocks batch.block_metas db' ≡ ok d
    → upsert_tables (batch_tables batch) d ≡ ok d
    → commit_ingest batch db' ≡ ok (finish batch d)
unfolding commit_ingest
commit-again batch db' d a b c =
    let last : Db → Result DomainError Db = λ d. ok (finish batch d) in
    let rest : Db → Result DomainError Db = λ d. upsert_tables (batch_tables batch) d >>= last in
    ap (λ d. upsert_blocks batch.block_metas d >>= rest) a
    ∙ ap (λ r. r >>= rest) b
    ∙ ap (λ r. r >>= last) c

-- What the first run of a batch leaves for the second to find.
pub record IsCommitted (batch : IngestBatch) (db db' : Db) : Type 0 where
  pub raws : db'.raws ≡ put_parts same_raw (raw_parts batch.raw_records) db.raws
  pub blocks : db'.blocks ≡ put_over_all same_block batch.block_metas db.blocks
  pub accepted :
      upsert_blocks batch.block_metas db'
      ≡ ok (record db' { blocks = put_over_all same_block batch.block_metas db'.blocks })
  pub events : AreKept db'.by_tx (batch_tables batch) db'.events
  pub queue : (d : Db) × (db'.queue ≡ (enqueue batch.enqueue d).queue)

pub commit_ingest-IsCommitted :
    (batch : IngestBatch) (db db' : Db) → commit_ingest batch db ≡ ok db' → IsCommitted batch db db'
unfolding insert_raws
commit_ingest-IsCommitted batch db db' e =
    let (db1, db2, p, q, t) = commit_ingest-ok batch db db' e in
    let blocks = upsert_blocks-ok batch.block_metas (insert_raws batch.raw_records db) db1 p in
    let tables = upsert_tables-rest (batch_tables batch) db1 db2 q in
    let (keys, raws, metas, events) = subst (SameRows db2) t (finish-rest batch db2) in
    record {
      raws = raws ∙ ap (λ (d : Db). d.raws) (sym tables) ∙ ap (λ (d : Db). d.raws) (sym blocks.0);
      blocks =
          metas ∙ ap (λ (d : Db). d.blocks) (sym tables) ∙ ap (λ (d : Db). d.blocks) (sym blocks.0);
      accepted = blocks.1 db';
      events =
          subst (λ l. AreKept db'.by_tx (batch_tables batch) l) (sym events)
            (subst (λ k. AreKept k (batch_tables batch) db2.events)
              (ap (λ (d : Db). d.by_tx) tables ∙ sym keys)
              (upsert_tables-AreKept (batch_tables batch) db1 db2 q));
      queue = (
        db2,
        ap (λ (d : Db). d.queue) (sym t)
            ∙ (advance_to-rest batch.advance_cursor (enqueue batch.enqueue db2)).1,
      );
    }

commit-raws :
    (batch : IngestBatch) (db db' : Db)
    → IsCommitted batch db db'
    → insert_raws batch.raw_records db' ≡ db'
unfolding insert_raws
commit-raws batch db db' c =
    ap (λ l. record db' { raws = put_parts same_raw (raw_parts batch.raw_records) l }) c.raws
    ∙ ap (λ l. record db' { raws = l }) (insert_raws-twice batch.raw_records db.raws ∙ sym c.raws)

-- The blocks after the second run.
abbrev blocks_again : IngestBatch → Db → Db
blocks_again batch db' = record db' {
  blocks = put_over_all same_block batch.block_metas db'.blocks;
}

commit-blocks :
    (batch : IngestBatch) (db db' : Db)
    → IsCommitted batch db db'
    → (repeats batch.block_metas ≡ true) ⊎ ((blocks_again batch db').blocks ≡ db'.blocks)
commit-blocks batch db db' c = elim (Bool-cases (repeats batch.block_metas)) [
  | inl twice ↦ inl twice
  | inr once ↦ inr (
      ap (put_over_all same_block batch.block_metas) c.blocks
      ∙ put_over_all-twice batch.block_metas db.blocks once
      ∙ sym c.blocks)
]

-- Committing a batch again right after it was committed succeeds, and changes neither a raw record nor
-- a typed row nor the rows of the queue: a retry of a window writes nothing twice. Nor does it change a
-- block, or a height stands twice in the batch.
pub commit_ingest-again :
    (batch : IngestBatch) (db db' : Db)
    → commit_ingest batch db ≡ ok db'
    → (db'' : Db) × (commit_ingest batch db' ≡ ok db'')
      × (db''.raws ≡ db'.raws)
      × (db''.events ≡ db'.events)
      × (db''.queue.rows ≡ db'.queue.rows)
      × ((repeats batch.block_metas ≡ true) ⊎ (db''.blocks ≡ db'.blocks))
commit_ingest-again batch db db' e =
    let c = commit_ingest-IsCommitted batch db db' e in
    let d = blocks_again batch db' in
    let (_, raws, blocks, events) = finish-rest batch d in
    (
      finish batch d,
      commit-again batch db' d (commit-raws batch db db' c) c.accepted
          (upsert_tables-same (batch_tables batch) d c.events),
      raws,
      events,
      ap (λ (q : WorkQueue). q.rows)
            (advance_to-rest batch.advance_cursor (enqueue batch.enqueue d)).1
          ∙ enqueue-twice batch.enqueue c.queue.0 d c.queue.1
          ∙ ap (λ (q : WorkQueue). q.rows) (sym c.queue.1),
      elim (commit-blocks batch db db' c) [
        | inl twice ↦ inl twice
        | inr same ↦ inr (blocks ∙ same)
      ],
    )
