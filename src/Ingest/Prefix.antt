-- ===== src/Ingest/Prefix.antt =====
-- The cursor while the consumer commits: it is where the tracker of the committed ranges puts it.
use topic.Base.{
  ℕ, zero, suc, ◌+◌, ◌≤◌, ◌<◌, take, map, ◌≡◌, ◌≢◌, refl, sym, ◌∙◌, ap, subst, ◌⊎◌, inl, inr, Bool,
  true, false, Option, none, some, List, [], ◌∷◌, arith, Option-cases, All, All-map,
}
use topic.Base.Results.{DomainError, Result, ok, >>=-eq-ok, ok-injective, Result-cases}
use topic.Base.Assoc
use topic.Model.{Hash, Height, WorkItem}
use topic.Plan.{
  PrefixTracker, Block, Arrival, new, extend, drain, insert_range, record_range, record_all,
  checkpoint, best_hash,
}
use topic.Plan.Gaps.{Covered, IsRange, record_all_gapless}
use topic.Store.{Db, RawRow, raw_row, raw_parts, same_raw, put_parts, insert_raws, cursor, advance}
use topic.Store.Events.{commit_ingest, enqueue, advance_to, batch_tables}
use topic.Store.Keyed.{commit_ingest-ok}
use topic.Store.Kept.{upsert_tables-rest}
use topic.Store.Again.{
  upsert_blocks-ok, AreStored, put_parts-AreStored, put_parts-has, commit_ingest-IsCommitted,
}
use topic.Store.Rows.{has}
use topic.Ingest.{
  FetchedRange, IngestOutcome, ingest_batch, commit, outcome_of, commit_range, advance_prefix,
  consume, commit_consumer,
}

abbrev pub arrival : FetchedRange → Arrival
arrival f = record { from = f.from; to = f.to; last_block = f.last_block }

-- Where the cursor is to be, if it was `before`.
abbrev pub cursor_of : PrefixTracker → Option (Height × Hash) → Option (Height × Hash)
cursor_of t before = elim t.advanced_to [ none ↦ before | some h ↦ some (h, best_hash t) ]

drain-moved :
    (fuel : ℕ) (t : PrefixTracker) → t.advanced_to ≢ none → (drain fuel t).advanced_to ≢ none
unfolding drain extend
drain-moved zero t h = h
drain-moved (suc fuel) t h = elim (Option-cases (Assoc.lookup t.frontier t.waiting)) [
  | inl e ↦ rw (e, drain) h
  | inr (entry, e) ↦ rw (e, drain) (drain-moved fuel (extend t entry) (λ x. cc))
]

-- A range that does not reach the prefix moves nothing.
record_range_idle :
    (t : PrefixTracker) (f : Arrival) (before : Option (Height × Hash))
    → Assoc.lookup t.frontier (insert_range t f.from f.to f.last_block).waiting ≡ none
    → cursor_of (record_range t f.from f.to f.last_block) before ≡ cursor_of t before
unfolding record_range drain insert_range best_hash
record_range_idle t f before e = rw (e, drain) refl

record_range_moved :
    (t : PrefixTracker) (f : Arrival) (entry : ℕ × Option Block)
    → Assoc.lookup t.frontier (insert_range t f.from f.to f.last_block).waiting ≡ some entry
    → (record_range t f.from f.to f.last_block).advanced_to ≢ none
unfolding record_range drain insert_range extend
record_range_moved t f entry e =
    rw (e, drain)
      (drain-moved _ (extend (insert_range t f.from f.to f.last_block) entry)
        (λ (x : some entry.0 ≡ none). cc))

checkpoint-idle :
    (t : PrefixTracker) (f : Arrival)
    → Assoc.lookup t.frontier (insert_range t f.from f.to f.last_block).waiting ≡ none
    → checkpoint t f.from f.to f.last_block ≡ none
unfolding checkpoint
checkpoint-idle t f e = rw (e, checkpoint) refl

checkpoint-moved :
    (t : PrefixTracker) (f : Arrival) (entry : ℕ × Option Block) (h : ℕ)
    → Assoc.lookup t.frontier (insert_range t f.from f.to f.last_block).waiting ≡ some entry
    → (record_range t f.from f.to f.last_block).advanced_to ≡ some h
    → checkpoint t f.from f.to f.last_block
      ≡ some (h, best_hash (record_range t f.from f.to f.last_block))
unfolding checkpoint
checkpoint-moved t f entry h e p = rw (e, checkpoint, p) refl

pub advance-cursor :
    (chain height : ℕ) (hash : Hash) (db : Db)
    → cursor (advance chain height hash db) chain ≡ some (height, hash)
unfolding cursor advance
advance-cursor chain height hash db =
    ground (arith, Assoc.lookup-insert chain chain (height, hash) db.cursors)

cursor_of_moved :
    (t : PrefixTracker) (before : Option (Height × Hash)) (h : ℕ)
    → t.advanced_to ≡ some h
    → cursor_of t before ≡ some (h, best_hash t)
cursor_of_moved t before h p = rw p refl

-- The checkpoint that `record` returns is where the cursor is to be.
pub checkpoint-cursor_of :
    (chain : ℕ) (t : PrefixTracker) (f : Arrival) (before : Option (Height × Hash)) (db : Db)
    → cursor db chain ≡ cursor_of t before
    → cursor (advance_prefix chain (checkpoint t f.from f.to f.last_block) db) chain
      ≡ cursor_of (record_range t f.from f.to f.last_block) before
unfolding advance_prefix
checkpoint-cursor_of chain t f before db h =
    let t' = record_range t f.from f.to f.last_block in
    elim (Option-cases
      (Assoc.lookup t.frontier (insert_range t f.from f.to f.last_block).waiting)) [
        | inl e ↦
            ap (λ o. cursor (advance_prefix chain o db) chain) (checkpoint-idle t f e)
            ∙ h
            ∙ sym (record_range_idle t f before e)
        | inr (entry, e) ↦ elim (Option-cases t'.advanced_to) [
          | inl p ↦ absurd (record_range_moved t f entry e p)
          | inr (n, p) ↦
              ap (λ o. cursor (advance_prefix chain o db) chain) (checkpoint-moved t f entry n e p)
              ∙ advance-cursor chain n (best_hash t') db
              ∙ sym (cursor_of_moved t' before n p)
        ]
      ]

enqueue-cursors : (o : Option WorkItem) (db : Db) → (enqueue o db).cursors ≡ db.cursors
unfolding enqueue
enqueue-cursors none db = refl
enqueue-cursors (some item) db = refl

commit_range-ok :
    (chain epoch : ℕ) (f : FetchedRange) (db db' : Db) (outcome : IngestOutcome)
    → commit_range chain f epoch db ≡ ok (outcome, db')
    → (commit_ingest (ingest_batch chain f epoch false) db ≡ ok db') × (outcome_of f ≡ outcome)
unfolding commit_range commit
commit_range-ok chain epoch f db db' outcome e =
    let done : Db → Result DomainError (IngestOutcome × Db) = λ d. ok (outcome_of f, d) in
    let (db1, p, q) = >>=-eq-ok (commit_ingest (ingest_batch chain f epoch false) db) done e in
    let same = ok-injective q in
    (p ∙ ap (λ (r : IngestOutcome × Db). ok r.1) same, ap (λ (r : IngestOutcome × Db). r.0) same)

-- The writes of a range leave the cursors as they are.
pub commit_range-cursor :
    (chain epoch : ℕ) (f : FetchedRange) (db db' : Db) (outcome : IngestOutcome)
    → commit_range chain f epoch db ≡ ok (outcome, db')
    → cursor db' chain ≡ cursor db chain
unfolding ingest_batch cursor advance_to insert_raws
commit_range-cursor chain epoch f db db' outcome e =
    let batch = ingest_batch chain f epoch false in
    let (p0, _) = commit_range-ok chain epoch f db db' outcome e in
    let (db1, db2, p, q, t) = commit_ingest-ok batch db db' p0 in
    let blocks = (upsert_blocks-ok batch.block_metas (insert_raws batch.raw_records db) db1 p).0 in
    let tables = upsert_tables-rest (batch_tables batch) db1 db2 q in
    ap (Assoc.lookup chain) (
      ap (λ (d : Db). d.cursors) (sym t)
      ∙ enqueue-cursors batch.enqueue db2
      ∙ ap (λ (d : Db). d.cursors) (sym tables)
      ∙ ap (λ (d : Db). d.cursors) (sym blocks))

advance_prefix-raws :
    (chain : ℕ) (o : Option (ℕ × Hash)) (db : Db) → (advance_prefix chain o db).raws ≡ db.raws
unfolding advance_prefix advance
advance_prefix-raws chain none db = refl
advance_prefix-raws chain (some (height, hash)) db = refl

commit_range-raws :
    (chain epoch : ℕ) (f : FetchedRange) (db db' : Db) (outcome : IngestOutcome)
    → commit_range chain f epoch db ≡ ok (outcome, db')
    → db'.raws ≡ put_parts same_raw (raw_parts f.records) db.raws
unfolding ingest_batch
commit_range-raws chain epoch f db db' outcome e =
    (commit_ingest-IsCommitted (ingest_batch chain f epoch false) db db'
      (commit_range-ok chain epoch f db db' outcome e).0).raws

-- What is in the table stays there while the consumer goes on.
consume-has :
    (chain : ℕ) (t : PrefixTracker) (records : ℕ) (received : List FetchedRange) (p : RawRow → Bool)
    (db : Db)
    → has p db.raws ≡ true
    → has p (consume chain t records received db).1.raws ≡ true
unfolding consume
consume-has chain t records [] p db h = h
consume-has chain t records (f ∷ received) p db h =
    elim (Result-cases (commit_range chain f 0 db)) [
      | inr (x, e) ↦ rw (e, consume) h
      | inl ((outcome, db'), e) ↦
          let kept =
            subst (λ l. has p l ≡ true) (sym (commit_range-raws chain 0 f db db' outcome e))
              (put_parts-has same_raw p (raw_parts f.records) db.raws h) in
          let db1 = advance_prefix chain (checkpoint t f.from f.to f.last_block) db' in
          let same = advance_prefix-raws chain (checkpoint t f.from f.to f.last_block) db' in
          rw (e, consume)
            (consume-has chain (record_range t f.from f.to f.last_block) (records + outcome.records)
              received p db1 (subst (λ l. has p l ≡ true) (sym same) kept))
    ]

-- The first `n` of the ranges were committed: the cursor is where they put it, and their records are in
-- the table of raw records.
record Consumed (chain : ℕ) (t : PrefixTracker) (received : List FetchedRange)
    (before : Option (Height × Hash)) (db' : Db) : Type 0 where
  n : ℕ
  at : cursor db' chain ≡ cursor_of (record_all t (map arrival (take n received))) before
  stored : All (λ f. AreStored f.records db'.raws) (take n received)

consume-Consumed :
    (chain : ℕ) (t : PrefixTracker) (records : ℕ) (received : List FetchedRange)
    (before : Option (Height × Hash)) (db : Db)
    → cursor db chain ≡ cursor_of t before
    → Consumed chain t received before (consume chain t records received db).1
unfolding consume record_all
consume-Consumed chain t records [] before db h = record { n = 0; at = h; stored = tt }
consume-Consumed chain t records (f ∷ received) before db h =
    elim (Result-cases (commit_range chain f 0 db)) [
      | inr (x, e) ↦ rw (e, consume) (record { n = 0; at = h; stored = tt })
      | inl ((outcome, db'), e) ↦
          let same = commit_range-cursor chain 0 f db db' outcome e ∙ h in
          let o = checkpoint t f.from f.to f.last_block in
          let t' = record_range t f.from f.to f.last_block in
          let ih =
            consume-Consumed chain t' (records + outcome.records) received before
              (advance_prefix chain o db')
              (checkpoint-cursor_of chain t (arrival f) before db' same) in
          let here =
            subst (AreStored f.records)
              (sym (commit_range-raws chain 0 f db db' outcome e)
                ∙ sym (advance_prefix-raws chain o db'))
              (put_parts-AreStored f.records db.raws) in
          rw (e, consume)
            (record {
              n = suc ih.n;
              at = ih.at;
              stored = (
                All-map (map raw_row f.records)
                    (λ y.
                      consume-has chain t' (records + outcome.records) received (same_raw y)
                        (advance_prefix chain o db'))
                    here,
                ih.stored,
              );
            })
    ]

lt_or_le : (a b : ℕ) → (a < b) ⊎ (b ≤ a)
lt_or_le a b = ground arith

arrivals-IsRange :
    (n : ℕ) (received : List FetchedRange)
    → All (λ f. IsRange (arrival f)) received
    → All IsRange (map arrival (take n received))
arrivals-IsRange zero received w = tt
arrivals-IsRange (suc n) [] w = tt
arrivals-IsRange (suc n) (f ∷ received) w = (w.0, arrivals-IsRange n received w.1)

-- However the consumer ends, with all ranges committed or at an error, the cursor of its chain is
-- unmoved, or some ranges that it received, whose raw records all have a row under their key in the
-- database, cover every block from `next` up to the cursor.
pub commit_consumer-gapless :
    (chain next h : ℕ) (received : List FetchedRange) (db : Db)
    → All (λ f. IsRange (arrival f)) received
    → next ≤ h
    → let db' = (commit_consumer chain next received db).1 in
      (cursor db' chain ≡ cursor db chain)
      ⊎ ((n : ℕ) × (last : Height) × (hash : Hash) × (cursor db' chain ≡ some (last, hash))
          × All (λ f. AreStored f.records db'.raws) (take n received)
          × ((last < h) ⊎ Covered (map arrival (take n received)) h))
unfolding commit_consumer
commit_consumer-gapless chain next h received db w lo =
    let c =
      consume-Consumed chain (new next) 0 received (cursor db chain) db (unfold new in refl) in
    let came = map arrival (take c.n received) in
    let t = record_all (new next) came in
    elim (Option-cases t.advanced_to) [
      | inl e ↦ inl (c.at ∙ rw e refl)
      | inr (last, e) ↦ inr (
        c.n,
        last,
        best_hash t,
        c.at ∙ cursor_of_moved t (cursor db chain) last e,
        c.stored,
        elim (lt_or_le last h) [
          | inl past ↦ inl past
          | inr within ↦
              inr
                (record_all_gapless next came last h (arrivals-IsRange c.n received w) e lo within)
        ],
      )
    ]
