-- ===== src/Decode/Tables.antt =====
-- decoding.rs: the tables that decoded rows go to, and what writing the rows of each does.
use topic.Base.{
  ℕ, ◌+◌, ◌-◌, ◌≡◌, refl, sym, ◌∙◌, ap, subst, inl, inr, Bool, false, Option, none, some, List, [],
  ◌∷◌, map, arith, String, str_eq, All, length,
}
use topic.Base.Results.{
  DomainError, Result, ok, err, ◌>>=◌, >>=-eq-ok, ok-injective, ok-err, Result-cases,
}
use topic.Model.{Height, RawRecord, EventRow, TxCalldata}
use topic.Store.{Db}
use topic.Base.Chunks.{concat}
use topic.Store.Rows.{keep, keep-snoc}
use topic.Store.Events.{
  put_event, put_events, upsert_events, upsert_tables, event_rows, statements, sig_groups,
}
use topic.Store.Keyed.{put_event-cases, upsert_events-ok}
use topic.Store.Kept.{AreKept, upsert_events-same}
use topic.Decode.{Decoder, collect, is_tx, write_tables}

-- The name of a table that no row of the decoder goes to.
abbrev pub IsOther : String → Type 0
IsOther t = str_eq t "transactions" ≡ false

-- What a decoder is built from has event and call tables only.
abbrev pub HasOwnTables : Decoder → Type 0
HasOwnTables decoder =
    ((r : RawRecord) (row : EventRow) → decoder.decode r ≡ ok (some row) → IsOther row.event.table)
    × ((t : TxCalldata) (row : EventRow)
        → decoder.decode_call t ≡ ok (some row)
        → IsOther row.event.table)

pub collect-All :
    {A : Type 0} (decode : A → Result DomainError (Option EventRow)) (time : Height → Option ℕ)
    (xs : List A) (rows : List EventRow)
    → ((a : A) (row : EventRow) → decode a ≡ ok (some row) → IsOther row.event.table)
    → collect decode time xs ≡ ok rows
    → All (λ r. IsOther r.event.table) rows
unfolding collect
collect-All decode time [] rows f e = subst (All (λ r. IsOther r.event.table)) (ok-injective e) tt
collect-All decode time (a ∷ as') rows f e =
    let stamp : Option EventRow → List EventRow → List EventRow = λ row rest. elim row [
      | none ↦ rest
      | some r ↦ record r { block_time = time r.height } ∷ rest
    ] in
    let done : Option EventRow → List EventRow → Result DomainError (List EventRow) =
      λ row rest. ok (stamp row rest) in
    let (row, p, q) = >>=-eq-ok (decode a) (λ row. collect decode time as' >>= done row) e in
    let (rest, c, d) = >>=-eq-ok (collect decode time as') (done row) q in
    let ih = collect-All decode time as' rest f c in
    subst (All (λ r. IsOther r.event.table)) (ok-injective d) (stamped row p rest ih)
  where
    stamped :
        (row : Option EventRow)
        → decode a ≡ ok row
        → (rest : List EventRow) → All (λ r. IsOther r.event.table) rest
        → All
            (λ r. IsOther r.event.table)
            (elim row [ none ↦ rest | some r ↦ record r { block_time = time r.height } ∷ rest ])
    stamped none p rest h = h
    stamped (some r) p rest h = (f a r p, h)

put_event-is_tx :
    (by_tx : String → Bool) (r : String × EventRow) (events events' : List (String × EventRow))
    → IsOther r.0
    → put_event by_tx r events ≡ ok events'
    → keep is_tx events' ≡ keep is_tx events
put_event-is_tx by_tx r events events' h e = elim (put_event-cases by_tx r events) [
  | inl (same, _) ↦ ap (keep is_tx) (ok-injective (sym e ∙ same))
  | inr (inl (x, refused)) ↦ absurd (ok-err (sym e ∙ refused))
  | inr (inr (added, _, _)) ↦
      ap (keep is_tx) (ok-injective (sym e ∙ added)) ∙ keep-snoc is_tx r events h
]

put_events-is_tx :
    (by_tx : String → Bool) (rows events events' : List (String × EventRow))
    → All (λ r. IsOther r.0) rows
    → put_events by_tx rows events ≡ ok events'
    → keep is_tx events' ≡ keep is_tx events
unfolding put_events
put_events-is_tx by_tx [] events events' h e = ap (keep is_tx) (sym (ok-injective e))
put_events-is_tx by_tx (r ∷ rows) events events' h e =
    let (mid, a, b) = >>=-eq-ok (put_event by_tx r events) (put_events by_tx rows) e in
    put_events-is_tx by_tx rows mid events' h.1 b ∙ put_event-is_tx by_tx r events mid h.0 a

named-All :
    (t : String) (rows : List EventRow) → IsOther t → All (λ r. IsOther r.0) (event_rows t rows)
unfolding event_rows
named-All t rows h = go (concat (statements t (sig_groups rows)))
  where
    go :
        (xs : List EventRow)
        → All {A = String × EventRow} (λ r. IsOther r.0) (map (λ row. (t, row)) xs)
    go [] = tt
    go (x ∷ xs) = (h, go xs)

pub upsert_tables-is_tx :
    (tables : List (String × List EventRow)) (db db' : Db)
    → All {A = String × List EventRow} (λ g. IsOther g.0) tables
    → upsert_tables tables db ≡ ok db'
    → keep is_tx db'.events ≡ keep is_tx db.events
unfolding upsert_tables
upsert_tables-is_tx [] db db' h e = ap (λ (d : Db). keep is_tx d.events) (sym (ok-injective e))
upsert_tables-is_tx ((t, rows) ∷ tables) db db' h e =
    let (mid, a, b) = >>=-eq-ok (upsert_events t rows db) (upsert_tables tables) e in
    let (events, _, put, same) = upsert_events-ok t rows db mid a in
    upsert_tables-is_tx tables mid db' h.1 b
    ∙ ap (λ (d : Db). keep is_tx d.events) (sym same)
    ∙ put_events-is_tx db.by_tx (event_rows t rows) db.events events (named-All t rows h.0) put

pub write_tables-cons :
    (t : String) (rows : List EventRow) (tables : List (String × List EventRow)) (db db' : Db)
    → upsert_events t rows db ≡ ok db'
    → write_tables ((t, rows) ∷ tables) db ≡ (
      (write_tables tables db').0 >>= (λ n. ok (length db'.events - length db.events + n)),
      (write_tables tables db').1,
    )
unfolding write_tables
write_tables-cons t rows tables db db' p = rw (p, write_tables) refl

pub write_tables-refused :
    (t : String) (rows : List EventRow) (tables : List (String × List EventRow)) (db : Db)
    (x : DomainError)
    → upsert_events t rows db ≡ err x
    → write_tables ((t, rows) ∷ tables) db ≡ (err x, db)
unfolding write_tables
write_tables-refused t rows tables db x p = rw (p, write_tables) refl

pub write_tables-ok :
    (tables : List (String × List EventRow)) (db : Db) (n : ℕ)
    → (write_tables tables db).0 ≡ ok n
    → upsert_tables tables db ≡ ok (write_tables tables db).1
unfolding upsert_tables
write_tables-ok [] db n e = unfold write_tables in refl
write_tables-ok ((t, rows) ∷ tables) db n e = elim (Result-cases (upsert_events t rows db)) [
  | inr (x, p) ↦ absurd (
      ok-err (
        sym e
        ∙ ap (λ (r : Result DomainError ℕ × Db). r.0) (write_tables-refused t rows tables db x p)))
  | inl (db', p) ↦
      let step = write_tables-cons t rows tables db db' p in
      let (m, q, _) =
        >>=-eq-ok (write_tables tables db').0 (λ m. ok (length db'.events - length db.events + m))
          (sym (ap (λ (r : Result DomainError ℕ × Db). r.0) step) ∙ e) in
      ap (λ r. r >>= upsert_tables tables) p
      ∙ write_tables-ok tables db' m q
      ∙ ap (λ (r : Result DomainError ℕ × Db). ok r.1) (sym step)
]

pub write_tables-same :
    (tables : List (String × List EventRow)) (db : Db)
    → AreKept db.by_tx tables db.events
    → write_tables tables db ≡ (ok 0, db)
write_tables-same [] db h = unfold write_tables in refl
write_tables-same ((t, rows) ∷ tables) db h =
    write_tables-cons t rows tables db db (upsert_events-same t rows db h.0)
    ∙ ap {B = Result DomainError ℕ × Db}
        (λ (r : Result DomainError ℕ × Db).
          (r.0 >>= (λ n. ok (length db.events - length db.events + n)), r.1))
        (write_tables-same tables db h.1)
    ∙ ap (λ n. (ok n, db)) {x = length db.events - length db.events + 0} {y = 0} (omega arith)
