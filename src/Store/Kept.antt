-- ===== src/Store/Kept.antt =====
-- Rows that were written have their keys in the database, and are not written again.
use topic.Base.{
  ◌≡◌, refl, sym, ◌∙◌, ap, subst, inl, inr, Bool, true, List, [], ◌∷◌, arith, String, eq_iff, All,
  All-map,
}
use topic.Base.Results.{ok, ◌>>=◌, >>=-eq-ok, ok-injective, ok-err}
use topic.Model.{EventRow, hash_eq_iff}
use topic.Store.{Db}
use topic.Store.Rows.{has, has-append}
use topic.Store.Events.{
  same_event, put_event, put_events, upsert_events, event_rows, safe_names, upsert_tables,
}
use topic.Store.Keyed.{put_event-cases, upsert_events-ok}

same_event_refl : (by_tx : String → Bool) (r : String × EventRow) → same_event by_tx r r ≡ true
unfolding same_event
same_event_refl by_tx (t, a) =
    ground (arith, (eq_iff t t).1 refl, (hash_eq_iff a.tx_id a.tx_id).1 refl)

module _ (by_tx : String → Bool) where
  abbrev pub Kept : List (String × EventRow) → String × EventRow → Type 0
  Kept events r = has (same_event by_tx r) events ≡ true

  put_event-has :
      (p : String × EventRow → Bool) (r : String × EventRow)
      (events events' : List (String × EventRow))
      → put_event by_tx r events ≡ ok events'
      → (has p events ≡ true → has p events' ≡ true) × Kept events' r
  put_event-has p r events events' e = elim (put_event-cases by_tx r events) [
    | inl (same, old) ↦
        subst (λ l. (has p events ≡ true → has p l ≡ true) × Kept l r) (ok-injective (sym same ∙ e))
          (λ h. h, old)
    | inr (inl (x, refused)) ↦ absurd (ok-err (sym e ∙ refused))
    | inr (inr (added, new, parent)) ↦
        subst (λ l. (has p events ≡ true → has p l ≡ true) × Kept l r)
          (ok-injective (sym added ∙ e))
          (
            λ h. ground (arith, h, has-append p events (r ∷ [])),
            unfold has in
                ground
                  (arith, has-append (same_event by_tx r) events (r ∷ []), same_event_refl by_tx r),
          )
  ]

  put_events-has :
      (p : String × EventRow → Bool) (rows events events' : List (String × EventRow))
      → put_events by_tx rows events ≡ ok events'
      → has p events ≡ true
      → has p events' ≡ true
  unfolding put_events
  put_events-has p [] events events' e h = subst (λ l. has p l ≡ true) (ok-injective e) h
  put_events-has p (r ∷ rows) events events' e h =
      let (mid, a, b) = >>=-eq-ok (put_event by_tx r events) (put_events by_tx rows) e in
      put_events-has p rows mid events' b ((put_event-has p r events mid a).0 h)

  pub put_events-Kept :
      (rows events events' : List (String × EventRow))
      → put_events by_tx rows events ≡ ok events'
      → All (Kept events') rows
  unfolding put_events
  put_events-Kept [] events events' e = tt
  put_events-Kept (r ∷ rows) events events' e =
      let (mid, a, b) = >>=-eq-ok (put_event by_tx r events) (put_events by_tx rows) e in
      (
        put_events-has (same_event by_tx r) rows mid events' b
            (put_event-has (same_event by_tx r) r events mid a).1,
        put_events-Kept rows mid events' b,
      )

  pub put_events-same :
      (rows events : List (String × EventRow))
      → All (Kept events) rows
      → put_events by_tx rows events ≡ ok events
  unfolding put_events put_event
  put_events-same [] events h = refl
  put_events-same ((t, r) ∷ rows) events h = rw (h.0, put_event) (put_events-same rows events h.1)

-- The rows of all the tables have their keys in the database.
abbrev pub AreKept :
    (String → Bool) → List (String × List EventRow) → List (String × EventRow) → Type 0
AreKept by_tx tables events =
    All
      (λ (g : String × List EventRow).
        (safe_names g.0 g.1 ≡ true) × All (Kept by_tx events) (event_rows g.0 g.1))
      tables

pub upsert_tables-has :
    (by_tx : String → Bool) (p : String × EventRow → Bool) (tables : List (String × List EventRow))
    (db db' : Db)
    → upsert_tables tables db ≡ ok db'
    → (db'.by_tx ≡ db.by_tx) × (has p db.events ≡ true → has p db'.events ≡ true)
unfolding upsert_tables
upsert_tables-has by_tx p [] db db' e =
    subst (λ (d : Db). (d.by_tx ≡ db.by_tx) × (has p db.events ≡ true → has p d.events ≡ true))
      (ok-injective e) (refl, λ h. h)
upsert_tables-has by_tx p ((t, rows) ∷ tables) db db' e =
    let (mid, a, b) = >>=-eq-ok (upsert_events t rows db) (upsert_tables tables) e in
    let (events, safe, put, same) = upsert_events-ok t rows db mid a in
    let (kept, later) = upsert_tables-has by_tx p tables mid db' b in
    (
      kept ∙ ap (λ (d : Db). d.by_tx) (sym same),
      λ h. later (
          subst (λ (d : Db). has p d.events ≡ true) same
            (put_events-has db.by_tx p (event_rows t rows) db.events events put h)),
    )

pub upsert_tables-AreKept :
    (tables : List (String × List EventRow)) (db db' : Db)
    → upsert_tables tables db ≡ ok db'
    → AreKept db.by_tx tables db'.events
unfolding upsert_tables
upsert_tables-AreKept [] db db' e = tt
upsert_tables-AreKept ((t, rows) ∷ tables) db db' e =
    let (mid, a, b) = >>=-eq-ok (upsert_events t rows db) (upsert_tables tables) e in
    let (events, safe, put, same) = upsert_events-ok t rows db mid a in
    (
      (
        safe,
        All-map (event_rows t rows)
            (λ r h.
              (upsert_tables-has db.by_tx (same_event db.by_tx r) tables mid db' b).1
                (subst (λ (d : Db). has (same_event db.by_tx r) d.events ≡ true) same h))
            (put_events-Kept db.by_tx (event_rows t rows) db.events events put),
      ),
      subst (λ k. AreKept k tables db'.events) (ap (λ (d : Db). d.by_tx) (sym same))
          (upsert_tables-AreKept tables mid db' b),
    )

pub upsert_tables-rest :
    (tables : List (String × List EventRow)) (db db' : Db)
    → upsert_tables tables db ≡ ok db'
    → record db { events = db'.events } ≡ db'
unfolding upsert_tables
upsert_tables-rest [] db db' e =
    subst (λ (d : Db). record db { events = d.events } ≡ d) (ok-injective e) refl
upsert_tables-rest ((t, rows) ∷ tables) db db' e =
    let (mid, a, b) = >>=-eq-ok (upsert_events t rows db) (upsert_tables tables) e in
    let (events, _, _, same) = upsert_events-ok t rows db mid a in
    ap (λ (d : Db). record d { events = db'.events }) same ∙ upsert_tables-rest tables mid db' b

pub upsert_events-same :
    (t : String) (rows : List EventRow) (db : Db)
    → (safe_names t rows ≡ true) × All (Kept db.by_tx db.events) (event_rows t rows)
    → upsert_events t rows db ≡ ok db
unfolding upsert_events
upsert_events-same t rows db h =
    rw (h.0, upsert_events, put_events-same db.by_tx (event_rows t rows) db.events h.1) refl

pub upsert_tables-same :
    (tables : List (String × List EventRow)) (db : Db)
    → AreKept db.by_tx tables db.events
    → upsert_tables tables db ≡ ok db
unfolding upsert_tables
upsert_tables-same [] db h = refl
upsert_tables-same ((t, rows) ∷ tables) db h =
    ap (λ r. r >>= upsert_tables tables) (upsert_events-same t rows db h.0)
    ∙ upsert_tables-same tables db h.1
