-- ===== src/Store/Deleted.antt =====
-- crates/db/src/unit_of_work.rs: the rows that the deletions of a rollback leave.
use topic.Base.{
  ℕ, ◌-◌, ◌≡◌, ap, subst, inl, inr, Bool, true, false, not, ◌&&◌, ◌||◌, List, [], ◌∷◌, arith,
  String, str_eq, eq_iff, All-map, Bool-cases,
}
use topic.Base.Results.{DomainError, Result, ok, >>=-eq-ok, ok-injective, guard-eq-ok}
use topic.Text.{codes}
use topic.Codec.Idents.{is_valid_ident}
use topic.Model.{EventRow}
use topic.Store.{Db, rewind, delete_raws, delete_blocks}
use topic.Store.Rows.{keep, has-false, keep-All, keep-Pairs, keep-has}
use topic.Store.Events.{is_parent, is_hit, is_cascaded, delete_events, delete_tables, rollback_to}
use topic.Store.Keyed.{HasParent, IsSound, IsSound-events}

parent-receipts :
    (a : EventRow) (x : String × EventRow) → is_parent a x ≡ true → str_eq x.0 "receipts" ≡ false
unfolding is_parent
parent-receipts a (u, b) h =
    let e : u ≡ "transactions" = (eq_iff u "transactions").0 (ground arith) in
    ap (λ t. str_eq t "receipts") e

abbrev pub spares : String → ℕ → ℕ → List (String × EventRow) → String × EventRow → Bool
spares table chain from events r =
    not (is_hit table chain from r || is_cascaded table chain from events r)

parent_spared :
    (table : String) (chain from : ℕ) (events : List (String × EventRow)) (row : EventRow)
    (x : String × EventRow)
    → (is_hit table chain from x && is_parent row x) ≡ false
    → (not (is_parent row x) || spares table chain from events x) ≡ true
unfolding is_cascaded
parent_spared table chain from events row x h = elim (Bool-cases (is_parent row x)) [
  | inl p ↦ ground (arith, parent-receipts row x p)
  | inr n ↦ ground arith
]

-- A receipt that a delete spares keeps its transaction.
spared-HasParent :
    (table : String) (chain from : ℕ) (events : List (String × EventRow)) (r : String × EventRow)
    → spares table chain from events r ≡ true
    → HasParent events r
    → HasParent (keep (spares table chain from events) events) r
unfolding is_cascaded
spared-HasParent table chain from events (t, row) kept h = elim (Bool-cases (str_eq t "receipts")) [
  | inr other ↦ ground arith
  | inl receipt ↦
      let safe =
        All-map events (λ x. parent_spared table chain from events row x)
          (has-false (λ p. is_hit table chain from p && is_parent row p) events (ground arith)) in
      let there =
        keep-has (is_parent row) (spares table chain from events) events safe (ground arith) in
      ground (arith, there)
]

pub delete_events-ok :
    (table : String) (chain from : ℕ) (db db' : Db)
    → delete_events table chain from db ≡ ok db'
    → record db { events = keep (spares table chain from db.events) db.events } ≡ db'
unfolding delete_events
delete_events-ok table chain from db db' e =
    let done : Result DomainError Db =
      ok (record db { events = keep (spares table chain from db.events) db.events }) in
    ok-injective
      (guard-eq-ok (is_valid_ident (codes table)) (DomainError.storage "unsafe identifier") done
        e).1

delete_events-IsSound :
    (table : String) (chain from : ℕ) (db db' : Db)
    → delete_events table chain from db ≡ ok db'
    → IsSound db
    → IsSound db'
delete_events-IsSound table chain from db db' e s =
    subst IsSound (delete_events-ok table chain from db db' e) (
      IsSound-events db (keep (spares table chain from db.events) db.events)
        (record {
          keyed = keep-Pairs _ (spares table chain from db.events) db.events s.events.keyed;
          parents =
              keep-All (spares table chain from db.events) db.events
                (λ r k h. spared-HasParent table chain from db.events r k h) s.events.parents;
        })
        s)

pub delete_tables-IsSound :
    (tables : List String) (chain from : ℕ) (db db' : Db)
    → delete_tables tables chain from db ≡ ok db'
    → IsSound db
    → IsSound db'
unfolding delete_tables
delete_tables-IsSound [] chain from db db' e s = subst IsSound (ok-injective e) s
delete_tables-IsSound (t ∷ tables) chain from db db' e s =
    let (mid, p, q) =
      >>=-eq-ok (delete_events t chain from db) (delete_tables tables chain from) e in
    delete_tables-IsSound tables chain from mid db' q
      (delete_events-IsSound t chain from db mid p s)

-- The rest of `rollback_to`.
abbrev pub finish : ℕ → ℕ → Db → Db
finish chain from db =
    rewind chain (from - 1) (delete_blocks chain from (delete_raws chain from db))

pub rollback_to-ok :
    (chain from : ℕ) (tables : List String) (db db' : Db)
    → rollback_to chain from tables db ≡ ok db'
    → (mid : Db) × (delete_tables tables chain from db ≡ ok mid) × (finish chain from mid ≡ db')
unfolding rollback_to
rollback_to-ok chain from tables db db' e =
    let done : Db → Result DomainError Db = λ mid. ok (finish chain from mid) in
    let (mid, p, q) = >>=-eq-ok (delete_tables tables chain from db) done e in
    (mid, p, ok-injective q)
