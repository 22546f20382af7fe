-- ===== src/Store/Rollback.antt =====
-- What a rollback takes away, and what it leaves.
use topic.Base.{
  ℕ, ◌-◌, ◌≡◌, refl, sym, ◌∙◌, ap, subst, inl, inr, Bool, true, false, not, ◌&&◌, ◌||◌, none, some,
  List, [], ◌∷◌, arith, String, str_eq, ◌==◌, if◌then◌else◌, All, All-map, All-both, Bool-cases,
  Option-cases,
}
use mathlib.Core.Option
use topic.Base.Results.{ok, >>=-eq-ok, ok-injective}
use topic.Base.Assoc
use topic.Model.{Height, Hash, EventRow}
use topic.Store.{Db, rewind, cursor, is_from, delete_raws, delete_blocks}
use topic.Store.Rows.{has, keep, keep-All, keep-Pairs, keep-keep}
use topic.Store.Events.{is_hit, is_cascaded, delete_events, delete_tables, rollback_to}
use topic.Store.Keyed.{IsSound}
use topic.Store.Deleted.{spares, delete_events-ok, delete_tables-IsSound, finish, rollback_to-ok}

rewind-IsSound : (chain to : ℕ) (db : Db) → IsSound db → IsSound (rewind chain to db)
unfolding rewind
rewind-IsSound chain to db s = elim (Option-cases (Assoc.lookup chain db.cursors)) [
  | inl e ↦ rw (e, rewind) s
  | inr (c, e) ↦
      rw (e, rewind)
        (record { raws = s.raws; blocks = s.blocks; events = s.events; queue = s.queue })
]

finish-IsSound : (chain from : ℕ) (db : Db) → IsSound db → IsSound (finish chain from db)
unfolding delete_blocks delete_raws
finish-IsSound chain from db s = rewind-IsSound chain (from - 1) _ (record {
  raws = keep-Pairs _ _ db.raws s.raws;
  blocks = keep-Pairs _ _ db.blocks s.blocks;
  events = s.events;
  queue = s.queue;
})

-- A rollback keeps the invariant of the tables: a receipt goes with its transaction.
pub rollback_to-IsSound :
    (chain from : ℕ) (tables : List String) (db db' : Db)
    → rollback_to chain from tables db ≡ ok db'
    → IsSound db
    → IsSound db'
rollback_to-IsSound chain from tables db db' e s =
    let (mid, p, q) = rollback_to-ok chain from tables db db' e in
    subst IsSound q
      (finish-IsSound chain from mid (delete_tables-IsSound tables chain from db mid p s))

-- A row of one of the tables that a rollback is to delete.
abbrev pub is_target : List String → ℕ → ℕ → String × EventRow → Bool
is_target tables chain from r =
    has (λ t. str_eq r.0 t) tables && is_from chain from r.1.chain_id r.1.height

-- A row that no rollback of these blocks touches.
abbrev pub is_apart : ℕ → ℕ → String × EventRow → Bool
is_apart chain from r =
    not (str_eq r.0 "receipts") && not (is_from chain from r.1.chain_id r.1.height)

delete_tables-All :
    (P : String × EventRow → Type 0) (tables : List String) (chain from : ℕ) (db db' : Db)
    → delete_tables tables chain from db ≡ ok db'
    → All P db.events
    → All P db'.events
unfolding delete_tables
delete_tables-All P [] chain from db db' e h = subst (λ d. All P d.events) (ok-injective e) h
delete_tables-All P (t ∷ tables) chain from db db' e h =
    let (mid, p, q) =
      >>=-eq-ok (delete_events t chain from db) (delete_tables tables chain from) e in
    delete_tables-All P tables chain from mid db' q (
      subst (λ d. All P d.events) (delete_events-ok t chain from db mid p)
        (keep-All {R = P} {P = P} (spares t chain from db.events) db.events (λ x k r. r) h))

everything : {A : Type 0} (xs : List A) → All (λ _. Unit {0}) xs
everything [] = tt
everything (x ∷ xs) = (tt, everything xs)

is_target-cons :
    (t : String) (tables : List String) (chain from : ℕ) (r : String × EventRow)
    → is_hit t chain from r ≡ false
    → is_target tables chain from r ≡ false
    → is_target (t ∷ tables) chain from r ≡ false
unfolding is_hit has
is_target-cons t tables chain from (u, row) a b = ground arith

delete_tables-is_target :
    (tables : List String) (chain from : ℕ) (db db' : Db)
    → delete_tables tables chain from db ≡ ok db'
    → All (λ r. is_target tables chain from r ≡ false) db'.events
unfolding delete_tables
delete_tables-is_target [] chain from db db' e =
    All-map db'.events (λ r _. refl) (everything db'.events)
delete_tables-is_target (t ∷ tables) chain from db db' e =
    let (mid, p, q) =
      >>=-eq-ok (delete_events t chain from db) (delete_tables tables chain from) e in
    let here : All (λ r. is_hit t chain from r ≡ false) mid.events =
      subst (λ d. All (λ r. is_hit t chain from r ≡ false) d.events)
        (delete_events-ok t chain from db mid p)
        (keep-All {R = λ _. Unit} (spares t chain from db.events) db.events (λ r k _. ground arith)
          (everything db.events)) in
    All-both db'.events (λ r. is_target-cons t tables chain from r)
      (delete_tables-All (λ r. is_hit t chain from r ≡ false) tables chain from mid db' q here)
      (delete_tables-is_target tables chain from mid db' q)

is_apart-spares :
    (t : String) (chain from : ℕ) (events : List (String × EventRow)) (r : String × EventRow)
    → (not (is_apart chain from r) || spares t chain from events r) ≡ true
unfolding is_hit is_cascaded
is_apart-spares t chain from events (u, row) = ground arith

delete_tables-is_apart :
    (tables : List String) (chain from : ℕ) (db db' : Db)
    → delete_tables tables chain from db ≡ ok db'
    → keep (is_apart chain from) db'.events ≡ keep (is_apart chain from) db.events
unfolding delete_tables
delete_tables-is_apart [] chain from db db' e =
    ap (λ (d : Db). keep (is_apart chain from) d.events) (sym (ok-injective e))
delete_tables-is_apart (t ∷ tables) chain from db db' e =
    let (mid, p, q) =
      >>=-eq-ok (delete_events t chain from db) (delete_tables tables chain from) e in
    delete_tables-is_apart tables chain from mid db' q
    ∙ ap (λ (d : Db). keep (is_apart chain from) d.events)
        (sym (delete_events-ok t chain from db mid p))
    ∙ keep-keep (is_apart chain from) (spares t chain from db.events) db.events
        (All-map db.events (λ r _. is_apart-spares t chain from db.events r) (everything db.events))

-- Only the typed rows change while the tables are cleared.
delete_tables-rest :
    (tables : List String) (chain from : ℕ) (db db' : Db)
    → delete_tables tables chain from db ≡ ok db'
    → (db'.raws ≡ db.raws)
      × (db'.blocks ≡ db.blocks)
      × (db'.cursors ≡ db.cursors)
      × (db'.queue ≡ db.queue)
unfolding delete_tables
delete_tables-rest [] chain from db db' e =
    subst
      (λ (d : Db).
        (d.raws ≡ db.raws)
        × (d.blocks ≡ db.blocks)
        × (d.cursors ≡ db.cursors)
        × (d.queue ≡ db.queue))
      (ok-injective e) (refl, refl, refl, refl)
delete_tables-rest (t ∷ tables) chain from db db' e =
    let (mid, p, q) =
      >>=-eq-ok (delete_events t chain from db) (delete_tables tables chain from) e in
    subst
      (λ (d : Db).
        (db'.raws ≡ d.raws)
        × (db'.blocks ≡ d.blocks)
        × (db'.cursors ≡ d.cursors)
        × (db'.queue ≡ d.queue))
      (sym (delete_events-ok t chain from db mid p))
      (delete_tables-rest tables chain from mid db' q)

-- What is known of the database `db'` that a rollback of `db` leaves.
pub record IsRolledBack (chain from : ℕ) (tables : List String) (db db' : Db) : Type 0 where
  pub raws : All (λ r. is_from chain from r.chain_id r.height ≡ false) db'.raws
  pub blocks : All (λ b. is_from chain from b.chain_id b.height ≡ false) db'.blocks
  pub events : All (λ r. is_target tables chain from r ≡ false) db'.events
  pub other_raws :
      keep (λ r. not (is_from chain from r.chain_id r.height)) db'.raws
      ≡ keep (λ r. not (is_from chain from r.chain_id r.height)) db.raws
  pub other_blocks :
      keep (λ b. not (is_from chain from b.chain_id b.height)) db'.blocks
      ≡ keep (λ b. not (is_from chain from b.chain_id b.height)) db.blocks
  pub other_events : keep (is_apart chain from) db'.events ≡ keep (is_apart chain from) db.events
  pub queue : db'.queue ≡ db.queue
  pub rewound :
      (j : ℕ)
      → cursor db' j
        ≡ (if chain == j then Option.map (λ c. (from - 1, [])) (cursor db j) else cursor db j)

rewind-cursor :
    (chain to j : ℕ) (db : Db)
    → cursor (rewind chain to db) j
      ≡ (if chain == j then Option.map (λ c. (to, [])) (cursor db j) else cursor db j)
unfolding rewind cursor
rewind-cursor chain to j db = elim (Option-cases (Assoc.lookup chain db.cursors)) [
  | inl e ↦
      rw (e, rewind)
        (elim (Bool-cases (chain == j)) [
          | inl h ↦
              let same : chain ≡ j = ground arith in
              let gone = subst (λ k. Assoc.lookup k db.cursors ≡ none) same e in rw (h, gone) refl
          | inr h ↦ rw h refl
        ])
  | inr (c, e) ↦
      rw (e, rewind, Assoc.lookup-insert chain j (to, []) db.cursors)
        (elim (Bool-cases (chain == j)) [
          | inl h ↦
              let same : chain ≡ j = ground arith in
              let there = subst (λ k. Assoc.lookup k db.cursors ≡ some c) same e in
              rw (h, there) refl
          | inr h ↦ rw h refl
        ])
]

rewind-rest :
    (chain to : ℕ) (db : Db)
    → record db { cursors = (rewind chain to db).cursors } ≡ rewind chain to db
unfolding rewind
rewind-rest chain to db = elim (Option-cases (Assoc.lookup chain db.cursors)) [
  | inl e ↦ rw (e, rewind) refl
  | inr (c, e) ↦ rw (e, rewind) refl
]

below :
    {A : Type 0} (p : A → Bool) (xs : List A) → All (λ x. p x ≡ false) (keep (λ x. not (p x)) xs)
below p xs =
    keep-All {R = λ _. Unit} {P = λ x. p x ≡ false} (λ x. not (p x)) xs (λ x k _. ground arith)
      (everything xs)

twice : {A : Type 0} (p : A → Bool) (xs : List A) → keep p (keep p xs) ≡ keep p xs
twice p xs = keep-keep p p xs (All-map xs (λ x _. ground arith) (everything xs))

finish-IsRolledBack :
    (chain from : ℕ) (tables : List String) (db mid : Db)
    → delete_tables tables chain from db ≡ ok mid
    → IsRolledBack chain from tables db (finish chain from mid)
unfolding delete_raws delete_blocks cursor
finish-IsRolledBack chain from tables db mid e =
    let (r, b, c, q) = delete_tables-rest tables chain from db mid e in
    let cleared = delete_blocks chain from (delete_raws chain from mid) in
    subst (IsRolledBack chain from tables db) (rewind-rest chain (from - 1) cleared) (record {
      raws = below (λ r. is_from chain from r.chain_id r.height) mid.raws;
      blocks = below (λ b. is_from chain from b.chain_id b.height) mid.blocks;
      events = delete_tables-is_target tables chain from db mid e;
      other_raws =
          twice (λ r. not (is_from chain from r.chain_id r.height)) mid.raws
          ∙ ap (keep (λ r. not (is_from chain from r.chain_id r.height))) r;
      other_blocks =
          twice (λ b. not (is_from chain from b.chain_id b.height)) mid.blocks
          ∙ ap (keep (λ b. not (is_from chain from b.chain_id b.height))) b;
      other_events = delete_tables-is_apart tables chain from db mid e;
      queue = q;
      rewound = λ j.
          rewind-cursor chain (from - 1) j cleared
          ∙ ap
              (λ (m : List (ℕ × (Height × Hash))).
                if chain == j
                then Option.map (λ _. (from - 1, [])) (Assoc.lookup j m)
                else Assoc.lookup j m)
              c;
    })

-- After a rollback no raw record, no block and no row of a listed table is left at or above `from` on
-- the chain; rows below it or of other chains are as before, receipts apart, which go with their
-- transactions; the queue is as before; a cursor of the chain, wherever it stood, is at `from - 1`
-- without a hash, and those of other chains stay.
pub rollback_to-IsRolledBack :
    (chain from : ℕ) (tables : List String) (db db' : Db)
    → rollback_to chain from tables db ≡ ok db'
    → IsRolledBack chain from tables db db'
rollback_to-IsRolledBack chain from tables db db' e =
    let (mid, p, q) = rollback_to-ok chain from tables db db' e in
    subst (IsRolledBack chain from tables db) q (finish-IsRolledBack chain from tables db mid p)
