-- ===== src/Ingest/Cursor.antt =====
-- Where a consumer that committed all its ranges leaves the cursor.
use topic.Base.{
  ℕ, ◌+◌, ◌≡◌, refl, sym, ap, ◌∙◌, subst, inl, inr, Option, none, some, List, [], ◌∷◌, Option-cases,
}
use topic.Base.Results.{DomainError, Result, ok, err, ok-injective, ok-err, Result-cases}
use topic.Model.{Height, Hash}
use topic.Plan.{PrefixTracker, new, record_range, checkpoint, best_hash}
use topic.Store.{Db, cursor}
use topic.Ingest.{FetchedRange, commit_range, advance_prefix, consume, commit_consumer}
use topic.Ingest.Prefix.{arrival, cursor_of, checkpoint-cursor_of, commit_range-cursor}

-- The cursor is at the height that the pipeline returned, or was not moved.
abbrev pub IsMovedTo : Option ℕ → Option (Height × Hash) → Option (Height × Hash) → Type 0
IsMovedTo none before after = after ≡ before
IsMovedTo (some h) before after = (hash : Hash) × (after ≡ some (h, hash))

cursor_of-IsMovedTo :
    (t : PrefixTracker) (before after : Option (Height × Hash))
    → after ≡ cursor_of t before
    → IsMovedTo t.advanced_to before after
cursor_of-IsMovedTo t before after h = elim (Option-cases t.advanced_to) [
  | inl e ↦ rw e (h ∙ rw e refl)
  | inr (last, e) ↦ rw e ((best_hash t, h ∙ rw e refl))
]

consume-IsMovedTo :
    (chain : ℕ) (t : PrefixTracker) (records : ℕ) (received : List FetchedRange)
    (before : Option (Height × Hash)) (db : Db) (advanced : Option ℕ) (n : ℕ)
    → cursor db chain ≡ cursor_of t before
    → (consume chain t records received db).0 ≡ ok (advanced, n)
    → IsMovedTo advanced before (cursor (consume chain t records received db).1 chain)
unfolding consume
consume-IsMovedTo chain t records [] before db advanced n h = λ e.
    subst (λ o. IsMovedTo o before (cursor db chain))
      (ap (λ (p : Option ℕ × ℕ). p.0) (ok-injective e)) (cursor_of-IsMovedTo t before _ h)
consume-IsMovedTo chain t records (f ∷ received) before db advanced n h =
    elim (Result-cases (commit_range chain f 0 db)) [
      | inr (x, c) ↦
          rw (c, consume)
            (λ (e : ◌≡◌ {A = Result DomainError (Option ℕ × ℕ)} (err x) (ok (advanced, n))).
              absurd (ok-err (sym e)))
      | inl ((outcome, db'), c) ↦
          rw (c, consume)
            (consume-IsMovedTo chain (record_range t f.from f.to f.last_block)
              (records + outcome.records) received before
              (advance_prefix chain (checkpoint t f.from f.to f.last_block) db') advanced n
              (checkpoint-cursor_of chain t (arrival f) before db'
                (commit_range-cursor chain 0 f db db' outcome c ∙ h)))
    ]

pub commit_consumer-IsMovedTo :
    (chain next : ℕ) (received : List FetchedRange) (db : Db) (advanced : Option ℕ) (n : ℕ)
    → (commit_consumer chain next received db).0 ≡ ok (advanced, n)
    → IsMovedTo advanced (cursor db chain) (cursor (commit_consumer chain next received db).1 chain)
unfolding commit_consumer
commit_consumer-IsMovedTo chain next received db advanced n =
    consume-IsMovedTo chain (new next) 0 received (cursor db chain) db advanced n
      (unfold new in refl)
