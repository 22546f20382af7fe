-- ===== src/Tip/Heard.antt =====
-- bins/indexer-cli/src/tip.rs: what the state of the tip knows after the events of the stream.
use topic.Base.{ℕ, ◌≤◌, ◌≡◌, ◌⊎◌, ◌↔◌, true, false, Option, none, some, List, [], ◌∷◌, Any}
use topic.Base.Results.{DomainError, Result, ok, err}
use topic.Model.{TipLog}
use topic.Tip.{TipState, on_ws_event}
use topic.Tip.Pending.{Ascends, In}

-- What the stream yields: a log or an error, or its end.
abbrev pub Event : Type 0
Event = Option (Result DomainError TipLog)

-- One event after another.
abbrev pub heard : List Event → TipState → TipState
heard [] st = st
heard (e ∷ es) st = heard es (on_ws_event e st)

-- A log at this height, new or taken back by a reorg.
abbrev pub Announces : ℕ → Event → Type 0
Announces h (some (ok t)) = (t.removed ≡ false) × (t.raw.height ≡ h)
Announces h (some (err e)) = ⊥
Announces h none = ⊥

abbrev pub Removes : ℕ → Event → Type 0
Removes h (some (ok t)) = (t.removed ≡ true) × (t.raw.height ≡ h)
Removes h (some (err e)) = ⊥
Removes h none = ⊥

-- A stream that fails or ends.
abbrev pub Ends : Event → Type 0
Ends (some (ok t)) = ⊥
Ends (some (err e)) = Unit
Ends none = Unit

pub record IsHeard (es : List Event) (st st' : TipState) : Type 0 where
  pub ordered : Ascends st'.pending
  pub announced : (h : ℕ) → In st'.pending h ↔ (In st.pending h ⊎ Any (Announces h) es)
  pub signalled : (h : ℕ) → st'.reorg_at ≡ some h → (st.reorg_at ≡ some h) ⊎ Any (Removes h) es
  pub lowest :
      (h : ℕ)
      → (st.reorg_at ≡ some h) ⊎ Any (Removes h) es
      → (k : ℕ) × (st'.reorg_at ≡ some k) × (k ≤ h)
  pub dropped : Any Ends es → st'.sub ≡ false
  pub polled : st'.reconcile ≡ st.reconcile
