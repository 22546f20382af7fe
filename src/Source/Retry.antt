-- ===== src/Source/Retry.antt =====
-- crates/source/src/retry.rs: retries with jittered backoff, and the classes of errors.
use Prim.Native.Nat.{bit_xor}
use topic.Base.{
  ℕ, zero, suc, ◌+◌, ◌-◌, ◌*◌, ◌/◌, ◌%◌, ◌^◌, ◌≤◌, ◌<◌, min, ◌≡◌, refl, ◌⊎◌, inl, inr, Bool, true,
  false, List, [], ◌∷◌, String, arith, add64, mul64, ◌==◌, if◌then◌else◌, Bool-cases, subst,
}
use topic.Base.Results.{Result, ok, err, Result-cases}
use topic.Pricing
use native.Mathlib.Nat
use topic.Model.{RpcCall}
use topic.Text.{codes, to_lower, contains_any}
use topic.Source.{SourceError, transport, Client, Rpc, enter}

-- `is_range_cap_error`
unfoldable pub is_range_cap_error : String → Bool
unfolding to_lower contains_any
is_range_cap_error e =
    contains_any (to_lower (codes e))
      ("more than" ∷ "too large" ∷ "response size" ∷ "range is too" ∷ "query timeout" ∷ [])

-- `transient` in `with_retry`
unfoldable pub is_transient : String → Bool
unfolding to_lower contains_any
is_transient e = contains_any (to_lower (codes e)) (
    "429" ∷ "limit" ∷ "too many requests" ∷ "timeout" ∷ "timed out" ∷ "503" ∷ "502" ∷ "connection"
    ∷ [])

-- `split_range`
unfoldable pub split_range : ℕ → ℕ → (ℕ × ℕ) × (ℕ × ℕ)
split_range lo hi = let mid = lo + (hi - lo) / 2 in ((lo, mid), (mid + 1, hi))

-- The mixing of the jitter state `x`.
unfoldable pub mixed : ℕ → ℕ
mixed x =
    let y = mul64 (bit_xor x (x / 2 ^ 30)) 0xBF58476D1CE4E5B9 in
    let z = mul64 (bit_xor y (y / 2 ^ 27)) 0x94D049BB133111EB in bit_xor z (z / 2 ^ 31)

-- `jitter_below`: the jitter, and the state that it leaves.
unfoldable pub jitter_below : ℕ → ℕ → ℕ × ℕ
unfolding mixed
jitter_below max state =
    if max == 0 then (0, state) else (mixed state % max, add64 state 0x9E3779B97F4A7C15)

-- The sleep between two attempts.
unfoldable pub sleep : ℕ → Client → Client
unfolding jitter_below
sleep delay c =
    let half = delay / 2 in
    let (j, state) = jitter_below (half + 1) c.jitter in
    record c { jitter = state; slept = c.slept + (half + j) }

-- The loop of `with_retry` with `left` attempts after this one.
unfoldable pub retry_loop :
    {A : Type 0} → ℕ → ℕ → Rpc A → RpcCall → Client → Result SourceError A × Client
unfolding enter sleep
retry_loop zero delay rpc call c = elim (rpc c.calls) [
  | ok v ↦ (ok v, enter c call)
  | err e ↦ (err (transport e), enter c call)
]
retry_loop (suc left) delay rpc call c = elim (rpc c.calls) [
  | ok v ↦ (ok v, enter c call)
  | err e ↦ elim (is_transient e) [
    | false ↦ (err (transport e), enter c call)
    | true ↦ retry_loop left (min (delay * 2) 4000) rpc call (sleep delay (enter c call))
  ]
]

-- `with_retry`, with an operation that makes one call of the provider.
unfoldable pub with_retry : {A : Type 0} → Rpc A → RpcCall → Client → Result SourceError A × Client
unfolding retry_loop
with_retry rpc call c = retry_loop 5 250 rpc call c

abbrev pub repeat {ℓ} : {A : Type ℓ} → ℕ → A → List A
repeat zero x = []
repeat (suc n) x = x ∷ repeat n x

-- The attempts of a call from the state `c`: `n` that fail with a transient error, then one that
-- succeeds, or fails for good, or was the last that is allowed. Each is billed once.
pub record Tried {A : Type 0} (left : ℕ) (rpc : Rpc A) (call : RpcCall) (c c' : Client)
    (r : Result SourceError A) : Type 0 where
  pub n : ℕ
  pub few : n ≤ left
  pub kept : c'.plan ≡ c.plan
  pub made : c'.calls ≡ c.calls + n + 1
  pub billed : c'.ledger ≡ Pricing.record_all c.ledger (repeat (suc n) (c.cost_model.cost call))
  pub retried :
      (i : ℕ) → i < n → (e : String) × (rpc (c.calls + i) ≡ err e) × (is_transient e ≡ true)
  pub ended :
      ((v : A) × (rpc (c.calls + n) ≡ ok v) × (r ≡ ok v))
      ⊎ ((e : String) × (rpc (c.calls + n) ≡ err e)
          × (r ≡ err (transport e))
          × ((n ≡ left) ⊎ (is_transient e ≡ false)))

module _ {A : Type 0} (rpc : Rpc A) (call : RpcCall) where
  Tried-ok :
      (left : ℕ) (c : Client) (v : A)
      → rpc c.calls ≡ ok v
      → Tried left rpc call c (enter c call) (ok v)
  unfolding enter Pricing.record_all
  Tried-ok left c v e = record {
    n = 0;
    few = omega arith;
    kept = refl;
    made = omega arith;
    billed = refl;
    retried = λ i h. absurd (omega arith);
    ended = inl (v, subst (λ k. rpc k ≡ ok v) (omega arith) e, refl);
  }

  Tried-err :
      (left : ℕ) (c : Client) (x : String)
      → rpc c.calls ≡ err x
      → (0 ≡ left) ⊎ (is_transient x ≡ false)
      → Tried left rpc call c (enter c call) (err (transport x))
  unfolding enter Pricing.record_all
  Tried-err left c x e last = record {
    n = 0;
    few = omega arith;
    kept = refl;
    made = omega arith;
    billed = refl;
    retried = λ i h. absurd (omega arith);
    ended = inr (x, subst (λ k. rpc k ≡ err x) (omega arith) e, refl, last);
  }

  Tried-again :
      (left delay : ℕ) (c c' : Client) (x : String) (r : Result SourceError A)
      → rpc c.calls ≡ err x
      → is_transient x ≡ true
      → Tried left rpc call (sleep delay (enter c call)) c' r
      → Tried (suc left) rpc call c c' r
  unfolding enter sleep Pricing.record_all
  Tried-again left delay c c' x r e t h = record {
    n = suc h.n;
    few = omega (arith, h.few);
    kept = h.kept;
    made = omega (arith, h.made);
    billed = h.billed;
    retried = again;
    ended = last h.ended;
  }
    where
      again :
          (i : ℕ)
          → i < suc h.n
          → (y : String) × (rpc (c.calls + i) ≡ err y) × (is_transient y ≡ true)
      again zero k = (x, subst (λ k. rpc k ≡ err x) (omega arith) e, t)
      again (suc i) k =
          subst (λ k. (y : String) × (rpc k ≡ err y) × (is_transient y ≡ true)) (omega arith)
            (h.retried i (omega arith))

      shift : (a : Result String A) → rpc (suc c.calls + h.n) ≡ a → rpc (c.calls + suc h.n) ≡ a
      shift a p = subst (λ k. rpc k ≡ a) (omega arith) p

      last :
          ((v : A) × (rpc (suc c.calls + h.n) ≡ ok v) × (r ≡ ok v))
            ⊎ ((y : String) × (rpc (suc c.calls + h.n) ≡ err y)
                × (r ≡ err (transport y))
                × ((h.n ≡ left) ⊎ (is_transient y ≡ false)))
          → ((v : A) × (rpc (c.calls + suc h.n) ≡ ok v) × (r ≡ ok v))
            ⊎ ((y : String) × (rpc (c.calls + suc h.n) ≡ err y)
                × (r ≡ err (transport y))
                × ((suc h.n ≡ suc left) ⊎ (is_transient y ≡ false)))
      last (inl (v, p, q)) = inl (v, shift (ok v) p, q)
      last (inr (y, p, q, inl l)) = inr (y, shift (err y) p, q, inl (omega (arith, l)))
      last (inr (y, p, q, inr l)) = inr (y, shift (err y) p, q, inr l)

retry_loop-Tried :
    {A : Type 0} (left delay : ℕ) (rpc : Rpc A) (call : RpcCall) (c : Client)
    → Tried left rpc call c
        (retry_loop left delay rpc call c).1
        (retry_loop left delay rpc call c).0
unfolding retry_loop
retry_loop-Tried zero delay rpc call c = elim (Result-cases (rpc c.calls)) [
  | inl (v, e) ↦ rw (e, retry_loop) (Tried-ok rpc call zero c v e)
  | inr (x, e) ↦ rw (e, retry_loop) (Tried-err rpc call zero c x e (inl refl))
]
retry_loop-Tried (suc left) delay rpc call c = elim (Result-cases (rpc c.calls)) [
  | inl (v, e) ↦ rw (e, retry_loop) (Tried-ok rpc call (suc left) c v e)
  | inr (x, e) ↦ elim (Bool-cases (is_transient x)) [
    | inl t ↦
        rw (e, t, retry_loop)
          (Tried-again rpc call left delay c _ x _ e t (retry_loop-Tried left _ rpc call _))
    | inr f ↦ rw (e, f, retry_loop) (Tried-err rpc call (suc left) c x e (inr f))
  ]
]

-- The longest that the sleeps can take.
abbrev longest : ℕ → ℕ → ℕ
longest zero delay = 0
longest (suc left) delay = delay + longest left (min (delay * 2) 4000)

jitter_below-le : (m state : ℕ) → (jitter_below (m + 1) state).0 ≤ m
unfolding jitter_below
jitter_below-le m state = ground (arith, Nat.mod-lt (mixed state) {m = m + 1} (omega arith))

sleep-slept :
    (delay : ℕ) (c : Client)
    → (c.slept + delay / 2 ≤ (sleep delay c).slept) × ((sleep delay c).slept ≤ c.slept + delay)
unfolding sleep
sleep-slept delay c = omega (arith, jitter_below-le (delay / 2) c.jitter)

retry_loop-slept :
    {A : Type 0} (left delay : ℕ) (rpc : Rpc A) (call : RpcCall) (c : Client)
    → (retry_loop left delay rpc call c).1.slept ≤ c.slept + longest left delay
unfolding retry_loop enter
retry_loop-slept zero delay rpc call c = elim (Result-cases (rpc c.calls)) [
  | inl (v, e) ↦ rw (e, retry_loop) (omega arith)
  | inr (x, e) ↦ rw (e, retry_loop) (omega arith)
]
retry_loop-slept (suc left) delay rpc call c = elim (Result-cases (rpc c.calls)) [
  | inl (v, e) ↦ rw (e, retry_loop) (omega arith)
  | inr (x, e) ↦ elim (Bool-cases (is_transient x)) [
    | inl t ↦
        let ih =
          retry_loop-slept left (min (delay * 2) 4000) rpc call (sleep delay (enter c call)) in
        rw (e, t, retry_loop) (omega (arith, ih, sleep-slept delay (enter c call)))
    | inr f ↦ rw (e, f, retry_loop) (omega arith)
  ]
]

-- Whatever the provider answers, `with_retry` ends after at most six calls, each billed once; it
-- retries on transient errors only, returns what the last call gave, and sleeps for less than eight
-- seconds in all.
pub with_retry-Tried :
    {A : Type 0} (rpc : Rpc A) (call : RpcCall) (c : Client)
    → Tried 5 rpc call c (with_retry rpc call c).1 (with_retry rpc call c).0
      × ((with_retry rpc call c).1.slept < c.slept + 8000)
unfolding with_retry
with_retry-Tried rpc call c =
    (retry_loop-Tried 5 250 rpc call c, omega (arith, retry_loop-slept 5 250 rpc call c))
