-- ===== src/Source/Batch/Paired.antt =====
-- What `batched` returns: every item once with its result, each from a batch that the provider
-- answered.
use topic.Base.Shuffles.{concat-Permᴰ}
use mathlib.Core.List.{Permᴰ, map-append}
use topic.Base.{
  ℕ, ◌+◌, ◌≡◌, refl, sym, ap, ◌∙◌, subst, inl, inr, List, [], ◌∷◌, ◌++◌, map, String, arith, All,
  All-append, All-map, length,
}
use topic.Base.Results.{Result, ok, ◌>>=◌, >>=-eq-ok, ok-injective, ok-err, Result-cases}
use topic.Base.Chunks.{chunks, concat, concat-chunks}
use topic.Model.{RpcCall}
use topic.Source.{SourceError, Client, Rpc}
use topic.Source.Retry.{with_retry-Tried}
use topic.Source.Batch.{Answers, waited, batch_chunk, batched_loop, batched, max_batch}

abbrev pub firsts : {I R : Type 0} → List (I × R) → List I
firsts {I} {R} = map (λ (p : I × R). p.0)

-- The provider answered a batch, and this item in it so.
abbrev pub Served : {I R : Type 0} → (List I → Rpc (Answers I R)) → I × R → Type 0
Served {I} {R} rpc (it, r) =
    (chunk : List I) × (n : ℕ) × (answers : Answers I R) × (rpc chunk n ≡ ok answers)
    × (answers it ≡ ok r)

waited-ok :
    {I R : Type 0} (answers : Answers I R) (chunk : List I) (pairs : List (I × R))
    → waited answers chunk ≡ ok pairs
    → (firsts pairs ≡ chunk) × All {A = I × R} (λ p. answers p.0 ≡ ok p.1) pairs
unfolding waited
waited-ok {I} {R} answers [] pairs e =
    subst (λ (ps : List (I × R)). (firsts ps ≡ []) × All {A = I × R} (λ p. answers p.0 ≡ ok p.1) ps)
      (ok-injective e) (refl, tt)
waited-ok {I} {R} answers (it ∷ chunk) pairs e =
    let next : R → Result String (List (I × R)) =
      λ r. waited answers chunk >>= λ rest. ok ((it, r) ∷ rest) in
    let (r, p, q) = >>=-eq-ok (answers it) next e in
    let last : List (I × R) → Result String (List (I × R)) = λ rest. ok ((it, r) ∷ rest) in
    let (rest, p', q') = >>=-eq-ok (waited answers chunk) last q in
    let (f, a) = waited-ok answers chunk rest p' in
    subst
      (λ (ps : List (I × R)).
        (firsts ps ≡ it ∷ chunk) × All {A = I × R} (λ p. answers p.0 ≡ ok p.1) ps)
      (ok-injective q') (ap (◌∷◌ it) f, (p, a))

batch_chunk-ok :
    {I R : Type 0} (rpc : List I → Rpc (Answers I R)) (call : ℕ → RpcCall) (chunk : List I)
    (c : Client) (pairs : List (I × R))
    → (batch_chunk rpc call chunk c).0 ≡ ok pairs
    → (firsts pairs ≡ chunk) × All (Served rpc) pairs
unfolding batch_chunk
batch_chunk-ok {I} {R} rpc call chunk c pairs e =
    let op : Rpc (List (I × R)) = λ n. rpc chunk n >>= λ answers. waited answers chunk in
    let (tried, _) = with_retry-Tried op (call (length chunk)) c in
    elim tried.ended [
      | inr (x, p, q, _) ↦ absurd (ok-err (sym e ∙ q))
      | inl (v, p, q) ↦
          let n = c.calls + tried.n in
          let same = ok-injective (sym q ∙ e) in
          let wait : Answers I R → Result String (List (I × R)) = λ answers. waited answers chunk in
          let (answers, s, w) = >>=-eq-ok (rpc chunk n) wait p in
          let (f, a) = waited-ok answers chunk v w in
          subst (λ ps. (firsts ps ≡ chunk) × All (Served rpc) ps) same
            (f, All-map v (λ it k. (chunk, n, answers, s, k)) a)
    ]

batched_loop-ok :
    {I R : Type 0} (rpc : List I → Rpc (Answers I R)) (call : ℕ → RpcCall) (parts : List (List I))
    (c : Client) (pairs : List (I × R))
    → (batched_loop rpc call parts c).0 ≡ ok pairs
    → (firsts pairs ≡ concat parts) × All (Served rpc) pairs
unfolding batched_loop
batched_loop-ok {I} {R} rpc call [] c pairs =
    λ e. subst (λ ps. (firsts ps ≡ []) × All (Served rpc) ps) (ok-injective e) (refl, tt)
batched_loop-ok {I} {R} rpc call (chunk ∷ more) c pairs =
    elim (Result-cases (batch_chunk rpc call chunk c).0) [
      | inr (x, k) ↦ rw (k, batched_loop) (λ e. absurd (ok-err (sym e)))
      | inl (ps, k) ↦
          let c' = (batch_chunk rpc call chunk c).1 in
          let (f, a) = batch_chunk-ok rpc call chunk c ps k in
          let join : List (I × R) → Result SourceError (List (I × R)) = λ qs. ok (ps ++ qs) in
          rw (k, batched_loop)
            (λ e.
              let (qs, p, q) = >>=-eq-ok (batched_loop rpc call more c').0 join e in
              let (f', a') = batched_loop-ok rpc call more c' qs p in
              subst (λ ps. (firsts ps ≡ chunk ++ concat more) × All (Served rpc) ps)
                (ok-injective q)
                (
                  map-append (λ (p : I × R). p.0) ps qs
                      ∙ ap (◌++◌ (firsts ps)) f'
                      ∙ ap (λ l. l ++ concat more) f,
                  All-append (Served rpc) ps qs a a',
                ))
    ]

-- Each batch completes once.
abbrev pub IsOrder : {I : Type 0} → (List (List I) → List (List I)) → Type 0
IsOrder {I} completed = (parts : List (List I)) → Permᴰ (completed parts) parts

pub batched-ok :
    {I R : Type 0} (rpc : List I → Rpc (Answers I R)) (completed : List (List I) → List (List I))
    (call : ℕ → RpcCall) (items : List I) (c : Client) (pairs : List (I × R))
    → IsOrder completed
    → (batched rpc completed call items c).0 ≡ ok pairs
    → Permᴰ (firsts pairs) items × All (Served rpc) pairs
unfolding batched max_batch
batched-ok rpc completed call items c pairs order e =
    let parts = chunks (max_batch c.plan) items in
    let (f, a) = batched_loop-ok rpc call (completed parts) c pairs e in
    (
      subst (λ l. Permᴰ l items) (sym f)
          (subst (Permᴰ (concat (completed parts)))
            (concat-chunks (max_batch c.plan) items (omega arith)) (concat-Permᴰ (order parts))),
      a,
    )
