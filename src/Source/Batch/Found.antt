-- ===== src/Source/Batch/Found.antt =====
-- The rows that the aux data has: of the transactions that were matched, and of the receipts.
use mathlib.Core.List.{append_assoc, append-nil}
use topic.Base.{
  ℕ, suc, ◌≡◌, refl, sym, ap, ◌∙◌, inl, inr, true, Option, none, some, List, [], ◌∷◌, ◌++◌, map,
  arith, Bool-cases, All, All-append, Any, Any-append_left, Any-append_right,
}
use topic.Base.Results.{ok, ok-injective, ok-err}
use topic.Model.{ChainId, Height, Hash, Bytes, EventRow, AuxData, BlockMeta, hash_eq, hash_eq_iff}
use topic.Store.Rows.{has}
use topic.Source.Enrichment.{
  Tx, Block, Receipt, meta_of, transaction_row, receipt_row, matched_rows, block_aux, receipt_rows,
}
use topic.Source.Batch.Paired.{firsts}

-- The blocks that were found, with the heights they were asked for.
abbrev pub Found : Type 0
Found = List (ℕ × Block)

abbrev pub as_answered : Found → List (ℕ × Option Block)
as_answered = map (λ (p : ℕ × Block). (p.0, some p.1))

abbrev pub metas : ChainId → Found → List BlockMeta
metas chain [] = []
metas chain ((h, b) ∷ bs) = meta_of chain b ∷ metas chain bs

unfoldable pub rows_of : ChainId → List Bytes → Found → List EventRow
unfolding matched_rows
rows_of chain ids [] = []
rows_of chain ids ((h, b) ∷ bs) = matched_rows chain ids b 0 b.txs ++ rows_of chain ids bs

pub block_aux-ok :
    (chain : ChainId) (pairs : List (ℕ × Option Block)) (ids : List Bytes) (aux aux' : AuxData)
    → block_aux chain pairs ids aux ≡ ok aux'
    → (bs : Found) × (pairs ≡ as_answered bs)
      × (aux'.block_metas ≡ aux.block_metas ++ metas chain bs)
      × (aux'.enrichment ≡ aux.enrichment ++ rows_of chain ids bs)
unfolding block_aux rows_of
block_aux-ok chain [] ids aux aux' e = (
  [],
  refl,
  ap (λ (a : AuxData). a.block_metas) (sym (ok-injective e)) ∙ sym (append-nil aux.block_metas),
  ap (λ (a : AuxData). a.enrichment) (sym (ok-injective e)) ∙ sym (append-nil aux.enrichment),
)
block_aux-ok chain ((h, none) ∷ pairs) ids aux aux' e = absurd (ok-err (sym e))
block_aux-ok chain ((h, some b) ∷ pairs) ids aux aux' e =
    let next : AuxData = record {
      block_metas = aux.block_metas ++ meta_of chain b ∷ [];
      enrichment = aux.enrichment ++ matched_rows chain ids b 0 b.txs;
    } in
    let (bs, p, q, r) = block_aux-ok chain pairs ids next aux' e in
    (
      (h, b) ∷ bs,
      ap (◌∷◌ (h, some b)) p,
      q ∙ append_assoc aux.block_metas (meta_of chain b ∷ []) (metas chain bs),
      r ∙ append_assoc aux.enrichment (matched_rows chain ids b 0 b.txs) (rows_of chain ids bs),
    )

-- The row of a transaction in `transactions`.
abbrev pub IsTxRow : ChainId → Hash → EventRow → Type 0
IsTxRow chain id t = (t.event.table ≡ "transactions") × (t.chain_id ≡ chain) × (t.tx_id ≡ id)

has-hash :
    (h id : Bytes) (ids : List Bytes) → h ≡ id → Any (λ g. g ≡ id) ids → has (hash_eq h) ids ≡ true
unfolding has
has-hash h id [] e k = absurd k
has-hash h id (g ∷ ids) e (inl k) = rw ((hash_eq_iff h g).1 (e ∙ sym k)) refl
has-hash h id (g ∷ ids) e (inr k) = ground (arith, has-hash h id ids e k)

matched_rows-Any :
    (chain : ChainId) (ids : List Bytes) (b : Block) (i : ℕ) (txs : List Tx) (id : Bytes)
    → Any (λ g. g ≡ id) ids
    → Any (λ tx. tx.hash ≡ id) txs
    → Any (IsTxRow chain id) (matched_rows chain ids b i txs)
unfolding matched_rows transaction_row
matched_rows-Any chain ids b i [] id k h = absurd h
matched_rows-Any chain ids b i (tx ∷ txs) id k (inl e) =
    rw (has-hash tx.hash id ids e k, matched_rows) (inl (refl, refl, e))
matched_rows-Any chain ids b i (tx ∷ txs) id k (inr h) =
    let rest = matched_rows-Any chain ids b (suc i) txs id k h in
    elim (Bool-cases (has (hash_eq tx.hash) ids)) [
      | inl e ↦ rw (e, matched_rows) (inr rest)
      | inr e ↦ rw (e, matched_rows) rest
    ]

matched_rows-All :
    (chain : ChainId) (ids : List Bytes) (b : Block) (i : ℕ) (txs : List Tx)
    → All (λ t. IsTxRow chain t.tx_id t) (matched_rows chain ids b i txs)
unfolding matched_rows transaction_row
matched_rows-All chain ids b i [] = tt
matched_rows-All chain ids b i (tx ∷ txs) =
    let rest = matched_rows-All chain ids b (suc i) txs in
    elim (Bool-cases (has (hash_eq tx.hash) ids)) [
      | inl e ↦ rw (e, matched_rows) ((refl, refl, refl), rest)
      | inr e ↦ rw (e, matched_rows) rest
    ]

pub rows_of-All :
    (chain : ChainId) (ids : List Bytes) (bs : Found)
    → All (λ t. IsTxRow chain t.tx_id t) (rows_of chain ids bs)
unfolding rows_of
rows_of-All chain ids [] = tt
rows_of-All chain ids ((h, b) ∷ bs) =
    All-append (λ t. IsTxRow chain t.tx_id t) (matched_rows chain ids b 0 b.txs)
      (rows_of chain ids bs) (matched_rows-All chain ids b 0 b.txs) (rows_of-All chain ids bs)

-- The block at a height has the transaction.
abbrev pub Contains : Height → Bytes → ℕ × Block → Type 0
Contains h id (k, b) = Any (λ tx. tx.hash ≡ id) b.txs

pub rows_of-Any :
    (chain : ChainId) (ids : List Bytes) (bs : Found) (h : Height) (id : Bytes)
    → Any (λ g. g ≡ id) ids
    → Any (Contains h id) bs
    → Any (IsTxRow chain id) (rows_of chain ids bs)
unfolding rows_of
rows_of-Any chain ids [] h id k c = absurd c
rows_of-Any chain ids ((j, b) ∷ bs) h id k (inl c) =
    Any-append_left (IsTxRow chain id) (matched_rows chain ids b 0 b.txs) (rows_of chain ids bs)
      (matched_rows-Any chain ids b 0 b.txs id k c)
rows_of-Any chain ids ((j, b) ∷ bs) h id k (inr c) =
    Any-append_right (IsTxRow chain id) (matched_rows chain ids b 0 b.txs) (rows_of chain ids bs)
      (rows_of-Any chain ids bs h id k c)

pub receipt_rows-All :
    (chain : ChainId) (pairs : List (Bytes × Option Receipt)) (loc : Bytes → Option (Height × Hash))
    (P : Bytes → Type 0)
    → All P (firsts pairs)
    → All (λ t. (t.chain_id ≡ chain) × P t.tx_id) (receipt_rows chain pairs loc)
unfolding receipt_rows receipt_row
receipt_rows-All chain [] loc P h = tt
receipt_rows-All chain ((id, none) ∷ pairs) loc P h = receipt_rows-All chain pairs loc P h.1
receipt_rows-All chain ((id, some r) ∷ pairs) loc P h =
    ((refl, h.0), receipt_rows-All chain pairs loc P h.1)
