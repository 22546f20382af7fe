-- ===== src/Source/Batch/Enriched.antt =====
-- What `fetch_aux` returns: the block of every record, and the transaction of every row.
use Prim.Native.Nat.{compare}
use native.Mathlib.Omega.{compare-eq}
use topic.Base.{
  ℕ, ◌≢◌, arith, ◌<◌, ◌≡◌, refl, sym, ap, ◌∙◌, subst, true, Option, some, List, [], ◌∷◌, ◌++◌, map,
  All, All-append, All-map, All-both, Any, Any-append_left, All-Any,
}
use mathlib.Core.List.{Permᴰ}
use mathlib.Core.List.Permᴰ
use topic.Base.Shuffles.{All-Permᴰ, Any-Permᴰ, Pairs-Permᴰ}
use topic.Base.Pairs.{Pairs, Pairs-map}
use topic.Base.Images.{Any-image, Any-preimage, All-image, Pairs-image, All-swap, All-own}
use topic.Base.Results.{Result, ok, ◌>>=◌, >>=-eq-ok, ok-injective}
use topic.Model.{
  ChainId, Height, Hash, Bytes, RawRecord, block_by_number, receipt, AuxData, BlockMeta, no_aux,
}
use topic.Store.Groups.{lex}
use topic.Store.Groups.Keys.{group-All, group-HasKey, group-IsAscending, lex-eq}
use topic.Source.{SourceError, Client}
use topic.Source.Enrichment.{Block, Receipt, block_aux, receipt_rows, receipt_aux}
use topic.Source.Batch.{Answers, AuxRpc, heights_of, txs_of, tx_loc, batched, fetch_aux}
use topic.Source.Batch.Paired.{Served, firsts, IsOrder, batched-ok}
use topic.Source.Batch.Found.{
  Found, as_answered, metas, rows_of, Contains, block_aux-ok, rows_of-All, rows_of-Any,
  receipt_rows-All, IsTxRow,
}

-- The block has its height, and the transactions of the records at it.
abbrev pub IsAt : List RawRecord → ℕ × Block → Type 0
IsAt records (h, b) =
    (b.number ≡ h) × All (λ r. r.height ≡ h → Any (λ tx. tx.hash ≡ r.tx_id) b.txs) records

-- A block that the provider serves is the one that was asked for.
abbrev pub IsHonest : AuxRpc → List RawRecord → Type 0
IsHonest rpc records =
    (chunk : List ℕ) (n : ℕ) (answers : Answers ℕ (Option Block)) (h : ℕ) (b : Block)
    → rpc.blocks chunk n ≡ ok answers
    → answers h ≡ ok (some b)
    → IsAt records (h, b)

found-IsAt :
    (rpc : AuxRpc) (records : List RawRecord) (bs : Found)
    → IsHonest rpc records
    → All (Served rpc.blocks) (as_answered bs)
    → All (IsAt records) bs
found-IsAt rpc records [] honest h = tt
found-IsAt rpc records ((k, b) ∷ bs) honest h =
    let (chunk, n, answers, p, q) = h.0 in
    (honest chunk n answers k b p q, found-IsAt rpc records bs honest h.1)

abbrev pub heights : List BlockMeta → List ℕ
heights = map (λ (m : BlockMeta). m.height)

heights-metas :
    (chain : ChainId) (records : List RawRecord) (bs : Found)
    → All (IsAt records) bs
    → heights (metas chain bs) ≡ firsts (as_answered bs)
heights-metas chain records [] h = refl
heights-metas chain records ((k, b) ∷ bs) h =
    ap (λ n. n ∷ heights (metas chain bs)) h.0.0 ∙ ap (◌∷◌ k) (heights-metas chain records bs h.1)

firsts-found : (bs : Found) → firsts (as_answered bs) ≡ map (λ (p : ℕ × Block). p.0) bs
firsts-found [] = refl
firsts-found ((h, b) ∷ bs) = ap (◌∷◌ h) (firsts-found bs)

-- The block that the record is in was found, with its transaction.
found-Contains :
    (r : RawRecord) (bs : Found)
    → All (λ (p : ℕ × Block). r.height ≡ p.0 → Any (λ tx. tx.hash ≡ r.tx_id) p.1.txs) bs
    → Any {A = ℕ × Block} (λ p. p.0 ≡ r.height) bs
    → Any (Contains r.height r.tx_id) bs
found-Contains r bs h k =
    All-Any {Q = λ p. p.0 ≡ r.height} {R = Contains r.height r.tx_id} bs (λ p f e. f (sym e)) h k

-- The enrichment of the records: the block of each, once, and its transaction; and no row without the
-- row of its transaction.
abbrev pub IsEnriched : ChainId → List RawRecord → AuxData → Type 0
IsEnriched chain records aux =
    All (λ r. Any (λ h. h ≡ r.height) (heights aux.block_metas)) records
    × Pairs (λ g h. g ≢ h) (heights aux.block_metas)
    × All (λ r. Any (IsTxRow chain r.tx_id) aux.enrichment) records
    × All (λ row. Any (IsTxRow row.chain_id row.tx_id) aux.enrichment) aux.enrichment

abbrev keys : {K : Type 0} → List (K × List RawRecord) → List K
keys {K} = map (λ (g : K × List RawRecord). g.0)

heights_of-HasKey :
    (records : List RawRecord)
    → All (λ r. Any (λ h. h ≡ r.height) (keys (heights_of records))) records
unfolding heights_of
heights_of-HasKey records =
    All-map records
      (λ r h.
        Any-image (λ (g : ℕ × List RawRecord). g.0) (λ h. h ≡ r.height) (heights_of records) h)
      (group-HasKey compare compare-eq (λ r. r.height) records [])

txs_of-HasKey :
    (records : List RawRecord) → All (λ r. Any (λ g. g ≡ r.tx_id) (keys (txs_of records))) records
unfolding txs_of
txs_of-HasKey records =
    All-map records
      (λ r h. Any-image (λ (g : Bytes × List RawRecord). g.0) (λ g. g ≡ r.tx_id) (txs_of records) h)
      (group-HasKey (lex compare) lex-eq (λ r. r.tx_id) records [])

heights_of-IsAscending :
    (records : List RawRecord) → Pairs (λ g h. g < h) (keys (heights_of records))
unfolding heights_of
heights_of-IsAscending records =
    Pairs-image (λ (g : ℕ × List RawRecord). g.0) (λ g h. g < h) (heights_of records)
      (group-IsAscending (λ r. r.height) records [] tt)

-- Each key of `txs_of` is the transaction of a record.
txs_of-All :
    (records : List RawRecord) (P : Bytes → Type 0)
    → All (λ r. P r.tx_id) records
    → All P (keys (txs_of records))
unfolding txs_of
txs_of-All records P h =
    All-image (λ (g : Bytes × List RawRecord). g.0) P (txs_of records)
      (group-All (lex compare) P (λ r. r.tx_id) records [] h tt)

rows_of-records :
    (chain : ChainId) (records : List RawRecord) (bs : Found)
    → All (IsAt records) bs
    → Permᴰ (firsts (as_answered bs)) (keys (heights_of records))
    → All (λ r. Any (IsTxRow chain r.tx_id) (rows_of chain (keys (txs_of records)) bs)) records
rows_of-records chain records bs at e =
    let ids = keys (txs_of records) in
    let there : All (λ r. Any {A = ℕ × Block} (λ p. p.0 ≡ r.height) bs) records =
      All-map records
        (λ r h.
          Any-preimage (λ (p : ℕ × Block). p.0) (λ g. g ≡ r.height) bs
            (subst (Any (λ g. g ≡ r.height)) (firsts-found bs)
              (Any-Permᴰ (λ g. g ≡ r.height) (Permᴰ.symm e) h)))
        (heights_of-HasKey records) in
    let swapped : All
        (λ r. All (λ (p : ℕ × Block). r.height ≡ p.0 → Any (λ tx. tx.hash ≡ r.tx_id) p.1.txs) bs)
        records =
      All-swap (λ (p : ℕ × Block) r. r.height ≡ p.0 → Any (λ tx. tx.hash ≡ r.tx_id) p.1.txs) bs
        records (All-map bs (λ p k. k.1) at) in
    All-both records (λ r k t. rows_of-Any chain ids bs r.height r.tx_id k t)
      (txs_of-HasKey records) (All-both records (λ r k t. found-Contains r bs k t) swapped there)

enriched :
    (chain : ChainId) (records : List RawRecord) (bs : Found) (rs : List (Bytes × Option Receipt))
    (loc : Bytes → Option (Height × Hash)) (aux : AuxData)
    → All (IsAt records) bs
    → Permᴰ (firsts (as_answered bs)) (keys (heights_of records))
    → Permᴰ (firsts rs) (keys (txs_of records))
    → aux.block_metas ≡ metas chain bs
    → aux.enrichment ≡ rows_of chain (keys (txs_of records)) bs
    → IsEnriched chain records (receipt_aux chain rs loc aux)
enriched chain records bs rs loc aux at e f m n =
    let ids = keys (txs_of records) in
    let rows = rows_of chain ids bs in
    let found = receipt_rows chain rs loc in
    let all = aux.enrichment ++ found in
    let hs : Permᴰ (keys (heights_of records)) (heights aux.block_metas) =
      subst (Permᴰ (keys (heights_of records)))
        (sym (ap heights m ∙ heights-metas chain records bs at)) (Permᴰ.symm e) in
    let distinct : Pairs (λ g h. g ≢ h) (keys (heights_of records)) =
      Pairs-map (λ g h l k. absurd (omega arith)) (keys (heights_of records))
        (heights_of-IsAscending records) in
    let txs : All (λ r. Any (IsTxRow chain r.tx_id) all) records =
      All-map records
        (λ r h.
          Any-append_left (IsTxRow chain r.tx_id) aux.enrichment found
            (subst (Any (IsTxRow chain r.tx_id)) (sym n) h))
        (rows_of-records chain records bs at e) in
    let of_receipts : All (λ t. (t.chain_id ≡ chain) × Any (IsTxRow chain t.tx_id) all) found =
      receipt_rows-All chain rs loc (λ id. Any (IsTxRow chain id) all)
        (All-Permᴰ (λ id. Any (IsTxRow chain id) all) (Permᴰ.symm f)
          (txs_of-All records (λ id. Any (IsTxRow chain id) all) txs)) in
    let of_txs : All (λ t. Any (IsTxRow t.chain_id t.tx_id) aux.enrichment) aux.enrichment =
      All-own (λ row t. IsTxRow row.chain_id row.tx_id t) aux.enrichment
        (subst (All (λ t. IsTxRow t.chain_id t.tx_id t)) (sym n)
          (All-map rows (λ t h. (h.0, refl, refl)) (rows_of-All chain ids bs))) in
    (
      All-map records (λ r h. Any-Permᴰ (λ g. g ≡ r.height) hs h) (heights_of-HasKey records),
      Pairs-Permᴰ (λ g h. g ≢ h) (λ g h k e. k (sym e)) hs distinct,
      txs,
      All-append (λ row. Any (IsTxRow row.chain_id row.tx_id) all) aux.enrichment found
          (All-map aux.enrichment
            (λ t h. Any-append_left (IsTxRow t.chain_id t.tx_id) aux.enrichment found h) of_txs)
          (All-map found (λ t h. subst (λ c. Any (IsTxRow c t.tx_id) all) (sym h.0) h.1)
            of_receipts),
    )

-- The auxiliary data of a batch of records, where it is fetched: with a provider whose block at a height
-- has that height and the transactions of the records there, and in whatever order the batches complete,
-- the metas have the height of every record, and none twice, every record's transaction has a row in `transactions`, and so has
-- the transaction of every row: no receipt comes without its transaction.
pub fetch_aux-IsEnriched :
    (rpc : AuxRpc) (records : List RawRecord) (c : Client) (aux : AuxData)
    → IsHonest rpc records
    → IsOrder rpc.blocks_order
    → IsOrder rpc.receipts_order
    → (fetch_aux rpc records c).0 ≡ ok aux
    → IsEnriched c.chain_id records aux
unfolding fetch_aux
fetch_aux-IsEnriched rpc records c aux honest blocks_order receipts_order e =
    let ids = keys (txs_of records) in
    let asked =
      batched rpc.blocks rpc.blocks_order (λ n. block_by_number n true) (keys (heights_of records))
        c in
    let got = batched rpc.receipts rpc.receipts_order receipt ids asked.1 in
    let finish : List (Bytes × Option Receipt) → AuxData → Result SourceError AuxData =
      λ rs aux. ok (receipt_aux c.chain_id rs (tx_loc records) aux) in
    let last : List (ℕ × Option Block)
        → List (Bytes × Option Receipt)
        → Result SourceError AuxData =
      λ bs rs. block_aux c.chain_id bs ids no_aux >>= finish rs in
    let (pairs, p, q) = >>=-eq-ok asked.0 (λ bs. got.0 >>= last bs) e in
    let (rs, p', q') = >>=-eq-ok got.0 (last pairs) q in
    let (mid, p'', q'') = >>=-eq-ok (block_aux c.chain_id pairs ids no_aux) (finish rs) q' in
    let (bs, same, m, n) = block_aux-ok c.chain_id pairs ids no_aux mid p'' in
    let (hs, served) =
      batched-ok rpc.blocks rpc.blocks_order (λ n. block_by_number n true)
        (keys (heights_of records)) c pairs blocks_order p in
    let (is, _) =
      batched-ok rpc.receipts rpc.receipts_order receipt ids asked.1 rs receipts_order p' in
    subst (IsEnriched c.chain_id records) (ok-injective q'') (
      enriched c.chain_id records bs rs (tx_loc records) mid
        (found-IsAt rpc records bs honest (subst (All (Served rpc.blocks)) same served))
        (subst (λ l. Permᴰ (firsts l) (keys (heights_of records))) same hs) is m n)
