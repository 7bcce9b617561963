-- ===== src/Repository/Backing/Frame.antt =====
-- Writing back a batch, seen from the queries on batches.
use poly_zq_trading.Prelude.{
  ℕ, ◌≡◌, ap, subst, ◌∙◌, List, [], ◌∷◌, Option, some, ◌==◌, ==_iff, if◌then◌else◌, arith,
  Bool-cases, inl, inr,
}
use poly_zq_trading.Ledger.Types.{Execution, Obligation, Batch, RawRatios, SizingMethod}
use poly_zq_trading.Ledger.Queries.{find_batch, write}
use poly_zq_trading.Repository.Backing.{IsBackedBy}

pub find_batch-id :
    (k : ℕ) (b : Batch) (bs : List Batch) → find_batch k bs ≡ some b → b.batch_id ≡ k
find_batch-id k b [] h = absurd (ground arith)
find_batch-id k b (c ∷ cs) h = elim (Bool-cases (c.batch_id == k)) [
  | inl e ↦ ground (arith, e)
  | inr e ↦ find_batch-id k b cs (ground (arith, e))
]

pub find_batch-write :
    (id k : ℕ) (b b' : Batch) (bs : List Batch)
    → find_batch k bs ≡ some b
    → b'.batch_id ≡ k
    → find_batch id (write (λ c. c.batch_id == k) b' bs)
      ≡ (if k == id then some b' else find_batch id bs)
unfolding write
find_batch-write id k b b' [] h same = absurd (ground arith)
find_batch-write id k b b' (c ∷ cs) h same = elim (Bool-cases (c.batch_id == k)) [
  | inl e ↦ rw e (ground (arith, e))
  | inr e ↦ rw e (ground (arith, e, find_batch-write id k b b' cs (ground (arith, e)) same))
]

-- The id, the quantities and the sizing of a row.
abbrev pub core : Batch → ℕ × ℕ × ℕ × Option RawRatios × Option SizingMethod
core b = (b.batch_id, b.zq_quantity, b.filled_quantity, b.hedge_ratios, b.hedge_sizing_method)

abbrev pub HasSameCore : Batch → Batch → Type 0
HasSameCore b b' = core b' ≡ core b

module _ (id : ℕ) (es : List Execution) (obs : List Obligation) where
  core-IsBackedBy :
      (b b' : Batch)
      → HasSameCore b b'
      → IsBackedBy (some b) id es obs
      → IsBackedBy (some b') id es obs
  core-IsBackedBy b b' same (filled, within, sized) = rw (ap (λ c. c.1) same) (
      rw (ap (λ c. c.2) same)
        (rw (ap (λ c. c.3) same) (rw (ap (λ c. c.4) same) (filled, within, sized))))

  pub write-IsBackedBy :
      (k : ℕ) (b b' : Batch) (bs : List Batch)
      → find_batch k bs ≡ some b
      → HasSameCore b b'
      → IsBackedBy (find_batch id bs) id es obs
      → IsBackedBy (find_batch id (write (λ c. c.batch_id == k) b' bs)) id es obs
  write-IsBackedBy k b b' bs found same backed =
      let known = find_batch-id k b bs found in
      rw (find_batch-write id k b b' bs found ((ap (λ c. c.0) same) ∙ known))
        (elim (Bool-cases (k == id)) [
          | inl e ↦ rw e (
              core-IsBackedBy b b' same (
                subst (λ o. IsBackedBy o id es obs)
                  (subst (λ i. find_batch i bs ≡ some b) ((==_iff k id).0 e) found) backed))
          | inr e ↦ rw e backed
        ])
