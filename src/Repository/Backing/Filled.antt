-- ===== src/Repository/Backing/Filled.antt =====
-- `record_ibkr_execution_and_obligations` keeps every batch backed.
use poly_zq_trading.Prelude.{
  ℕ, ◌+◌, ◌*◌, ◌≤◌, ◌≡◌, refl, ap, subst, ◌∙◌, List, [], ◌∷◌, ◌++◌, map, Option, none, some, true,
  ◌⊎◌, ◌&&◌, ◌==◌, ==_iff, if◌then◌else◌, arith, Bool-cases, inl, inr, sum_of, sum_of-append,
}
use poly_zq_trading.Prelude.Int.{ℤ}
use poly_zq_trading.Analytics.Units.{one_share}
use poly_zq_trading.Analytics.Sizing.Laws.{incremental_hedge_shares_lem}
use poly_zq_trading.Ledger.Types.{Execution, Obligation, Batch, Tables, Error, Result, ok, err}
use poly_zq_trading.Ledger.Queries.{find_batch, write}
use poly_zq_trading.Repository.Sizing.{saved_hedge_ratios}
use poly_zq_trading.Repository.Entry.{is_ibkr}
use poly_zq_trading.Repository.Fills.{
  ZqFill, fitting, leg_due, shares_due, zq_execution, fill_batch, append_obligations, zq_obligation,
}
use poly_zq_trading.Repository.Backing.{
  zq_filled, due_total, saved_ratio_of, IsSized, IsBackedBy, IsBacked,
}
use poly_zq_trading.Repository.Backing.Frame.{find_batch-write}
use poly_zq_trading.Repository.Backing.Legs.{AreApart, amount_on, amounts_due}
use poly_zq_trading.Repository.Backing.Rows.{append_obligations-ok, rows-AreApart, due_total-rows}

pub fitting_bounds :
    (n : ℤ) (b : Batch) (quantity : ℕ)
    → fitting n b ≡ some quantity
    → b.filled_quantity + quantity ≤ b.zq_quantity * one_share
unfolding fitting
fitting_bounds n b quantity h = ground arith

sizing_cases :
    (r : Result (Option (List (ℕ × ℕ))))
    → ((ratios : List (ℕ × ℕ)) × (r ≡ ok (some ratios)))
      ⊎ ((r ≡ ok none) ⊎ ((x : Error) × (r ≡ err x)))
sizing_cases (ok (some ratios)) = inl (ratios, refl)
sizing_cases (ok none) = inr (inl refl)
sizing_cases (err x) = inr (inr (x, refl))

-- Equal sums back a batch alike.
same_sums-IsSized :
    (r : Result (Option (List (ℕ × ℕ)))) (filled id : ℕ) (obs obs' : List Obligation)
    → ((token : ℕ) → due_total id token obs' ≡ due_total id token obs)
    → IsSized r filled id obs
    → IsSized r filled id obs'
same_sums-IsSized (ok (some ratios)) filled id obs obs' same h = λ token. same token ∙ h token
same_sums-IsSized (ok none) filled id obs obs' same h = tt
same_sums-IsSized (err x) filled id obs obs' same h = tt

pub same_sums-IsBackedBy :
    (o : Option Batch) (id : ℕ) (es es' : List Execution) (obs obs' : List Obligation)
    → zq_filled id es' ≡ zq_filled id es
    → ((token : ℕ) → due_total id token obs' ≡ due_total id token obs)
    → IsBackedBy o id es obs
    → IsBackedBy o id es' obs'
same_sums-IsBackedBy none id es es' obs obs' filled due (none_filled, none_due) =
    (filled ∙ none_filled, λ token. due token ∙ none_due token)
same_sums-IsBackedBy (some b) id es es' obs obs' filled due (sum, within, sized) =
    (filled ∙ sum, within, same_sums-IsSized _ b.filled_quantity id obs obs' due sized)

module _ (key : ℕ → ℕ → ℕ → ℕ) (f : ZqFill) (quantity : ℕ) (b : Batch) (id : ℕ) where
  zq_filled-new :
      (es : List Execution)
      → zq_filled id (es ++ (zq_execution f quantity b ∷ []))
        ≡ zq_filled id es + (if b.batch_id == id then quantity else 0)
  unfolding zq_execution
  zq_filled-new es = ground (
    arith,
    sum_of-append
        (λ (e : Execution). if is_ibkr e.venue && (e.batch_id == id) then e.quantity else 0) es
        (zq_execution f quantity b ∷ []),
  )

  due_total-new :
      (token : ℕ) (shares : List (ℕ × ℕ)) (obs : List Obligation)
      → due_total id token (obs ++ map (zq_obligation key b.batch_id f.execution_id) shares)
        ≡ due_total id token obs + (if b.batch_id == id then sum_of (amount_on token) shares else 0)
  due_total-new token shares obs =
      rw (← due_total-rows key b.batch_id f.execution_id id token shares)
        (sum_of-append _ obs (map (zq_obligation key b.batch_id f.execution_id) shares))

  -- The ratios of the batch size the legs.
  IsSized-step :
      (shares : List (ℕ × ℕ)) (obs : List Obligation)
      → (b.batch_id == id) ≡ true
      → AreApart shares
      → shares_due b quantity f.token_shares ≡ ok shares
      → IsSized (saved_hedge_ratios b.hedge_ratios b.hedge_sizing_method) b.filled_quantity id obs
      → IsSized
          (saved_hedge_ratios b.hedge_ratios b.hedge_sizing_method)
          (b.filled_quantity + quantity)
          id
          (obs ++ map (zq_obligation key b.batch_id f.execution_id) shares)
  unfolding shares_due
  IsSized-step shares obs own apart due sized =
      elim (sizing_cases (saved_hedge_ratios b.hedge_ratios b.hedge_sizing_method)) [
        | inr (inr (x, bad)) ↦ rw bad tt
        | inr (inl legacy) ↦ rw legacy tt
        | inl (ratios, saved) ↦
            let legs : shares ≡ map (leg_due b.filled_quantity quantity) ratios =
              ground (arith, saved) in
            let before = subst (λ r. IsSized r b.filled_quantity id obs) saved sized in
            rw saved (λ token.
              let added =
                amounts_due b.filled_quantity quantity token ratios (subst AreApart legs apart) in
              rw (due_total-new token shares obs) (
                rw own (
                  rw (ap (λ ls. sum_of (amount_on token) ls) legs) (
                    omega (
                      arith,
                      added,
                      before token,
                      incremental_hedge_shares_lem (saved_ratio_of token ratios) b.filled_quantity
                          quantity,
                    )))))
      ]

  -- The tables after the fill.
  pub add_fill-IsBackedBy :
      (t : Tables) (shares : List (ℕ × ℕ)) (obligations : List Obligation)
      → find_batch b.batch_id t.batches ≡ some b
      → b.filled_quantity + quantity ≤ b.zq_quantity * one_share
      → shares_due b quantity f.token_shares ≡ ok shares
      → append_obligations (map (zq_obligation key b.batch_id f.execution_id) shares) t.obligations
        ≡ ok obligations
      → IsBacked id t
      → IsBackedBy
          (find_batch id (
            write (λ c. c.batch_id == b.batch_id) (fill_batch f.execution_id quantity b) t.batches))
          id
          (t.executions ++ (zq_execution f quantity b ∷ []))
          obligations
  unfolding fill_batch
  add_fill-IsBackedBy t shares obligations found within due added backed =
      let rows = map (zq_obligation key b.batch_id f.execution_id) shares in
      let (appended, _, fresh) = append_obligations-ok rows t.obligations obligations added in
      let b' = fill_batch f.execution_id quantity b in
      rw appended (
        rw (find_batch-write id b.batch_id b b' t.batches found refl)
          (elim (Bool-cases (b.batch_id == id)) [
            | inl own ↦
                let here =
                  subst (λ i. find_batch i t.batches ≡ some b) ((==_iff b.batch_id id).0 own)
                    found in
                let (sum, _, sized) =
                  subst (λ o. IsBackedBy o id t.executions t.obligations) here backed in
                rw own (
                  rw (zq_filled-new t.executions) (rw own (omega (arith, sum))),
                  within,
                  IsSized-step shares t.obligations own
                      (rows-AreApart key b.batch_id f.execution_id shares fresh) due sized,
                )
            | inr other ↦ rw other (
                same_sums-IsBackedBy (find_batch id t.batches) id t.executions _ t.obligations _
                  (rw (zq_filled-new t.executions) (rw other (omega arith)))
                  (λ token. rw (due_total-new token shares t.obligations) (rw other (omega arith)))
                  backed)
          ]))
