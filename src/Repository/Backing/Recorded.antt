-- ===== src/Repository/Backing/Recorded.antt =====
-- The whole of `record_ibkr_execution_and_obligations`, and its second call.
use poly_zq_trading.Prelude.{ℕ, ◌≡◌, ◌⊎◌, refl, sym, subst, List, map, some, Option-cases, inl, inr}
use poly_zq_trading.Ledger.Types.{Obligation, Batch, Tables, Error, Result, ok, err}
use poly_zq_trading.Ledger.Queries.{find_batch}
use poly_zq_trading.Repository.Fills.{
  ZqFill, fitting, shares_due, append_obligations, zq_obligation, add_fill, fill_found,
  find_zq_execution, find_zq_order, record_ibkr_execution_and_obligations,
}
use poly_zq_trading.Repository.Backing.{IsBacked, IsBackedAfter}
use poly_zq_trading.Repository.Backing.Filled.{fitting_bounds, add_fill-IsBackedBy}
use poly_zq_trading.Repository.Backing.Frame.{find_batch-id}

pub Result-cases {ℓ} :
    {A : Type ℓ} (r : Result A) → ((x : Error) × (r ≡ err x)) ⊎ ((a : A) × (r ≡ ok a))
Result-cases (err x) = inl (x, refl)
Result-cases (ok a) = inr (a, refl)

abbrev pub recorded : Tables × List Obligation → Tables
recorded p = p.0

module _ (key : ℕ → ℕ → ℕ → ℕ) (f : ZqFill) (id : ℕ) where
  fill_found-IsBackedAfter :
      (b : Batch) (t : Tables)
      → find_batch b.batch_id t.batches ≡ some b
      → IsBacked id t
      → IsBackedAfter id recorded (fill_found key f b t)
  unfolding fill_found add_fill
  fill_found-IsBackedAfter b t found backed = elim (Option-cases (fitting f.quantity b)) [
    | inl none_fits ↦ rw (fill_found, none_fits) tt
    | inr (quantity, fits) ↦ elim (Result-cases (shares_due b quantity f.token_shares)) [
      | inl (x, bad) ↦ rw (fill_found, fits) (rw bad tt)
      | inr (shares, due) ↦
          elim (Result-cases (
            append_obligations (map (zq_obligation key b.batch_id f.execution_id) shares)
              t.obligations)) [
                | inl (x, bad) ↦ rw (fill_found, fits) (rw due (rw (add_fill, bad) tt))
                | inr (obligations, added) ↦
                    rw (fill_found, fits)
                      (rw due (
                        rw (add_fill, added)
                          (add_fill-IsBackedBy key f quantity b id t shares obligations found
                            (fitting_bounds f.quantity b quantity fits) due added backed)))
              ]
    ]
  ]

  pub record-IsBackedAfter :
      (t : Tables)
      → IsBacked id t
      → IsBackedAfter id recorded (record_ibkr_execution_and_obligations key f t)
  unfolding record_ibkr_execution_and_obligations
  record-IsBackedAfter t backed =
      elim (Option-cases (find_zq_execution f.execution_id t.executions)) [
        | inr (e, old) ↦ rw (record_ibkr_execution_and_obligations, old) backed
        | inl new ↦ elim (Option-cases (find_zq_order f.order_id t.orders)) [
          | inl foreign ↦ rw (record_ibkr_execution_and_obligations, new) (rw foreign backed)
          | inr (o, known) ↦ elim (Option-cases (find_batch o.batch_id t.batches)) [
            | inl missing ↦
                rw (record_ibkr_execution_and_obligations, new) (rw known (rw missing tt))
            | inr (b, found) ↦
                rw (record_ibkr_execution_and_obligations, new)
                  (rw known (
                    rw found (
                      fill_found-IsBackedAfter b t
                        (subst (λ i. find_batch i t.batches ≡ some b)
                          (sym (find_batch-id o.batch_id b t.batches found)) found)
                        backed)))
          ]
        ]
      ]
