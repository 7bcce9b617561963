-- ===== src/Repository/Backing/Repeat.antt =====
-- A second call for the same execution.
use poly_zq_trading.Prelude.{
  ℕ, ◌≡◌, refl, subst, List, [], ◌∷◌, ◌++◌, map, Bool, true, find, none, some, arith, Option-cases,
  Bool-cases, inl, inr,
}
use poly_zq_trading.Ledger.Types.{Execution, Obligation, Batch, Tables, Result, ok, err}
use poly_zq_trading.Ledger.Queries.{find_batch}
use poly_zq_trading.Repository.Fills.{
  ZqFill, fitting, shares_due, zq_execution, append_obligations, zq_obligation, add_fill,
  fill_found, find_zq_execution, find_zq_order, is_zq_execution,
  record_ibkr_execution_and_obligations,
}
use poly_zq_trading.Repository.Backing.Recorded.{Result-cases}

find-new {ℓ} :
    {A : Type ℓ} (p : A → Bool) (x : A) (xs : List A)
    → find p xs ≡ none
    → p x ≡ true
    → find p (xs ++ (x ∷ [])) ≡ some x
find-new p x [] missing own = rw own refl
find-new p x (y ∷ ys) missing own = elim (Bool-cases (p y)) [
  | inl e ↦ absurd (ground arith)
  | inr e ↦ rw e (find-new p x ys (ground arith) own)
]

module _ (key : ℕ → ℕ → ℕ → ℕ) (f : ZqFill) where
  old-repeat :
      (t : Tables) (e : Execution)
      → find_zq_execution f.execution_id t.executions ≡ some e
      → record_ibkr_execution_and_obligations key f t ≡ ok (t, [])
  unfolding record_ibkr_execution_and_obligations
  old-repeat t e old = rw (record_ibkr_execution_and_obligations, old) refl

  foreign-repeat :
      (t : Tables)
      → find_zq_execution f.execution_id t.executions ≡ none
      → find_zq_order f.order_id t.orders ≡ none
      → record_ibkr_execution_and_obligations key f t ≡ ok (t, [])
  unfolding record_ibkr_execution_and_obligations
  foreign-repeat t new foreign = rw (record_ibkr_execution_and_obligations, new) (rw foreign refl)

  -- After the call, a second one changes nothing.
  abbrev IsDone : Result (Tables × List Obligation) → Type 0
  IsDone (ok (t, rows)) = record_ibkr_execution_and_obligations key f t ≡ ok (t, [])
  IsDone (err x) = Unit

  fill_found-IsDone :
      (b : Batch) (t : Tables)
      → find_zq_execution f.execution_id t.executions ≡ none
      → IsDone (fill_found key f b t)
  unfolding record_ibkr_execution_and_obligations fill_found add_fill zq_execution
  fill_found-IsDone b t new = elim (Option-cases (fitting f.quantity b)) [
    | inl none_fits ↦ rw (fill_found, none_fits) tt
    | inr (quantity, fits) ↦ elim (Result-cases (shares_due b quantity f.token_shares)) [
      | inl (x, bad) ↦ rw (fill_found, fits) (rw bad tt)
      | inr (shares, due) ↦
          elim (Result-cases (
            append_obligations (map (zq_obligation key b.batch_id f.execution_id) shares)
              t.obligations)) [
                | inl (x, bad) ↦ rw (fill_found, fits) (rw due (rw (add_fill, bad) tt))
                | inr (obligations, added) ↦
                    rw (fill_found, fits)
                      (rw due (
                        rw (add_fill, added)
                          (old-repeat _ (zq_execution f quantity b) (
                            find-new (is_zq_execution f.execution_id) (zq_execution f quantity b)
                              t.executions new (ground arith)))))
              ]
    ]
  ]

  record-IsDone : (t : Tables) → IsDone (record_ibkr_execution_and_obligations key f t)
  unfolding record_ibkr_execution_and_obligations
  record-IsDone t = elim (Option-cases (find_zq_execution f.execution_id t.executions)) [
    | inr (e, old) ↦ rw (record_ibkr_execution_and_obligations, old) (old-repeat t e old)
    | inl new ↦ elim (Option-cases (find_zq_order f.order_id t.orders)) [
      | inl foreign ↦
          rw (record_ibkr_execution_and_obligations, new)
            (rw foreign (foreign-repeat t new foreign))
      | inr (o, known) ↦ elim (Option-cases (find_batch o.batch_id t.batches)) [
        | inl missing ↦ rw (record_ibkr_execution_and_obligations, new) (rw known (rw missing tt))
        | inr (b, found) ↦
            rw (record_ibkr_execution_and_obligations, new)
              (rw known (rw found (fill_found-IsDone b t new)))
      ]
    ]
  ]

-- An execution report that comes again, after the call that recorded it, changes nothing and owes
-- nothing more.
pub record_ibkr_execution_and_obligations-repeat :
    (key : ℕ → ℕ → ℕ → ℕ) (f : ZqFill) (t t' : Tables) (rows : List Obligation)
    → record_ibkr_execution_and_obligations key f t ≡ ok (t', rows)
    → record_ibkr_execution_and_obligations key f t' ≡ ok (t', [])
record_ibkr_execution_and_obligations-repeat key f t t' rows h =
    subst (IsDone key f) h (record-IsDone key f t)
