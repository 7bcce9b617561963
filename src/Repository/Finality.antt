-- ===== src/Repository/Finality.antt =====
-- ZQ orders that are over, seen from the calls on the ZQ side.
use poly_zq_trading.Prelude.{
  ℕ, map, ◌≡◌, refl, ap, sym, ◌∙◌, List, [], ◌∷◌, ◌++◌, Option, none, some, Bool, true, false, ◌&&◌,
  not, find, arith, Bool-cases, Option-cases, inl, inr,
}
use poly_zq_trading.Ledger.Types.{Order, Batch, Tables, Result, ok, err}
use poly_zq_trading.Ledger.Queries.{find_batch, write}
use poly_zq_trading.Ledger.Refresh.Accounted.{refresh_batch_state-orders}
use poly_zq_trading.Repository.Entry.{
  Entry, new_zq_order, add_batch, create_zq_batch_intent, write_entry, abandon_zq_intent,
  mark_zq_submitted, find_batch_order, is_intent, is_zq_order_of,
}
use poly_zq_trading.Repository.Fills.{
  ZqFill, is_zq_order, find_zq_order, add_fill, fill_found, record_ibkr_execution_and_obligations,
}
use poly_zq_trading.Repository.Status.{
  is_final, StatusReport, Residual, report_order, apply_report, update_zq_order_status,
  set_batch_cancel_pending, refresh_batches, normalize_active_batch_state,
}
use poly_zq_trading.Repository.History.{
  ZqCall, create, abandon, submitted, execution, status, cancel, normalize, zq, commit, zq_step,
  run,
}

abbrev state_is_final : Option Order → Bool
state_is_final none = false
state_is_final (some o) = is_final o.state

-- The ZQ order with the id is there, and over.
abbrev pub is_over : ℕ → List Order → Bool
is_over id orders = state_is_final (find_zq_order id orders)

over-append :
    (id : ℕ) (o : Order) (os : List Order)
    → is_over id os ≡ true
    → is_over id (os ++ (o ∷ [])) ≡ true
over-append id o [] h = absurd (ground arith)
over-append id o (p ∷ ps) h = elim (Bool-cases (is_zq_order id p)) [
  | inl e ↦ rw e (ground (arith, e))
  | inr e ↦ rw e (over-append id o ps (ground (arith, e)))
]

-- An order written back under its id, final if it was.
over-write :
    (id : ℕ) (p : Order → Bool) (o o' : Order) (os : List Order)
    → find p os ≡ some o
    → is_zq_order id o' ≡ is_zq_order id o
    → not (is_final o.state && not (is_final o'.state)) ≡ true
    → is_over id os ≡ true
    → is_over id (write p o' os) ≡ true
unfolding write
over-write id p o o' [] found same kept h = h
over-write id p o o' (q ∷ qs) found same kept h = elim (Bool-cases (p q)) [
  | inl own ↦
      let row : q ≡ o = ground (arith, own) in
      let moved : is_zq_order id o' ≡ is_zq_order id q = same ∙ ap (is_zq_order id) (sym row) in
      elim (Bool-cases (is_zq_order id q)) [
        | inl e ↦
            let over : is_final q.state ≡ true = ground (arith, e) in
            let over' : is_final o.state ≡ true = ap (λ r. is_final r.state) (sym row) ∙ over in
            rw own (rw (moved ∙ e) (ground (arith, kept, over')))
        | inr e ↦ rw own (rw (moved ∙ e) (ground (arith, e)))
      ]
  | inr other ↦ elim (Bool-cases (is_zq_order id q)) [
    | inl e ↦ rw other (rw e (ground (arith, e)))
    | inr e ↦
        rw other
          (rw e (over-write id p o o' qs (ground (arith, other)) same kept (ground (arith, e))))
  ]
]

module _ (id : ℕ) where
  -- After a call that does not raise.
  abbrev IsOverAfter {ℓ} : {A : Type ℓ} → (A → Tables) → Result A → Type 0
  IsOverAfter tables (ok a) = is_over id (tables a).orders ≡ true
  IsOverAfter tables (err x) = Unit

  create-IsOverAfter :
      (k : ℕ) (e : Entry) (t : Tables)
      → is_over id t.orders ≡ true
      → IsOverAfter (λ (s : Tables). s) (create_zq_batch_intent k e t)
  unfolding create_zq_batch_intent add_batch
  create-IsOverAfter k e t h =
      let added = over-append id (new_zq_order k e) t.orders h in ground (arith, added, h)

  abandon-IsOverAfter :
      (k reason : ℕ) (t : Tables)
      → is_over id t.orders ≡ true
      → IsOverAfter (λ (s : Tables). s) (abandon_zq_intent k reason t)
  unfolding abandon_zq_intent write_entry
  abandon-IsOverAfter k reason t h = elim (Option-cases (find_batch k t.batches)) [
    | inl missing ↦ rw (abandon_zq_intent, missing) tt
    | inr (b, found) ↦ elim (Option-cases (find_batch_order k t.orders)) [
      | inl absent ↦ rw (abandon_zq_intent, found) (rw absent tt)
      | inr (o, known) ↦ elim (Bool-cases (is_intent o.state)) [
        | inr sent ↦ rw (abandon_zq_intent, found) (rw known (rw sent tt))
        | inl unsent ↦
            rw (abandon_zq_intent, found)
              (rw known (
                rw unsent
                  (over-write id (is_zq_order_of k) o _ t.orders known refl (ground arith) h)))
      ]
    ]
  ]

  mark-IsOverAfter :
      (k : ℕ) (t : Tables)
      → is_over id t.orders ≡ true
      → IsOverAfter (λ (s : Tables). s) (mark_zq_submitted k t)
  unfolding mark_zq_submitted write_entry
  mark-IsOverAfter k t h = elim (Option-cases (find_batch k t.batches)) [
    | inl missing ↦ rw (mark_zq_submitted, missing) tt
    | inr (b, found) ↦ elim (Option-cases (find_batch_order k t.orders)) [
      | inl absent ↦ rw (mark_zq_submitted, found) (rw absent tt)
      | inr (o, known) ↦
          rw (mark_zq_submitted, found)
            (rw known (over-write id (is_zq_order_of k) o _ t.orders known refl (ground arith) h))
    ]
  ]

  execution-IsOverAfter :
      (key : ℕ → ℕ → ℕ → ℕ) (f : ZqFill) (t : Tables)
      → is_over id t.orders ≡ true
      → IsOverAfter (λ p. p.0) (record_ibkr_execution_and_obligations key f t)
  unfolding record_ibkr_execution_and_obligations fill_found add_fill
  execution-IsOverAfter key f t h = ground (arith, h)

  status-over :
      (s : StatusReport) (t : Tables)
      → is_over id t.orders ≡ true
      → is_over id (update_zq_order_status s t).0.orders ≡ true
  unfolding update_zq_order_status apply_report report_order
  status-over s t h = elim (Option-cases (find_zq_order s.order_id t.orders)) [
    | inl foreign ↦ rw (update_zq_order_status, foreign) h
    | inr (o, known) ↦ elim (Bool-cases (is_final o.state && not (is_final s.status))) [
      | inl over ↦ rw (update_zq_order_status, known) (rw over h)
      | inr open_order ↦
          let written =
            over-write id (is_zq_order s.order_id) o (report_order s o) t.orders known refl
              (ground (arith, open_order)) h in
          rw (update_zq_order_status, known)
            (rw open_order (elim (Option-cases (find_batch o.batch_id t.batches)) [
              | inl missing ↦ rw (apply_report, missing) written
              | inr (b, found) ↦
                  rw (apply_report, found) (rw (refresh_batch_state-orders b.batch_id _) written)
            ]))
    ]
  ]

  cancel-over :
      (r : Residual) (t : Tables)
      → is_over id t.orders ≡ true
      → is_over id (set_batch_cancel_pending r t).0.orders ≡ true
  unfolding set_batch_cancel_pending
  cancel-over r t h = ground (arith, h)

  refresh_batches-over :
      (bs : List Batch) (t : Tables)
      → is_over id t.orders ≡ true
      → is_over id (refresh_batches bs t).orders ≡ true
  unfolding refresh_batches
  refresh_batches-over [] t h = h
  refresh_batches-over (b ∷ bs) t h =
      refresh_batches-over bs _ (rw (refresh_batch_state-orders b.batch_id t) h)

  commit-over {ℓ} :
      {A : Type ℓ} (tables : A → Tables) (r : Result A) (t : Tables)
      → IsOverAfter tables r
      → is_over id t.orders ≡ true
      → is_over id (commit tables r t).orders ≡ true
  commit-over tables (ok a) t after before = after
  commit-over tables (err x) t after before = before

  zq_step-over :
      (key : ℕ → ℕ → ℕ → ℕ) (c : ZqCall) (t : Tables)
      → is_over id t.orders ≡ true
      → is_over id (zq_step key c t).orders ≡ true
  unfolding normalize_active_batch_state
  zq_step-over key (create k e) t h =
      commit-over (λ (s : Tables). s) _ t (create-IsOverAfter k e t h) h
  zq_step-over key (abandon k reason) t h =
      commit-over (λ (s : Tables). s) _ t (abandon-IsOverAfter k reason t h) h
  zq_step-over key (submitted k) t h =
      commit-over (λ (s : Tables). s) _ t (mark-IsOverAfter k t h) h
  zq_step-over key (execution f) t h =
      commit-over (λ p. p.0) _ t (execution-IsOverAfter key f t h) h
  zq_step-over key (status s) t h = status-over s t h
  zq_step-over key (cancel r) t h = cancel-over r t h
  zq_step-over key normalize t h = refresh_batches-over t.batches t h

-- A ZQ order that is over, filled, cancelled, inactive or aborted, stays over: no sequence of
-- calls on the ZQ side, late status reports among them, takes it back to a working state.
pub run-is_over :
    (key : ℕ → ℕ → ℕ → ℕ) (cs : List ZqCall) (id : ℕ) (t : Tables)
    → is_over id t.orders ≡ true
    → is_over id (run key (map zq cs) t).orders ≡ true
run-is_over key [] id t h = h
run-is_over key (c ∷ cs) id t h =
    run-is_over key cs id (zq_step key c t) (zq_step-over id key c t h)
