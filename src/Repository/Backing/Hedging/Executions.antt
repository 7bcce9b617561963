-- ===== src/Repository/Backing/Hedging/Executions.antt =====
-- `record_polymarket_execution` keeps every batch backed.
use poly_zq_trading.Prelude.{
  ℕ, ◌≡◌, refl, ap, ◌∙◌, List, [], ◌∷◌, Option, none, some, Bool, true, ◌&&◌, ◌||◌, not, ◌==◌, ltb,
  find, sum_of-append, arith, Bool-cases, Option-cases, inl, inr,
}
use poly_zq_trading.Ledger.Types.{Order, Execution, Tables, Result, ok, err}
use poly_zq_trading.Ledger.Queries.{
  find_batch, find_polymarket_order, is_polymarket, trade_rank, same_status, same_id, write,
}
use poly_zq_trading.Ledger.Refresh.Accounted.{find-true}
use poly_zq_trading.Ledger.Intents.{refresh_named, same_flag}
use poly_zq_trading.Ledger.Executions.{
  Fill, record_numbers, confirm, is_row, positive, not_negative, status_of, find_execution,
  contradicts, is_conflict, new_execution, settle_status, mark_conflict, add_execution,
  update_execution, fill_simulated, record_valid, record_polymarket_execution,
}
use poly_zq_trading.Repository.Backing.{zq_filled, IsBacked, IsBackedAfter}
use poly_zq_trading.Repository.Backing.Filled.{same_sums-IsBackedBy}
use poly_zq_trading.Repository.Backing.Steps.{itself}
use poly_zq_trading.Repository.Backing.Refreshed.{refresh_named-IsBackedAfter}
use poly_zq_trading.Repository.Backing.Hedging.{left}

not_counted :
    (id : ℕ) (e : Execution) (es : List Execution)
    → is_polymarket e.venue ≡ true
    → zq_filled id (e ∷ es) ≡ zq_filled id es
not_counted id e es foreign = ground arith

zq_filled-write :
    (id : ℕ) (p : Execution → Bool) (e e' : Execution) (es : List Execution)
    → find p es ≡ some e
    → (is_polymarket e.venue ≡ true) × (is_polymarket e'.venue ≡ true)
    → zq_filled id (write p e' es) ≡ zq_filled id es
unfolding write
zq_filled-write id p e e' [] found foreign = refl
zq_filled-write id p e e' (x ∷ xs) found foreign = elim (Bool-cases (p x)) [
  | inl own ↦
      let row : x ≡ e = ground (arith, own) in
      rw own (
        omega (
          arith,
          not_counted id e' xs foreign.1,
          not_counted id x xs (ap (λ r. is_polymarket r.venue) row ∙ foreign.0),
        ))
  | inr other ↦
      rw other (omega (arith, zq_filled-write id p e e' xs (ground (arith, other)) foreign))
]

module _ (id : ℕ) where
  -- The batch and the obligations are as before, and the ZQ executions add up alike.
  same_filled-IsBacked :
      (es : List Execution) (t : Tables)
      → zq_filled id es ≡ zq_filled id t.executions
      → IsBacked id t
      → IsBacked id (record t { executions = es })
  same_filled-IsBacked es t same backed =
      same_sums-IsBackedBy (find_batch id t.batches) id t.executions es t.obligations t.obligations
        same (λ token. refl) backed

  confirm-IsBackedAfter :
      (r : Result Tables) → IsBackedAfter id (itself id) r → IsBackedAfter id left (confirm r)
  confirm-IsBackedAfter (ok t) backed = backed
  confirm-IsBackedAfter (err x) backed = tt

  -- Executions that have changed, refreshed.
  refreshed-IsBackedAfter :
      (o : Option ℕ) (orders : List Order) (es : List Execution) (t : Tables)
      → zq_filled id es ≡ zq_filled id t.executions
      → IsBacked id t
      → IsBackedAfter id left
          (confirm (refresh_named o (record t { executions = es; orders = orders })))
  refreshed-IsBackedAfter o orders es t same backed =
      confirm-IsBackedAfter _
        (refresh_named-IsBackedAfter id o _ (same_filled-IsBacked es t same backed))

  add_execution-IsBackedAfter :
      (f : Fill) (quantity price : ℕ) (o : Order) (t : Tables)
      → IsBacked id t
      → IsBackedAfter id left (add_execution f quantity price o t)
  unfolding add_execution settle_status new_execution
  add_execution-IsBackedAfter f quantity price o t backed =
      refreshed-IsBackedAfter o.obligation_id _ _ t (sum_of-append _ t.executions _ ∙ omega arith)
        backed

  rewritten-IsBackedAfter :
      (f : Fill) (o : Option ℕ) (orders : List Order) (e e' : Execution) (t : Tables)
      → find_execution f.execution_id t.executions ≡ some e
      → e'.venue ≡ e.venue
      → IsBacked id t
      → IsBackedAfter id left (
          confirm (
            refresh_named o (record t {
              executions = write (is_row f.execution_id) e' t.executions;
              orders = orders;
            })))
  rewritten-IsBackedAfter f o orders e e' t found same backed =
      let row = find-true (is_row f.execution_id) e t.executions found in
      refreshed-IsBackedAfter o orders _ t
        (zq_filled-write id (is_row f.execution_id) e e' t.executions found
          (ground arith, rw same (ground arith)))
        backed

  update_execution-IsBackedAfter :
      (f : Fill) (quantity price : ℕ) (o : Order) (e : Execution) (t : Tables)
      → find_execution f.execution_id t.executions ≡ some e
      → IsBacked id t
      → IsBackedAfter id left (update_execution f quantity price o e t)
  unfolding update_execution settle_status mark_conflict
  update_execution-IsBackedAfter f quantity price o e t found backed =
      let conflicted =
        rewritten-IsBackedAfter f o.obligation_id t.orders e (mark_conflict f e) t found refl
          backed in
      let moved =
        rewritten-IsBackedAfter f o.obligation_id (fill_simulated f o t.orders) e
          (settle_status f o e) t found refl backed in
      elim (Bool-cases (
        not (
          same_id e.venue_order_id f.order_id && (e.quantity == quantity) && (e.price == price)))) [
            | inl differs ↦ rw (update_execution, differs) tt
            | inr same ↦
                elim (Bool-cases (is_conflict e.status || contradicts e.status (status_of f))) [
                  | inl clash ↦ rw (update_execution, same) (rw clash conflicted)
                  | inr fine ↦
                      elim (Bool-cases (
                        same_status e.status (status_of f)
                        || ltb (trade_rank (status_of f)) (trade_rank e.status))) [
                          | inl old ↦ rw (update_execution, same) (rw fine (rw old backed))
                          | inr new ↦ rw (update_execution, same) (rw fine (rw new moved))
                        ]
                ]
          ]

  record_valid-IsBackedAfter :
      (f : Fill) (quantity price : ℕ) (t : Tables)
      → IsBacked id t
      → IsBackedAfter id left (record_valid f quantity price t)
  unfolding record_valid
  record_valid-IsBackedAfter f quantity price t backed =
      elim (Bool-cases (not (same_flag f.simulated t.simulate_polymarket_fills))) [
        | inl wrong ↦ rw (record_valid, wrong) tt
        | inr fine ↦ elim (Option-cases (find_polymarket_order f.order_id t.orders)) [
          | inl foreign ↦ rw (record_valid, fine) (rw foreign backed)
          | inr (o, known) ↦ elim (Option-cases (find_execution f.execution_id t.executions)) [
            | inl new ↦
                rw (record_valid, fine)
                  (rw known (rw new (add_execution-IsBackedAfter f quantity price o t backed)))
            | inr (e, found) ↦
                rw (record_valid, fine)
                  (rw known
                    (rw found (update_execution-IsBackedAfter f quantity price o e t found backed)))
          ]
        ]
      ]

  record_numbers-IsBackedAfter :
      (quantity price : Option ℕ) (f : Fill) (t : Tables)
      → IsBacked id t
      → IsBackedAfter id left (record_numbers quantity price f t)
  record_numbers-IsBackedAfter (some quantity) (some price) f t backed =
      record_valid-IsBackedAfter f quantity price t backed
  record_numbers-IsBackedAfter none price f t backed = tt
  record_numbers-IsBackedAfter (some quantity) none f t backed = tt

  pub hedge_fill-IsBackedAfter :
      (f : Fill) (t : Tables)
      → IsBacked id t
      → IsBackedAfter id left (record_polymarket_execution f t)
  unfolding record_polymarket_execution
  hedge_fill-IsBackedAfter f t backed =
      record_numbers-IsBackedAfter (positive f.quantity) (not_negative f.price) f t backed
