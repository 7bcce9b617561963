-- ===== src/Repository/Backing/Hedging.antt =====
-- The calls of the hedge ledger keep every batch backed.
pub mod Executions
use poly_zq_trading.Prelude.{
  ℕ, ◌≡◌, refl, ap, ◌∙◌, List, [], ◌∷◌, Option, none, some, Bool, true, ◌&&◌, ◌||◌, not, ◌==◌, ltb,
  find, sum_of-append, arith, Bool-cases, Option-cases, inl, inr,
}
use poly_zq_trading.Prelude.Int.{pos, negsuc}
use poly_zq_trading.Ledger.Types.{
  OrderId, OrderState, Order, Execution, Tables, Result, ok, err, Number, finite, not_finite,
}
use poly_zq_trading.Ledger.Queries.{
  find_batch, find_obligation, find_by_key, find_polymarket_order, is_polymarket, is_unsent,
  order_resolved, trade_rank, same_status, same_id, write,
}
use poly_zq_trading.Ledger.Refresh.Accounted.{find-true}
use poly_zq_trading.Ledger.Intents.{
  Intent, reserve, reserve_order, create_hedge_order_intent, set_hedge_submission_state,
  accept_hedge_order, update_polymarket_order_status, refresh_named, same_flag, is_intent_id,
  is_free_id,
}
use poly_zq_trading.Ledger.Verification.{
  Snapshot, check_order, answer, verify_matched, verify_size, verify_polymarket_order, is_stale,
  is_verified,
}
use poly_zq_trading.Ledger.Executions.{
  Fill, record_numbers, confirm, is_row, positive, not_negative, status_of, find_execution,
  contradicts, is_conflict, new_execution, settle_status, mark_conflict, add_execution,
  update_execution, fill_simulated, record_valid, record_polymarket_execution,
}
use poly_zq_trading.Repository.Backing.{zq_filled, IsBacked, IsBackedAfter}
use poly_zq_trading.Repository.Backing.Filled.{same_sums-IsBackedBy}
use poly_zq_trading.Repository.Backing.Steps.{itself}
use poly_zq_trading.Repository.Backing.Refreshed.{
  rewritten_rows-IsBacked, refresh_named-IsBackedAfter,
}

-- What a call that also answers leaves.
abbrev pub left : Tables × Bool → Tables
left p = p.0

module _ (id : ℕ) where
  answer-IsBackedAfter :
      (b : Bool) (r : Result Tables)
      → IsBackedAfter id (itself id) r
      → IsBackedAfter id left (answer b r)
  answer-IsBackedAfter b (ok t) backed = backed
  answer-IsBackedAfter b (err x) backed = tt

  reserve_order-IsBackedAfter :
      (i : Intent) (t : Tables)
      → IsBacked id t
      → IsBackedAfter id left (reserve_order i (find_obligation i.obligation_id t.obligations) t)
  unfolding reserve_order reserve
  reserve_order-IsBackedAfter i t backed =
      elim (Option-cases (find_obligation i.obligation_id t.obligations)) [
        | inl missing ↦ rw missing tt
        | inr (ob, found) ↦
            let backed' =
              rewritten_rows-IsBacked id i.obligation_id ob (reserve i ob) t.executions t found refl
                refl backed in
            rw found (ground (arith, backed'))
      ]

  pub intent-IsBackedAfter :
      (i : Intent) (t : Tables)
      → IsBacked id t
      → IsBackedAfter id left (create_hedge_order_intent i t)
  unfolding create_hedge_order_intent
  intent-IsBackedAfter i t backed =
      let reserved = reserve_order-IsBackedAfter i t backed in ground (arith, reserved, backed)

  pub submission-IsBackedAfter :
      (key : ℕ) (state : OrderState) (now : ℕ) (t : Tables)
      → IsBacked id t
      → IsBackedAfter id (itself id) (set_hedge_submission_state key state now t)
  unfolding set_hedge_submission_state
  submission-IsBackedAfter key state now t backed = elim (Option-cases (find_by_key key t.orders)) [
    | inl missing ↦ rw (set_hedge_submission_state, missing) tt
    | inr (o, found) ↦ elim (Bool-cases (is_unsent o.state)) [
      | inl unsent ↦ rw (set_hedge_submission_state, found) (rw unsent backed)
      | inr sent ↦ rw (set_hedge_submission_state, found) (rw sent backed)
    ]
  ]

  pub accept-IsBackedAfter :
      (key : ℕ) (i : OrderId) (state : OrderState) (simulated : Bool) (t : Tables)
      → IsBacked id t
      → IsBackedAfter id (itself id) (accept_hedge_order key i state simulated t)
  unfolding accept_hedge_order
  accept-IsBackedAfter key i state simulated t backed =
      elim (Bool-cases (not (same_flag simulated t.simulate_polymarket_fills))) [
        | inl wrong ↦ rw (accept_hedge_order, wrong) tt
        | inr right ↦ elim (Option-cases (find_by_key key t.orders)) [
          | inl missing ↦ rw (accept_hedge_order, right) (rw missing tt)
          | inr (o, found) ↦
              elim (Bool-cases
                (not (is_intent_id o.venue_order_id) && not (same_id o.venue_order_id i))) [
                  | inl other ↦ rw (accept_hedge_order, right) (rw found (rw other tt))
                  | inr same ↦ elim (Bool-cases (not (is_free_id o.venue i key t.orders))) [
                    | inl taken ↦ rw (accept_hedge_order, right) (rw found (rw same (rw taken tt)))
                    | inr free ↦
                        rw (accept_hedge_order, right)
                          (rw found (
                            rw same
                              (rw free (refresh_named-IsBackedAfter id o.obligation_id _ backed))))
                  ]
                ]
        ]
      ]

  pub status-IsBackedAfter :
      (i : OrderId) (state : OrderState) (t : Tables)
      → IsBacked id t
      → IsBackedAfter id (itself id) (update_polymarket_order_status i state t)
  unfolding update_polymarket_order_status
  status-IsBackedAfter i state t backed = elim (Option-cases (find_polymarket_order i t.orders)) [
    | inl foreign ↦ rw (update_polymarket_order_status, foreign) backed
    | inr (o, known) ↦ elim (Bool-cases (order_resolved o)) [
      | inl over ↦ rw (update_polymarket_order_status, known) (rw over backed)
      | inr open_order ↦
          rw (update_polymarket_order_status, known)
            (rw open_order (refresh_named-IsBackedAfter id o.obligation_id _ backed))
    ]
  ]

  verify_matched-IsBackedAfter :
      (i : OrderId) (s : Snapshot) (matched now : ℕ) (t : Tables)
      → IsBacked id t
      → IsBackedAfter id left (verify_matched i s matched now t)
  unfolding verify_matched check_order
  verify_matched-IsBackedAfter i s matched now t backed =
      elim (Option-cases (find_polymarket_order i t.orders)) [
        | inl foreign ↦ rw (verify_matched, foreign) backed
        | inr (o, known) ↦
            elim (Bool-cases
              (is_stale matched (is_verified s matched o i t.executions) o i t.executions)) [
                | inl stale ↦ rw (verify_matched, known) (rw stale backed)
                | inr current ↦
                    rw (verify_matched, known)
                      (rw current (
                        answer-IsBackedAfter _ _
                          (refresh_named-IsBackedAfter id o.obligation_id _ backed)))
              ]
      ]

  verify_size-IsBackedAfter :
      (size : Option Number) (i : OrderId) (s : Snapshot) (now : ℕ) (t : Tables)
      → IsBacked id t
      → IsBackedAfter id left (verify_size size i s now t)
  verify_size-IsBackedAfter none i s now t backed = backed
  verify_size-IsBackedAfter (some not_finite) i s now t backed = tt
  verify_size-IsBackedAfter (some (finite (negsuc _))) i s now t backed = tt
  verify_size-IsBackedAfter (some (finite (pos matched))) i s now t backed =
      verify_matched-IsBackedAfter i s matched now t backed

  pub verify-IsBackedAfter :
      (i : OrderId) (s : Snapshot) (now : ℕ) (t : Tables)
      → IsBacked id t
      → IsBackedAfter id left (verify_polymarket_order i s now t)
  unfolding verify_polymarket_order
  verify-IsBackedAfter i s now t backed = verify_size-IsBackedAfter s.size_matched i s now t backed
