-- ===== src/Execution/Routing.antt =====
-- `_route_one_hedge`: the orders of an obligation that are not resolved yet.
use poly_zq_trading.Prelude.{
  ℕ, ◌+◌, List, [], ◌∷◌, ◌++◌, Option, none, some, Bool, true, false, ◌&&◌, find, leb,
  if◌then◌else◌,
}
use poly_zq_trading.Ledger.Types.{OrderId, OrderState, Order}
use poly_zq_trading.Ledger.Queries.{same_id, order_resolved}
use poly_zq_trading.Ledger.Intents.{is_signed, is_intent_id, mark_polymarket_order_cancelled}
use poly_zq_trading.Ledger.Verification.{Snapshot, verify_polymarket_order}
use poly_zq_trading.Repository.Entry.{is_intent}
use poly_zq_trading.Execution.Posting.{
  returned, raised, final_lookup, lookup, cancelling, PreparedPolymarketOrder, HedgeSettings,
  HedgeSurroundings, Round, Outcome, invalidate_polymarket_reconciliation, hedge_submission_ready,
  prepared_order, after_session, after_answer, put_sent, meanwhile_at, post_prepared,
}

-- The order as it was signed.
abbrev pub prepared_of : Order → PreparedPolymarketOrder
prepared_of o =
    prepared_order o.token_id o.price o.quantity o.idempotency_key o.signed_payload
      (if is_intent_id o.venue_order_id then none else some o.venue_order_id)

abbrev pub is_unknown : OrderState → Bool
is_unknown OrderState.outcome_unknown = true
is_unknown OrderState.submitting = true
is_unknown _ = false

abbrev pub is_old : ℕ → Option ℕ → Bool
is_old now none = false
is_old now (some at) = leb (at + 5) now

-- An order whose outcome is unknown is sent again as it was signed, after five seconds.
abbrev pub may_replay : HedgeSettings → HedgeSurroundings → Order → Round → Bool
may_replay s w o r =
    is_unknown o.state
    && hedge_submission_ready s r.own
    && is_old w.now o.last_submit_at
    && is_signed o.signed_payload

abbrev pub is_resting : OrderState → Bool
is_resting OrderState.live = true
is_resting OrderState.partial = true
is_resting _ = false

abbrev pub sent_time : ℕ → Option (OrderId × ℕ) → ℕ
sent_time now none = now
sent_time now (some (_, at)) = at

abbrev pub find_sent : OrderId → List (OrderId × ℕ) → Option (OrderId × ℕ)
find_sent id = find (λ p. same_id p.0 id)

-- `self._order_sent_at.setdefault(order_id, utc_now())`
unfoldable pub set_default : ℕ → OrderId → Round → Round
set_default now id r = record r {
  sent_at = put_sent id (sent_time now (find_sent id r.sent_at)) r.sent_at;
}

abbrev pub is_stale_order : HedgeSettings → HedgeSurroundings → OrderId → Round → Bool
is_stale_order s w id r =
    leb (sent_time w.now (find_sent id r.sent_at) + s.polymarket_hedge_reprice_seconds) w.now

-- Whether the loop goes on to the next order.
unfoldable pub go_on : (Round → Outcome) → Bool → Round → Outcome
go_on next true r = next r
go_on next false r = returned r

unfoldable pub verify_final :
    HedgeSurroundings → OrderId → (Round → Outcome) → Option Snapshot → Round → Outcome
verify_final w id next none r = raised r
verify_final w id next (some answer) r =
    after_answer r (verify_polymarket_order id answer w.now r.tables) (go_on next)

unfoldable pub cancel_stale : HedgeSurroundings → OrderId → (Round → Outcome) → Round → Outcome
cancel_stale w id next r =
    let r' = record r { own = invalidate_polymarket_reconciliation r.own } in
    after_session r' (mark_polymarket_order_cancelled id r'.tables) (λ r''.
      let cancelled = record r'' { cancels = r''.cancels ++ (id ∷ []) } in
      if w.cancel_order id
      then verify_final w id next (w.get_order final_lookup id)
          (meanwhile_at w final_lookup (meanwhile_at w cancelling cancelled))
      else raised cancelled)

unfoldable pub check_resting :
    HedgeSettings
    → HedgeSurroundings
    → OrderId
    → Snapshot
    → (Round → Outcome)
    → Bool
    → Round
    → Outcome
check_resting s w id answer next true r = next r
check_resting s w id answer next false r =
    let r' = set_default w.now id r in
    if is_resting answer.status && is_stale_order s w id r'
    then cancel_stale w id next r'
    else returned r'

unfoldable pub after_lookup :
    HedgeSettings
    → HedgeSurroundings
    → Order
    → (Round → Outcome)
    → Option Snapshot
    → Round
    → Outcome
after_lookup s w o next none r =
    if may_replay s w o r then post_prepared w (prepared_of o) r else returned r
after_lookup s w o next (some answer) r =
    after_answer r (verify_polymarket_order o.venue_order_id answer w.now r.tables)
      (check_resting s w o.venue_order_id answer next)

-- One order that is not resolved.
unfoldable pub follow_order :
    HedgeSettings → HedgeSurroundings → Order → (Round → Outcome) → Round → Outcome
follow_order s w o next r =
    if is_intent o.state
    then (if hedge_submission_ready s r.own then post_prepared w (prepared_of o) r else returned r)
    else if is_intent_id o.venue_order_id
    then returned r
    else after_lookup s w o next (w.get_order lookup o.venue_order_id) (meanwhile_at w lookup r)

unfoldable pub follow_orders :
    HedgeSettings → HedgeSurroundings → List Order → (Round → Outcome) → Round → Outcome
follow_orders s w [] next r = next r
follow_orders s w (o ∷ os) next r =
    let rest = follow_orders s w os next in
    if order_resolved o then rest r else follow_order s w o rest r
