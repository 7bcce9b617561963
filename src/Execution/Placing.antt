-- ===== src/Execution/Placing.antt =====
-- The end of `_route_one_hedge`, where no order of the obligation is open: a new one for the rest.
use poly_zq_trading.Prelude.{
  ℕ, ◌+◌, ◌-◌, List, Option, none, some, Bool, true, false, ◌&&◌, ◌||◌, not, filter, ltb, ◌==◌,
  if◌then◌else◌,
}
use poly_zq_trading.Prelude.Int.{pos}
use poly_zq_trading.Book.Types.{OrderBook, best_ask, HedgeEntryPlan, limit_price}
use poly_zq_trading.Book.Plan.{plan_hedge_entry}
use poly_zq_trading.Ledger.Types.{Order, Obligation}
use poly_zq_trading.Ledger.Queries.{is_polymarket, equals_some, find_obligation}
use poly_zq_trading.Ledger.Intents.{Intent, create_hedge_order_intent}
use poly_zq_trading.Repository.Status.{deficit_shares}
use poly_zq_trading.Execution.Types.{hedge_reprice_limit, add_alert}
use poly_zq_trading.Execution.Safety.{emit}
use poly_zq_trading.Execution.Posting.{
  returned, raised, preparing, HedgeSettings, HedgeSurroundings, PreparedPolymarketOrder, Round,
  Outcome, after_answer, meanwhile_at, hedge_submission_ready, prepare_hedge_limit, post_prepared,
}
use poly_zq_trading.Execution.Routing.{follow_orders}

abbrev pub intent_of : ℕ → ℕ → PreparedPolymarketOrder → Intent
intent_of obligation_id attempt p = record {
  obligation_id = obligation_id;
  idempotency_key = p.idempotency_key;
  shares = pos p.shares;
  limit_price = p.limit_price;
  attempt = attempt;
  signed_payload = p.signed_payload;
  order_id = p.order_id;
}

unfoldable pub send_created : HedgeSurroundings → PreparedPolymarketOrder → Bool → Round → Outcome
send_created w p true r = post_prepared w p r
send_created w p false r = returned r

-- The intent is stored before the order is sent.
unfoldable pub create_and_send :
    HedgeSurroundings → ℕ → ℕ → PreparedPolymarketOrder → Round → Outcome
create_and_send w id attempt p r =
    after_answer r (create_hedge_order_intent (intent_of id attempt p) r.tables) (send_created w p)

abbrev pub same_number : Option ℕ → Option ℕ → Bool
same_number none none = true
same_number (some a) (some b) = a == b
same_number _ _ = false

abbrev pub same_plan : HedgeEntryPlan → HedgeEntryPlan → Bool
same_plan p q = same_number (limit_price q) (limit_price p) && same_number q.price_cap p.price_cap

unfoldable pub recheck :
    HedgeSurroundings
    → ℕ
    → ℕ
    → HedgeEntryPlan
    → PreparedPolymarketOrder
    → Option HedgeEntryPlan
    → Round
    → Outcome
recheck w id attempt plan p none r = raised r
recheck w id attempt plan p (some again) r =
    if same_plan plan again then create_and_send w id attempt p r else returned r

-- With the book as it is after the order was signed.
unfoldable pub with_new_book :
    HedgeSettings
    → HedgeSurroundings
    → ℕ
    → ℕ
    → Bool
    → Option ℕ
    → HedgeEntryPlan
    → PreparedPolymarketOrder
    → Option OrderBook
    → Round
    → Outcome
with_new_book s w id attempt one_tick lowest plan p none r = returned r
with_new_book s w id attempt one_tick lowest plan p (some book) r =
    if same_number (best_ask book) lowest
    then recheck w id attempt plan p
        (plan_hedge_entry book p.shares s.polymarket_emergency_max_price one_tick) r
    else returned r

unfoldable pub with_prepared :
    HedgeSettings
    → HedgeSurroundings
    → ℕ
    → ℕ
    → Bool
    → Option ℕ
    → HedgeEntryPlan
    → Option PreparedPolymarketOrder
    → Round
    → Outcome
with_prepared s w id attempt one_tick lowest plan none r = raised r
with_prepared s w id attempt one_tick lowest plan (some p) r =
    with_new_book s w id attempt one_tick lowest plan p (w.book true p.token_id)
      (meanwhile_at w preparing r)

unfoldable pub alert_reprices : HedgeSettings → ℕ → Round → Round
alert_reprices s attempt r =
    if ltb s.polymarket_hedge_max_reprices attempt
    then record r { own = emit (add_alert hedge_reprice_limit) r.own }
    else r

unfoldable pub with_price :
    HedgeSettings
    → HedgeSurroundings
    → Obligation
    → ℕ
    → Bool
    → Option ℕ
    → HedgeEntryPlan
    → Option ℕ
    → Round
    → Outcome
with_price s w ob shares one_tick lowest plan none r = returned r
with_price s w ob shares one_tick lowest plan (some price) r =
    let attempt = ob.reprice_count + 1 in
    with_prepared s w ob.obligation_id attempt one_tick lowest plan
      (prepare_hedge_limit s w ob.token_id price shares (w.attempt_key ob.obligation_id attempt))
      (alert_reprices s attempt r)

unfoldable pub with_plan :
    HedgeSettings
    → HedgeSurroundings
    → Obligation
    → ℕ
    → Bool
    → Option ℕ
    → Option HedgeEntryPlan
    → Round
    → Outcome
with_plan s w ob shares one_tick lowest none r = raised r
with_plan s w ob shares one_tick lowest (some plan) r =
    with_price s w ob shares one_tick lowest plan (limit_price plan) r

unfoldable pub with_ask :
    HedgeSettings → HedgeSurroundings → Obligation → ℕ → OrderBook → Option ℕ → Round → Outcome
with_ask s w ob shares book none r = returned r
with_ask s w ob shares book (some ask) r =
    let one_tick = ob.token_id == s.inc50plus_token in
    with_plan s w ob shares one_tick (some ask)
      (plan_hedge_entry book shares s.polymarket_emergency_max_price one_tick) r

unfoldable pub with_book :
    HedgeSettings → HedgeSurroundings → Obligation → ℕ → Option OrderBook → Round → Outcome
with_book s w ob shares none r = returned r
with_book s w ob shares (some book) r = with_ask s w ob shares book (best_ask book) r

-- What is due and neither confirmed nor pending.
abbrev pub rest_of : Obligation → ℕ
rest_of ob = deficit_shares ob - ob.pending_shares

unfoldable pub place_hedge : HedgeSettings → HedgeSurroundings → Option Obligation → Round → Outcome
place_hedge s w none r = raised r
place_hedge s w (some ob) r =
    if not (hedge_submission_ready s r.own) || ltb 0 ob.excess_shares || (rest_of ob == 0)
    then returned r
    else with_book s w ob (rest_of ob) (w.book false ob.token_id) r

-- The Polymarket orders whose details name the obligation.
abbrev pub hedge_orders : ℕ → List Order → List Order
hedge_orders id = filter (λ o. is_polymarket o.venue && equals_some o.obligation_id id)

unfoldable pub place_found : HedgeSettings → HedgeSurroundings → ℕ → Round → Outcome
place_found s w id r = place_hedge s w (find_obligation id r.tables.obligations) r

unfoldable pub route_one_hedge : HedgeSettings → HedgeSurroundings → ℕ → Round → Outcome
route_one_hedge s w id r =
    follow_orders s w (hedge_orders id r.tables.orders) (place_found s w id) r
