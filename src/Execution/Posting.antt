-- ===== src/Execution/Posting.antt =====
-- A round's state, `_post_prepared`, `prepare_hedge_limit` and `_hedge_submission_ready`. The venue's
-- answers, the books and what other tasks write to the tables across each wait are parameters.
use poly_zq_trading.Prelude.{
  ℕ, ◌+◌, List, [], ◌∷◌, ◌++◌, Option, none, some, Bool, true, false, ◌&&◌, ◌||◌, not, filter, ltb,
  ◌==◌, if◌then◌else◌,
}
use poly_zq_trading.Prelude.Int.{pos}
use poly_zq_trading.Book.Types.{OrderBook}
use poly_zq_trading.Ledger.Types.{OrderId, OrderState, TradeStatus, Tables, Result, ok, err, finite}
use poly_zq_trading.Ledger.Queries.{same_id}
use poly_zq_trading.Ledger.Intents.{set_hedge_submission_state, accept_hedge_order}
use poly_zq_trading.Ledger.Verification.{Snapshot}
use poly_zq_trading.Ledger.Executions.{Fill, record_polymarket_execution}
use poly_zq_trading.Execution.Types.{Coordinator}
use poly_zq_trading.Execution.Safety.{invalidate_reconciliation}

pub record PreparedPolymarketOrder : Type 0 where
  pub token_id : ℕ
  pub limit_price : ℕ
  pub shares : ℕ
  pub idempotency_key : ℕ
  pub signed_payload : Option ℕ
  pub order_id : Option OrderId

pub record PolymarketOrderResult : Type 0 where
  pub order_id : OrderId
  pub status : OrderState
  pub simulated : Bool
  pub immediately_matched_shares : ℕ
  pub limit_price : ℕ

-- The waits of a round.
pub data Wait : Type 0 where
  lookup cancelling final_lookup preparing posting : Wait

pub record HedgeSettings : Type 0 where
  pub paper : Bool
  pub simulate_polymarket_fills : Bool
  pub routing_authorized : Bool
  pub polymarket_post_only : Bool
  pub polymarket_emergency_max_price : ℕ
  pub polymarket_hedge_reprice_seconds : ℕ
  pub polymarket_hedge_max_reprices : ℕ
  -- `_token_id("INC50PLUS")`
  pub inc50plus_token : ℕ

-- The venue, whose calls raise where they give nothing, and the rest of the program.
pub record HedgeSurroundings : Type 0 where
  pub now : ℕ
  pub get_order : Wait → OrderId → Option Snapshot
  pub cancel_order : OrderId → Bool
  pub sign : ℕ → ℕ → ℕ → Option (ℕ × OrderId)
  pub post : PreparedPolymarketOrder → Option PolymarketOrderResult
  pub meanwhile : Wait → Tables → Tables
  pub book : Bool → ℕ → Option OrderBook
  -- The keys `{obligation_id}:ATTEMPT:{attempt}` and `{order_id}:SIMULATED_FILL`.
  pub attempt_key : ℕ → ℕ → ℕ
  pub fill_key : OrderId → ℕ

-- An order that was sent, with the tables as they were then.
pub record Post : Type 0 where
  pub order : PreparedPolymarketOrder
  pub tables : Tables

-- The state of a round, with what it has sent to the venue.
pub record Round : Type 0 where
  pub own : Coordinator
  pub tables : Tables
  pub sent_at : List (OrderId × ℕ)
  pub posts : List Post
  pub cancels : List OrderId

pub data Outcome : Type 0 where
  returned raised : Round → Outcome

abbrev pub round_of : Outcome → Round
round_of (returned r) = r
round_of (raised r) = r

abbrev pub with_tables : Tables → Round → Round
with_tables t r = record r { tables = t }

unfoldable pub invalidate_polymarket_reconciliation : Coordinator → Coordinator
invalidate_polymarket_reconciliation c = invalidate_reconciliation (record c {
  venue_revision = c.venue_revision + 1;
  polymarket = record c.polymarket { snapshot_complete = false; positions_complete = false };
  last_signature = none;
})

-- `_hedge_submission_ready`
unfoldable pub hedge_submission_ready : HedgeSettings → Coordinator → Bool
hedge_submission_ready s c = c.recovery_ready || (s.paper && s.simulate_polymarket_fills)

abbrev pub prepared_order : ℕ → ℕ → ℕ → ℕ → Option ℕ → Option OrderId → PreparedPolymarketOrder
prepared_order token price shares key payload id = record {
  token_id = token;
  limit_price = price;
  shares = shares;
  idempotency_key = key;
  signed_payload = payload;
  order_id = id;
}

-- `PolymarketAdapter.prepare_hedge_limit`
unfoldable pub prepare_hedge_limit :
    HedgeSettings → HedgeSurroundings → ℕ → ℕ → ℕ → ℕ → Option PreparedPolymarketOrder
prepare_hedge_limit s w token price shares key =
    if not s.routing_authorized
      || (shares == 0)
      || (price == 0)
      || ltb s.polymarket_emergency_max_price price
      || s.polymarket_post_only
    then none
    else if s.simulate_polymarket_fills
    then some (prepared_order token price shares key none none)
    else elim (w.sign token price shares) [
      | none ↦ none
      | some (payload, id) ↦ some (prepared_order token price shares key (some payload) (some id))
    ]

-- The fill that a simulated venue reports at once.
abbrev pub immediate_fill : HedgeSurroundings → PolymarketOrderResult → Fill
immediate_fill w p = record {
  execution_id = w.fill_key p.order_id;
  order_id = p.order_id;
  quantity = finite (pos p.immediately_matched_shares);
  price = finite (pos p.limit_price);
  executed_at = w.now;
  trade_id = none;
  simulated = true;
  status = TradeStatus.unknown;
}

-- A session of the repository in a round; where it raises, nothing is written.
unfoldable pub after_session : Round → Result Tables → (Round → Outcome) → Outcome
after_session r (ok t) k = k (with_tables t r)
after_session r (err e) k = raised r

unfoldable pub after_answer : Round → Result (Tables × Bool) → (Bool → Round → Outcome) → Outcome
after_answer r (ok (t, b)) k = k b (with_tables t r)
after_answer r (err e) k = raised r

abbrev pub put_sent : OrderId → ℕ → List (OrderId × ℕ) → List (OrderId × ℕ)
put_sent id now sent = (id, now) ∷ filter (λ p. not (same_id p.0 id)) sent

unfoldable pub record_match : HedgeSurroundings → PolymarketOrderResult → Round → Outcome
record_match w p r =
    if ltb 0 p.immediately_matched_shares
    then after_answer r (record_polymarket_execution (immediate_fill w p) r.tables)
        (λ _ r'. returned r')
    else returned r

-- The outcome of the post, known or not.
unfoldable pub after_post : HedgeSurroundings → ℕ → Option PolymarketOrderResult → Round → Outcome
after_post w key none r =
    after_session r (set_hedge_submission_state key OrderState.outcome_unknown w.now r.tables)
      raised
after_post w key (some p) r =
    after_session r (accept_hedge_order key p.order_id p.status p.simulated r.tables)
      (λ r'. record_match w p (record r' { sent_at = put_sent p.order_id w.now r'.sent_at }))

unfoldable pub meanwhile_at : HedgeSurroundings → Wait → Round → Round
meanwhile_at w wait r = record r { tables = w.meanwhile wait r.tables }

unfoldable pub send : HedgeSurroundings → PreparedPolymarketOrder → Round → Outcome
send w p r = after_post w p.idempotency_key (w.post p) (
    meanwhile_at w posting
      (record r { posts = r.posts ++ ((record { order = p; tables = r.tables }) ∷ []) }))

unfoldable pub post_prepared : HedgeSurroundings → PreparedPolymarketOrder → Round → Outcome
post_prepared w p r =
    let r' = record r { own = invalidate_polymarket_reconciliation r.own } in
    after_session r'
      (set_hedge_submission_state p.idempotency_key OrderState.submitting w.now r'.tables)
      (send w p)
