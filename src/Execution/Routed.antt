-- ===== src/Execution/Routed.antt =====
-- A round of `_route_one_hedge` as a whole.
use poly_zq_trading.Prelude.{ℕ, ◌+◌, ◌<◌, ◌≤◌, List, some, Bool, true, All, ◌≡◌, ◌⊎◌}
use poly_zq_trading.Ledger.Types.{OrderState, ok, Order, Obligation, Tables}
use poly_zq_trading.Ledger.Intents.Reservation.{IsOrderFor}
use poly_zq_trading.Ledger.Intents.{create_hedge_order_intent, set_hedge_submission_state}
use poly_zq_trading.Ledger.Queries.{order_resolved, find_obligation}
use poly_zq_trading.Execution.Posting.{Post, HedgeSettings, HedgeSurroundings}
use poly_zq_trading.Execution.Placing.{intent_of}
use poly_zq_trading.Execution.Justified.{IsReplay, IsNew, Among, may_submit}

-- What a round may send for an obligation whose orders it has read: only where it may submit, an
-- order that was stored before, or a new one.
abbrev pub Reason : HedgeSettings → HedgeSurroundings → Bool → ℕ → List Order → Post → Type 0
Reason s w ready id os x =
    (may_submit s ready ≡ true) × (Among (IsReplay w.now x.order) os ⊎ IsNew id w.now x)

-- A new order: its intent was granted in tables where its obligation was due that much more and had
-- no unresolved order, and then marked as being sent, which gave the tables that it is sent with.
pub record IsReserved (id now : ℕ) (x : Post) : Type 0 where
  pub attempt : ℕ
  pub tables : Tables
  pub reserved : Tables
  pub granted :
      create_hedge_order_intent (intent_of id attempt x.order) tables ≡ ok (reserved, true)
  pub marked :
      set_hedge_submission_state x.order.idempotency_key OrderState.submitting now reserved
      ≡ ok x.tables
  pub obligation : Obligation
  pub found : find_obligation id tables.obligations ≡ some obligation
  pub positive : 0 < x.order.shares
  pub in_bounds :
      obligation.confirmed_shares + obligation.pending_shares + x.order.shares
      ≤ obligation.due_shares
  pub all_resolved : All (λ o. ¬ IsOrderFor id o ⊎ (order_resolved o ≡ true)) tables.orders
