-- ===== src/Ledger/Types.antt =====
-- The rows of the ledger, with the keys of their `details` as fields.
use poly_zq_trading.Prelude.{ℕ, List, Option, Bool}
use poly_zq_trading.Prelude.Int.{ℤ}
use poly_zq_trading.Domain.Enums.{BatchState}

pub data Venue : Type 0 where
  ibkr polymarket : Venue

-- `venue_order_id`, by its prefix: `INTENT:` and the key of an order with no id yet, `SIM-` and
-- a number of a simulated one, or the id that the venue gave.
pub data OrderId : Type 0 where
  intent_id sim_id venue_id : ℕ → OrderId

-- An order's state, or the status of the ZQ order of a batch, in upper case; `canceled` and
-- `api_cancelled` are the broker's own spellings, and `other` is any text that the code does not
-- name.
pub data OrderState : Type 0 where
  intent submitting outcome_unknown cancel_pending cancelled filled matched rejected expired unknown
        submitted canceled api_cancelled inactive aborted live partial :
      OrderState
  other : ℕ → OrderState

-- The `status` of an execution.
pub data TradeStatus : Type 0 where
  matched mined retrying confirmed failed conflict unknown : TradeStatus
  other : ℕ → TradeStatus

pub data ObligationState : Type 0 where
  pending order_intent excess order_unresolved hedged settlement_pending : ObligationState

-- A `Decimal` that comes from outside: a number of units, or none that is finite.
pub data Number : Type 0 where
  finite : ℤ → Number
  not_finite : Number

-- A saved ratio: `Decimal(str(value))`, where it is one.
pub data RawRatio : Type 0 where
  decimal : Number → RawRatio
  no_decimal : RawRatio

-- The JSON value under `hedge_ratios`: a table from tokens to ratios, or some other value.
pub data RawRatios : Type 0 where
  table : List (ℕ × RawRatio) → RawRatios
  no_table : RawRatios

pub data SizingMethod : Type 0 where
  cme_rounded_settlement_v1 : SizingMethod
  other : ℕ → SizingMethod

pub record Order : Type 0 where
  pub batch_id : ℕ
  pub venue : Venue
  pub venue_order_id : OrderId
  pub permanent_id : Option ℕ
  pub idempotency_key : ℕ
  pub state : OrderState
  pub quantity : ℕ
  pub price : ℕ
  pub obligation_id : Option ℕ
  pub token_id : ℕ
  pub attempt : ℕ
  pub signed_payload : Option ℕ
  pub simulated : Bool
  pub terminal_verified : Bool
  pub venue_matched_shares : ℕ
  pub last_submit_at : Option ℕ
  pub last_order_check : Option ℕ
  pub abort_reason : Option ℕ

pub record Execution : Type 0 where
  pub batch_id : ℕ
  pub venue : Venue
  pub execution_id : ℕ
  pub venue_order_id : OrderId
  pub quantity : ℕ
  pub price : ℕ
  pub executed_at : ℕ
  pub status : TradeStatus
  pub terminal_failed : Bool
  pub conflicting_status : Option TradeStatus
  pub simulated : Bool
  pub token_id : ℕ
  pub trade_id : Option ℕ
  pub allocated_shares : ℕ

pub record Obligation : Type 0 where
  pub obligation_id : ℕ
  pub batch_id : ℕ
  pub exec_id : ℕ
  pub token_id : ℕ
  pub due_shares : ℕ
  pub confirmed_shares : ℕ
  pub state : ObligationState
  pub actual_confirmed_shares : ℕ
  pub pending_shares : ℕ
  pub excess_shares : ℕ
  pub order_attempts : List OrderId
  pub latest_order_id : Option OrderId
  pub latest_idempotency_key : Option ℕ
  pub latest_limit_price : Option ℕ
  pub reprice_count : ℕ

pub record Batch : Type 0 where
  pub batch_id : ℕ
  pub state : BatchState
  pub zq_quantity : ℕ
  pub filled_quantity : ℕ
  pub zq_order_id : Option ℕ
  pub zq_order_status : Option OrderState
  pub contract_month : Option ℕ
  pub limit_price : Option ℕ
  pub remaining_quantity : ℕ
  pub entry_snapshot_id : Option ℕ
  pub hedge_ratios : Option RawRatios
  pub hedge_sizing_method : Option SizingMethod
  pub last_exec_id : Option ℕ
  pub abort_reason : Option ℕ
  pub cancel_reason : Option ℕ
  pub residual_minimum_net_profit : Option ℤ
  pub residual_required_profit : Option ℤ
  pub residual_return_on_capital_bps : Option ℤ
  pub reported_filled_quantity : Option ℕ

pub record Tables : Type 0 where
  pub simulate_polymarket_fills : Bool
  pub orders : List Order
  pub executions : List Execution
  pub obligations : List Obligation
  pub batches : List Batch

-- What the operations raise.
pub data Error : Type 0 where
  unsigned_intent signed_in_simulation missing_order_hash missing_obligation exceeds_obligation
        missing_intent wrong_provenance wrong_order_hash invalid_quantity conflicting_payload
        missing_key duplicate_row invalid_sizing missing_batch not_unsent_intent missing_zq_intent
        outside_batch :
      Error

pub data Result {ℓ} (A : Type ℓ) : Type ℓ where
  ok : A → Result A
  err : Error → Result A
