-- ===== src/Repository/Status.antt =====
-- The statuses that the broker reports for a ZQ order, the cancellation of its rest, and the
-- queries on what is left to hedge.
use poly_zq_trading.Prelude.{
  ℕ, ◌-◌, List, [], ◌∷◌, Option, none, some, Bool, true, false, ◌&&◌, not, filter, length, max, ltb,
  ◌==◌, if◌then◌else◌,
}
use poly_zq_trading.Prelude.Int.{ℤ, pos, pos_part}
use poly_zq_trading.Domain.Enums.{BatchState, cancel_pending}
use poly_zq_trading.Ledger.Types.{OrderState, OrderId, Order, Obligation, Batch, Tables}
use poly_zq_trading.Ledger.Queries.{find_batch, write}
use poly_zq_trading.Ledger.Refresh.{refresh_batch_state}
use poly_zq_trading.Repository.Entry.{is_ibkr}
use poly_zq_trading.Repository.Fills.{is_zq_order, find_zq_order}

pub record StatusReport : Type 0 where
  pub order_id : ℕ
  pub status : OrderState
  pub filled : Option ℤ
  pub remaining : Option ℤ
  pub permanent_id : Option ℕ

-- The `terminal` set.
abbrev pub is_final : OrderState → Bool
is_final OrderState.filled = true
is_final OrderState.cancelled = true
is_final OrderState.canceled = true
is_final OrderState.api_cancelled = true
is_final OrderState.inactive = true
is_final OrderState.aborted = true
is_final _ = false

abbrev pub is_filled : OrderState → Bool
is_filled OrderState.filled = true
is_filled _ = false

abbrev pub or_old : Option ℕ → Option ℕ → Option ℕ
or_old (some id) old = some id
or_old none old = old

-- A fill report without a quantity fills the whole order.
abbrev pub filled_of : StatusReport → ℕ → Option ℤ
filled_of s quantity = elim s.filled [
  | some n ↦ some n
  | none ↦ if is_filled s.status then some (pos quantity) else none
]

abbrev pub or_zero : Option ℕ → ℕ
or_zero none = 0
or_zero (some n) = n

-- A reported fill never falls.
abbrev pub raise_reported : Option ℕ → Option ℤ → Option ℕ
raise_reported old none = old
raise_reported old (some n) = some (max (or_zero old) (pos_part n))

abbrev pub new_remaining : ℕ → Option ℤ → ℕ
new_remaining old none = old
new_remaining old (some n) = pos_part n

unfoldable pub report_batch : StatusReport → ℕ → Batch → Batch
report_batch s quantity b = record b {
  zq_order_status = some s.status;
  remaining_quantity = new_remaining b.remaining_quantity s.remaining;
  reported_filled_quantity = raise_reported b.reported_filled_quantity (filled_of s quantity);
}

unfoldable pub report_order : StatusReport → Order → Order
report_order s o = record o {
  state = s.status;
  permanent_id = or_old s.permanent_id o.permanent_id;
}

-- The report on an order that it may change.
unfoldable pub apply_report : StatusReport → Order → Tables → Tables
apply_report s o t =
    let orders = write (is_zq_order s.order_id) (report_order s o) t.orders in
    elim (find_batch o.batch_id t.batches) [
      | none ↦ record t { orders = orders }
      | some b ↦ refresh_batch_state b.batch_id (record t {
        orders = orders;
        batches = write (λ c. c.batch_id == o.batch_id) (report_batch s o.quantity b) t.batches;
      })
    ]

unfoldable pub update_zq_order_status : StatusReport → Tables → Tables × Option OrderState
update_zq_order_status s t = elim (find_zq_order s.order_id t.orders) [
  | none ↦ (t, none)
  | some o ↦
      if is_final o.state && not (is_final s.status)
      then (t, some o.state)
      else (apply_report s o t, some s.status)
]

pub record Residual : Type 0 where
  pub batch_id : ℕ
  pub reason : ℕ
  pub residual_minimum_net_profit : Option ℤ
  pub required_profit : ℤ
  pub residual_return_bps : Option ℤ

abbrev pub is_cancel_pending : BatchState → Bool
is_cancel_pending BatchState.cancel_pending = true
is_cancel_pending _ = false

unfoldable pub cancel_batch : Residual → Batch → Batch
cancel_batch r b = record b {
  state = cancel_pending;
  cancel_reason = some r.reason;
  residual_minimum_net_profit = r.residual_minimum_net_profit;
  residual_required_profit = some r.required_profit;
  residual_return_on_capital_bps = r.residual_return_bps;
}

unfoldable pub set_batch_cancel_pending : Residual → Tables → Tables × Bool
set_batch_cancel_pending r t = elim (find_batch r.batch_id t.batches) [
  | none ↦ (t, false)
  | some b ↦ if is_cancel_pending b.state then (t, false) else (
    record t { batches = write (λ c. c.batch_id == r.batch_id) (cancel_batch r b) t.batches },
    true,
  )
]

-- `normalize_active_batch_state`: the loop over the batches that the session read.
unfoldable pub refresh_batches : List Batch → Tables → Tables
refresh_batches [] t = t
refresh_batches (b ∷ bs) t = refresh_batches bs (refresh_batch_state b.batch_id t)

unfoldable pub normalize_active_batch_state : Tables → Tables
normalize_active_batch_state t = refresh_batches t.batches t

pub record ZqOrderProgress : Type 0 where
  pub order_id : OrderId
  pub state : OrderState
  pub quantity : ℕ
  pub executed : ℕ
  pub reported : ℕ
  pub contract_month : Option ℕ

unfoldable pub progress_of : Order → Batch → ZqOrderProgress
progress_of o b = record {
  order_id = o.venue_order_id;
  state = o.state;
  quantity = o.quantity;
  executed = b.filled_quantity;
  reported = or_zero b.reported_filled_quantity;
  contract_month = b.contract_month;
}

-- The join of the ZQ orders with their batches.
unfoldable pub progress_rows : List Batch → List Order → List ZqOrderProgress
progress_rows batches [] = []
progress_rows batches (o ∷ os) =
    let rest = progress_rows batches os in
    elim (find_batch o.batch_id batches) [
      | none ↦ rest
      | some b ↦ if is_ibkr o.venue then progress_of o b ∷ rest else rest
    ]

unfoldable pub ibkr_order_progress : Tables → List ZqOrderProgress
ibkr_order_progress t = progress_rows t.batches t.orders

abbrev pub deficit_shares : Obligation → ℕ
deficit_shares ob = ob.due_shares - ob.confirmed_shares

unfoldable pub pending_obligations : Tables → List Obligation
pending_obligations t = filter (λ ob. ltb 0 (deficit_shares ob)) t.obligations

unfoldable pub unresolved_hedge_obligation_count : Tables → ℕ
unresolved_hedge_obligation_count t =
    length (filter (λ ob. ltb ob.confirmed_shares ob.due_shares) t.obligations)
