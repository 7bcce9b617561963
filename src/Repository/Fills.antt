-- ===== src/Repository/Fills.antt =====
-- `record_ibkr_execution_and_obligations`: a ZQ execution and the hedges that it owes.
use poly_zq_trading.Prelude.{
  ℕ, ◌+◌, ◌-◌, ◌*◌, List, [], ◌∷◌, ◌++◌, Option, none, some, Bool, false, ◌&&◌, ◌||◌, any, find,
  map, ltb, ◌==◌, if◌then◌else◌,
}
use poly_zq_trading.Prelude.Int.{ℤ, pos, negsuc}
use poly_zq_trading.Analytics.Units.{one_share}
use poly_zq_trading.Analytics.Sizing.{incremental_hedge_shares}
use poly_zq_trading.Domain.Enums.{zq_partial}
use poly_zq_trading.Ledger.Types.{
  ibkr, venue_id, TradeStatus, ObligationState, Order, Execution, Obligation, Batch, Tables, Result,
  ok, err, missing_batch, outside_batch, duplicate_row,
}
use poly_zq_trading.Ledger.Queries.{same_id, find_batch, write}
use poly_zq_trading.Repository.Sizing.{saved_hedge_ratios}
use poly_zq_trading.Repository.Entry.{is_ibkr}

-- An execution as it comes in, with the shares of each leg for a batch that saved no ratios.
pub record ZqFill : Type 0 where
  pub order_id : ℕ
  pub execution_id : ℕ
  pub quantity : ℤ
  pub price : ℕ
  pub executed_at : ℕ
  pub token_shares : List (ℕ × ℕ)

abbrev pub is_zq_execution : ℕ → Execution → Bool
is_zq_execution execution_id e = is_ibkr e.venue && (e.execution_id == execution_id)

abbrev pub find_zq_execution : ℕ → List Execution → Option Execution
find_zq_execution execution_id = find (is_zq_execution execution_id)

abbrev pub is_zq_order : ℕ → Order → Bool
is_zq_order order_id o = is_ibkr o.venue && same_id o.venue_order_id (venue_id order_id)

abbrev pub find_zq_order : ℕ → List Order → Option Order
find_zq_order order_id = find (is_zq_order order_id)

-- The quantity of a fill that the batch has room for.
unfoldable pub fitting : ℤ → Batch → Option ℕ
fitting (pos n) b =
    if (n == 0) || ltb (b.zq_quantity * one_share) (b.filled_quantity + n) then none else some n
fitting (negsuc n) b = none

abbrev pub leg_due : ℕ → ℕ → ℕ × ℕ → ℕ × ℕ
leg_due filled quantity (token, ratio) = (token, incremental_hedge_shares ratio filled quantity)

-- The saved ratios of the batch decide the shares, where it has any.
unfoldable pub shares_due : Batch → ℕ → List (ℕ × ℕ) → Result (List (ℕ × ℕ))
shares_due b quantity token_shares =
    elim (saved_hedge_ratios b.hedge_ratios b.hedge_sizing_method) [
      | err x ↦ err x
      | ok none ↦ ok token_shares
      | ok (some ratios) ↦ ok (map (leg_due b.filled_quantity quantity) ratios)
    ]

unfoldable pub zq_execution : ZqFill → ℕ → Batch → Execution
zq_execution f quantity b = record {
  batch_id = b.batch_id;
  venue = ibkr;
  execution_id = f.execution_id;
  venue_order_id = venue_id f.order_id;
  quantity = quantity;
  price = f.price;
  executed_at = f.executed_at;
  status = TradeStatus.unknown;
  terminal_failed = false;
  conflicting_status = none;
  simulated = false;
  token_id = 0;
  trade_id = none;
  allocated_shares = 0;
}

unfoldable pub fill_batch : ℕ → ℕ → Batch → Batch
fill_batch execution_id quantity b = record b {
  filled_quantity = b.filled_quantity + quantity;
  state = zq_partial;
  remaining_quantity = b.zq_quantity * one_share - (b.filled_quantity + quantity);
  last_exec_id = some execution_id;
}

-- Adding rows under the unique constraint of their id.
unfoldable pub append_obligations : List Obligation → List Obligation → Result (List Obligation)
append_obligations [] rows = ok rows
append_obligations (o ∷ os) rows =
    let rest = append_obligations os (rows ++ (o ∷ [])) in
    if any (λ p. p.obligation_id == o.obligation_id) rows then err duplicate_row else rest

-- `key` is the text of a batch id, an execution id and a token, joined by colons.
module _ (key : ℕ → ℕ → ℕ → ℕ) where
  unfoldable pub zq_obligation : ℕ → ℕ → ℕ × ℕ → Obligation
  zq_obligation batch_id execution_id (token, due) = record {
    obligation_id = key batch_id execution_id token;
    batch_id = batch_id;
    exec_id = execution_id;
    token_id = token;
    due_shares = due;
    confirmed_shares = 0;
    state = ObligationState.pending;
    actual_confirmed_shares = 0;
    pending_shares = 0;
    excess_shares = 0;
    order_attempts = [];
    latest_order_id = none;
    latest_idempotency_key = none;
    latest_limit_price = none;
    reprice_count = 0;
  }

  unfoldable pub add_fill :
      ZqFill → ℕ → Batch → List (ℕ × ℕ) → Tables → Result (Tables × List Obligation)
  add_fill f quantity b shares t =
      let rows = map (zq_obligation b.batch_id f.execution_id) shares in
      elim (append_obligations rows t.obligations) [
        | err x ↦ err x
        | ok obligations ↦ ok (
          record t {
            executions = t.executions ++ (zq_execution f quantity b ∷ []);
            obligations = obligations;
            batches =
                write (λ c. c.batch_id == b.batch_id) (fill_batch f.execution_id quantity b)
                  t.batches;
          },
          rows,
        )
      ]

  unfoldable pub fill_found : ZqFill → Batch → Tables → Result (Tables × List Obligation)
  fill_found f b t = elim (fitting f.quantity b) [
    | none ↦ err outside_batch
    | some quantity ↦ elim (shares_due b quantity f.token_shares) [
      | err x ↦ err x
      | ok shares ↦ add_fill f quantity b shares t
    ]
  ]

  unfoldable pub record_ibkr_execution_and_obligations :
      ZqFill → Tables → Result (Tables × List Obligation)
  record_ibkr_execution_and_obligations f t = elim (find_zq_execution f.execution_id t.executions) [
    | some _ ↦ ok (t, [])
    | none ↦ elim (find_zq_order f.order_id t.orders) [
      | none ↦ ok (t, [])
      | some o ↦ elim (find_batch o.batch_id t.batches) [
        | none ↦ err missing_batch
        | some b ↦ fill_found f b t
      ]
    ]
  ]
