-- ===== src/Repository/Entry.antt =====
-- The entry order before its fills: its intent with the batch, and the end of an unsent one.
use poly_zq_trading.Prelude.{
  ℕ, ◌*◌, List, [], ◌∷◌, ◌++◌, Option, none, some, Bool, true, false, ◌&&◌, ◌||◌, not, any, find,
  map, ◌==◌, if◌then◌else◌,
}
use poly_zq_trading.Analytics.Units.{one_share}
use poly_zq_trading.Domain.Enums.{BatchState, qualified, zq_submitted, complete}
use poly_zq_trading.Ledger.Types.{
  Venue, ibkr, venue_id, OrderState, Order, Batch, Tables, Result, ok, err, Number, RawRatio,
  decimal, RawRatios, table, SizingMethod, cme_rounded_settlement_v1, missing_batch,
  not_unsent_intent, missing_zq_intent, duplicate_row,
}
use poly_zq_trading.Ledger.Queries.{is_polymarket, same_id, find_batch, write}
use poly_zq_trading.Repository.Sizing.{saved_hedge_ratios}

pub record Entry : Type 0 where
  pub batch_id : ℕ
  pub order_id : ℕ
  pub contract_month : ℕ
  pub quantity : ℕ
  pub limit_price : ℕ
  pub snapshot_id : ℕ
  pub hedge_ratios : Option (List (ℕ × Number))

abbrev pub is_ibkr : Venue → Bool
is_ibkr v = not (is_polymarket v)

abbrev pub is_zq_order_of : ℕ → Order → Bool
is_zq_order_of batch_id o = is_ibkr o.venue && (o.batch_id == batch_id)

-- The ZQ order of a batch.
abbrev pub find_batch_order : ℕ → List Order → Option Order
find_batch_order batch_id = find (is_zq_order_of batch_id)

abbrev pub raw_ratio : ℕ × Number → ℕ × RawRatio
raw_ratio (token, n) = (token, decimal n)

abbrev pub saved_ratios : Option (List (ℕ × Number)) → Option RawRatios
saved_ratios none = none
saved_ratios (some ratios) = some (table (map raw_ratio ratios))

abbrev pub saved_method : Option (List (ℕ × Number)) → Option SizingMethod
saved_method none = none
saved_method (some _) = some cme_rounded_settlement_v1

unfoldable pub new_batch : Entry → Batch
new_batch e = record {
  batch_id = e.batch_id;
  state = qualified;
  zq_quantity = e.quantity;
  filled_quantity = 0;
  zq_order_id = some e.order_id;
  zq_order_status = some OrderState.intent;
  contract_month = some e.contract_month;
  limit_price = some e.limit_price;
  remaining_quantity = e.quantity * one_share;
  entry_snapshot_id = some e.snapshot_id;
  hedge_ratios = saved_ratios e.hedge_ratios;
  hedge_sizing_method = saved_method e.hedge_ratios;
  last_exec_id = none;
  abort_reason = none;
  cancel_reason = none;
  residual_minimum_net_profit = none;
  residual_required_profit = none;
  residual_return_on_capital_bps = none;
  reported_filled_quantity = none;
}

unfoldable pub new_zq_order : ℕ → Entry → Order
new_zq_order key e = record {
  batch_id = e.batch_id;
  venue = ibkr;
  venue_order_id = venue_id e.order_id;
  permanent_id = none;
  idempotency_key = key;
  state = OrderState.intent;
  quantity = e.quantity * one_share;
  price = e.limit_price;
  obligation_id = none;
  token_id = 0;
  attempt = 0;
  signed_payload = none;
  simulated = false;
  terminal_verified = false;
  venue_matched_shares = 0;
  last_submit_at = none;
  last_order_check = none;
  abort_reason = none;
}

-- The unique constraints of the orders table.
unfoldable pub is_fresh_zq_order : Order → List Order → Bool
is_fresh_zq_order o orders = not (
    any
      (λ p.
        (p.idempotency_key == o.idempotency_key)
        || (is_ibkr p.venue && same_id p.venue_order_id o.venue_order_id))
      orders)

-- `key` is the text of the batch id and `:IBKR:ENTRY`.
unfoldable pub add_batch : ℕ → Entry → Tables → Result Tables
add_batch key e t =
    if is_fresh_zq_order (new_zq_order key e) t.orders
    then ok (record t {
      batches = t.batches ++ (new_batch e ∷ []);
      orders = t.orders ++ (new_zq_order key e ∷ []);
    })
    else err duplicate_row

unfoldable pub create_zq_batch_intent : ℕ → Entry → Tables → Result Tables
create_zq_batch_intent key e t =
    elim (saved_hedge_ratios (saved_ratios e.hedge_ratios) (saved_method e.hedge_ratios)) [
      | err x ↦ err x
      | ok _ ↦ elim (find_batch e.batch_id t.batches) [ some _ ↦ ok t | none ↦ add_batch key e t ]
    ]

unfoldable pub batch_hedge_ratios : ℕ → Tables → Result (Option (List (ℕ × ℕ)))
batch_hedge_ratios batch_id t = elim (find_batch batch_id t.batches) [
  | none ↦ err missing_batch
  | some b ↦ saved_hedge_ratios b.hedge_ratios b.hedge_sizing_method
]

abbrev pub is_intent : OrderState → Bool
is_intent OrderState.intent = true
is_intent _ = false

abbrev pub is_intent_status : Option OrderState → Bool
is_intent_status none = false
is_intent_status (some s) = is_intent s

abbrev pub is_qualified : BatchState → Bool
is_qualified BatchState.qualified = true
is_qualified _ = false

-- Writing back the order and the batch that the queries found.
unfoldable pub write_entry : ℕ → Order → Batch → Tables → Tables
write_entry batch_id o b t = record t {
  orders = write (is_zq_order_of batch_id) o t.orders;
  batches = write (λ c. c.batch_id == batch_id) b t.batches;
}

unfoldable pub abandon_zq_intent : ℕ → ℕ → Tables → Result Tables
abandon_zq_intent batch_id reason t = elim (find_batch batch_id t.batches) [
  | none ↦ err not_unsent_intent
  | some b ↦ elim (find_batch_order batch_id t.orders) [
    | none ↦ err not_unsent_intent
    | some o ↦
        if is_intent o.state
        then ok (
            write_entry batch_id
              (record o { state = OrderState.aborted; abort_reason = some reason })
              (record b {
                state = complete;
                zq_order_status = some OrderState.aborted;
                remaining_quantity = 0;
                abort_reason = some reason;
              })
              t)
        else err not_unsent_intent
  ]
]

unfoldable pub mark_zq_submitted : ℕ → Tables → Result Tables
mark_zq_submitted batch_id t = elim (find_batch batch_id t.batches) [
  | none ↦ err missing_zq_intent
  | some b ↦ elim (find_batch_order batch_id t.orders) [
    | none ↦ err missing_zq_intent
    | some o ↦ ok (
        write_entry batch_id
          (record o { state = if is_intent o.state then OrderState.submitted else o.state })
          (record b {
            state = if is_qualified b.state then zq_submitted else b.state;
            zq_order_status =
                if is_intent_status b.zq_order_status
                then some OrderState.submitted
                else b.zq_order_status;
          })
          t)
  ]
]
