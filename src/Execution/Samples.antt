-- ===== src/Execution/Samples.antt =====
-- A coordinator after a complete read, a ledger that agrees with it, and a hedge to route.
use poly_zq_trading.Prelude.{◌+◌, ◌*◌, [], ◌∷◌, none, some, true, false}
use poly_zq_trading.Prelude.Int.{pos}
use poly_zq_trading.Domain.Enums.{BatchState}
use poly_zq_trading.Maintenance.Hold.{new_hold}
use poly_zq_trading.Book.Types.{OrderBook}
use poly_zq_trading.Ledger.Types.{
  ibkr, venue_id, OrderState, TradeStatus, ObligationState, Order, Execution, Obligation, Batch,
}
use poly_zq_trading.Execution.Types.{Coordinator, unknown, not_confirmed}
use poly_zq_trading.Execution.Callbacks.{ReconcileSettings, Clocks, LedgerStore}
use poly_zq_trading.Execution.Reconcile.{Surroundings}
use poly_zq_trading.Execution.Posting.{HedgeSettings, HedgeSurroundings, Round}

abbrev pub start : Coordinator
start = record {
  ibkr = record {
    complete = record {
      open_orders = true;
      completed_orders = true;
      executions = true;
      positions = true;
    };
    reconciliation_in_progress = false;
    refresh_started = none;
    refresh_ambiguous = false;
    snapshot_at = some 95;
    request_id = none;
    refresh_serial = 1;
    completed_refresh_serial = 1;
    refresh_requested = false;
    connection_ready = true;
    open_order_ids = 2 ∷ [];
    foreign_orders = [];
    other_month_orders = [];
    unscoped_status_orders = [];
    unknown_orders = [];
    identity_conflicts = [];
    terminal_conflicts = [];
    refresh_conflicts = [];
    positions = (1, pos 100000000) ∷ [];
    matched_zq = none;
    callback_positions = none;
  };
  gap = record { gap = none; deadline = none; expired = false };
  polymarket = record {
    snapshot_complete = true;
    positions_complete = true;
    snapshot_at = some 96;
    open_order_ids = [];
    positions = [];
  };
  maintenance = new_hold;
  recovery_ready = false;
  halt_requested = false;
  venue_revision = 4;
  last_ledger_revision = none;
  last_reconciled_venue_revision = none;
  last_signature = none;
  published = record {
    clean = false;
    status = unknown;
    method = not_confirmed;
    paused = false;
    armed = true;
    pause_reason = false;
    zq_position = pos 100000000;
  };
  effects = [];
}

-- Two contracts are ordered, and one is filled.
abbrev pub batch : Batch
batch = record {
  batch_id = 1;
  state = BatchState.zq_partial;
  zq_quantity = 2;
  filled_quantity = 100000000;
  zq_order_id = some 2;
  zq_order_status = some OrderState.submitted;
  contract_month = some 202611;
  limit_price = some 96;
  remaining_quantity = 100000000;
  entry_snapshot_id = some 1;
  hedge_ratios = none;
  hedge_sizing_method = none;
  last_exec_id = some 3;
  abort_reason = none;
  cancel_reason = none;
  residual_minimum_net_profit = none;
  residual_required_profit = none;
  residual_return_on_capital_bps = none;
  reported_filled_quantity = some 100000000;
}

abbrev pub zq_order : Order
zq_order = record {
  batch_id = 1;
  venue = ibkr;
  venue_order_id = venue_id 2;
  permanent_id = none;
  idempotency_key = 20;
  state = OrderState.submitted;
  quantity = 200000000;
  price = 96;
  obligation_id = none;
  token_id = 0;
  attempt = 0;
  signed_payload = none;
  simulated = false;
  terminal_verified = false;
  venue_matched_shares = 0;
  last_submit_at = none;
  last_order_check = none;
  abort_reason = none;
}

abbrev pub zq_fill : Execution
zq_fill = record {
  batch_id = 1;
  venue = ibkr;
  execution_id = 3;
  venue_order_id = venue_id 2;
  quantity = 100000000;
  price = 96;
  executed_at = 90;
  status = TradeStatus.confirmed;
  terminal_failed = false;
  conflicting_status = none;
  simulated = false;
  token_id = 0;
  trade_id = none;
  allocated_shares = 0;
}

abbrev pub ledger : LedgerStore
ledger = record {
  tables = record {
    simulate_polymarket_fills = false;
    orders = zq_order ∷ [];
    executions = zq_fill ∷ [];
    obligations = [];
    batches = batch ∷ [];
  };
  events = [];
  opening = [];
}

abbrev pub settings : ReconcileSettings
settings = record {
  ibkr_zq_contract_month = 202611;
  simulate_polymarket_fills = false;
  ibkr_callback_settle_seconds = 10;
  ibkr_account_refresh_timeout_seconds = 30;
  reconciliation_max_age_seconds = 15;
}

abbrev pub clocks : Clocks
clocks = record { loop_time = 1000; now = 100 }

abbrev pub around : Surroundings
around = record {
  situation = record {
    alerts = [];
    kill_switch = false;
    event_queue_overflowed = false;
    active_batch = true;
  };
  venue_revision = 4;
  ledger_revision = 8;
  signature = λ d. 5;
}

abbrev pub leg : Obligation
leg = record {
  obligation_id = 7;
  batch_id = 1;
  exec_id = 3;
  token_id = 6;
  due_shares = 4000;
  confirmed_shares = 0;
  state = ObligationState.pending;
  actual_confirmed_shares = 0;
  pending_shares = 0;
  excess_shares = 0;
  order_attempts = [];
  latest_order_id = none;
  latest_idempotency_key = none;
  latest_limit_price = none;
  reprice_count = 0;
}

abbrev pub ask_book : OrderBook
ask_book = record {
  bids = [];
  asks = record { price = 3000000000; size = 9000 } ∷ [];
  tick_size = some 100000000;
}

abbrev pub hedging : HedgeSettings
hedging = record {
  paper = false;
  simulate_polymarket_fills = false;
  routing_authorized = true;
  polymarket_post_only = false;
  polymarket_emergency_max_price = 9000000000;
  polymarket_hedge_reprice_seconds = 20;
  polymarket_hedge_max_reprices = 5;
  inc50plus_token = 8;
}

-- The venue takes each order and leaves it open.
abbrev pub venue : HedgeSurroundings
venue = record {
  now = 100;
  get_order = λ wait id. none;
  cancel_order = λ id. true;
  sign = λ token price shares. some (31, venue_id 41);
  post = λ p. some (record {
    order_id = venue_id 41;
    status = OrderState.live;
    simulated = false;
    immediately_matched_shares = 0;
    limit_price = p.limit_price;
  });
  meanwhile = λ wait t. t;
  book = λ again token. some ask_book;
  attempt_key = λ id attempt. 1000 * id + attempt;
  fill_key = λ id. 0;
}

abbrev pub round : Round
round = record {
  own = record start { recovery_ready = true };
  tables = record ledger.tables { obligations = leg ∷ [] };
  sent_at = [];
  posts = [];
  cancels = [];
}
