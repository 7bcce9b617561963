-- ===== src/Execution/Account.antt =====
-- The reads of the broker's account: `begin_ibkr_reconciliation`, `check_ibkr_refresh_timeout`, and
-- what `handle_ibkr_event` does for a connection, an order and the end of a read.
use poly_zq_trading.Prelude.{
  ℕ, ◌+◌, List, [], ◌∷◌, Option, none, some, Bool, true, false, ◌&&◌, not, filter, contains, ◌==◌,
  if◌then◌else◌,
}
use poly_zq_trading.Prelude.Int.{ℤ}
use poly_zq_trading.Maintenance.Hold.{observe_interruption}
use poly_zq_trading.Ledger.Types.{OrderState}
use poly_zq_trading.Repository.Status.{is_final}
use poly_zq_trading.Execution.Types.{Markers, all_complete, IbkrAccount, Coordinator}
use poly_zq_trading.Execution.Safety.{invalidate_reconciliation}
use poly_zq_trading.Execution.Callbacks.{ReconcileSettings, Clocks}
use poly_zq_trading.Execution.Reconcile.{is_timed_out}

-- `set.add` and `set.discard`
abbrev pub add_member : ℕ → List ℕ → List ℕ
add_member x xs = if contains x xs then xs else x ∷ xs

abbrev pub discard : ℕ → List ℕ → List ℕ
discard x = filter (λ y. not (y == x))

abbrev pub with_ibkr : IbkrAccount → Coordinator → Coordinator
with_ibkr a c = record c { ibkr = a }

abbrev pub no_markers : Markers
no_markers = record {
  open_orders = false;
  completed_orders = false;
  executions = false;
  positions = false;
}

-- A read starts, where none is under way and the last one is not in doubt. It raises where there
-- is no result.
unfoldable pub start_read : Clocks → Option ℕ → Coordinator → Coordinator
start_read t request_id c = record (invalidate_reconciliation c) {
  ibkr = record c.ibkr {
    refresh_requested = false;
    request_id = request_id;
    refresh_started = some t.loop_time;
    refresh_serial = c.ibkr.refresh_serial + 1;
    refresh_conflicts = [];
    open_order_ids = [];
    foreign_orders = [];
    unscoped_status_orders = [];
    unknown_orders = [];
    complete = no_markers;
    reconciliation_in_progress = true;
    snapshot_at = none;
    positions = [];
  };
  last_signature = none;
}

unfoldable pub begin_ibkr_reconciliation :
    Clocks → Option ℕ → Coordinator → Option (Bool × Coordinator)
begin_ibkr_reconciliation t request_id c =
    if c.ibkr.refresh_ambiguous
    then none
    else if c.ibkr.reconciliation_in_progress
    then some (false, c)
    else some (true, start_read t request_id c)

abbrev pub mark_ibkr_refresh_timeout : Coordinator → Coordinator
mark_ibkr_refresh_timeout c = with_ibkr (record c.ibkr { refresh_ambiguous = true }) c

-- An end marker that comes late leaves the read in doubt.
unfoldable pub check_end : ReconcileSettings → Clocks → Coordinator → Coordinator
check_end s t c = if is_timed_out s t c.ibkr.refresh_started then mark_ibkr_refresh_timeout c else c

-- `CONNECTED`, `DISCONNECTED` and the other values of a connection's status.
pub data ConnectionReport : Type 0 where
  connected disconnected other_status : ConnectionReport

abbrev pub observe_loss : ℕ → ConnectionReport → Coordinator → Coordinator
observe_loss now disconnected c = record c { maintenance = observe_interruption now c.maintenance }
observe_loss now _ c = c

unfoldable pub lose_connection : Clocks → ConnectionReport → Coordinator → Coordinator
lose_connection t status c = record (observe_loss t.now status c) {
  venue_revision = c.venue_revision + 1;
  recovery_ready = false;
  ibkr = record c.ibkr {
    other_month_orders = [];
    unscoped_status_orders = [];
    connection_ready = false;
    complete = no_markers;
    reconciliation_in_progress = false;
    refresh_started = none;
    matched_zq = none;
    callback_positions = none;
    refresh_ambiguous = false;
  };
}

unfoldable pub observe_connection : Clocks → ConnectionReport → Coordinator → Coordinator
observe_connection t connected c = with_ibkr (record c.ibkr { connection_ready = true }) c
observe_connection t disconnected c = lose_connection t disconnected c
observe_connection t other_status c = lose_connection t other_status c

abbrev pub is_final_result : Option OrderState → Bool
is_final_result none = false
is_final_result (some state) = is_final state

abbrev pub is_unrecorded : Option OrderState → Bool
is_unrecorded none = true
is_unrecorded (some state) = false

abbrev pub set_member : Bool → ℕ → List ℕ → List ℕ
set_member true x xs = add_member x xs
set_member false x xs = discard x xs

-- An order that the venue reports as working although the ledger has it finished.
abbrev pub is_conflicting : OrderState → Option OrderState → Bool
is_conflicting status effective = is_final_result effective && not (is_final status)

unfoldable pub observe_conflict : ℕ → OrderState → Option OrderState → IbkrAccount → IbkrAccount
observe_conflict order_id status effective a =
    if is_conflicting status effective
    then record a {
      terminal_conflicts = add_member order_id a.terminal_conflicts;
      refresh_conflicts =
          if a.reconciliation_in_progress
          then add_member order_id a.refresh_conflicts
          else a.refresh_conflicts;
    }
    else if is_final status
    then record a { terminal_conflicts = discard order_id a.terminal_conflicts }
    else a

-- `_observe_ibkr_order`
unfoldable pub observe_ibkr_order : ℕ → OrderState → Option OrderState → IbkrAccount → IbkrAccount
observe_ibkr_order order_id status effective a =
    observe_conflict order_id status effective (record a {
      unknown_orders =
          set_member (is_unrecorded effective && not (is_final status)) order_id a.unknown_orders;
      open_order_ids =
          set_member (not (is_final status) && not (is_final_result effective)) order_id
            a.open_order_ids;
    })

abbrev pub with_markers : Markers → Coordinator → Coordinator
with_markers m c = with_ibkr (record c.ibkr { complete = m }) c

-- A complete read also accounts for positions that are absent from it.
abbrev pub replace_positions : List (ℕ × ℤ) → Option (List (ℕ × ℤ)) → Option (List (ℕ × ℤ))
replace_positions ps none = none
replace_positions ps (some _) = some ps

unfoldable pub end_positions : Coordinator → Coordinator
end_positions c =
    with_ibkr
      (record c.ibkr {
        complete = record c.ibkr.complete { positions = true };
        callback_positions = replace_positions c.ibkr.positions c.ibkr.callback_positions;
      })
      c

-- The read is complete with the last of its end markers.
unfoldable pub complete_read : Clocks → Coordinator → Coordinator
complete_read t c =
    if c.ibkr.reconciliation_in_progress && all_complete c.ibkr.complete
    then with_ibkr
        (record c.ibkr {
          snapshot_at = some t.now;
          reconciliation_in_progress = false;
          refresh_started = none;
          completed_refresh_serial = c.ibkr.refresh_serial;
          terminal_conflicts = c.ibkr.refresh_conflicts;
        })
        c
    else c
