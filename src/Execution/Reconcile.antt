-- ===== src/Execution/Reconcile.antt =====
-- `_reconcile_ledger_snapshot`: the ledger against what the venues report.
use poly_zq_trading.Prelude.{
  ℕ, ◌+◌, Option, none, some, Bool, true, false, ◌&&◌, ◌||◌, not, all, contains, leb, ◌==◌,
  if◌then◌else◌,
}
use poly_zq_trading.Execution.Types.{
  Coordinator, all_complete, add_alert, resolve_alerts, record_reconciliation,
  execution_reconciliation_mismatch, execution_reconciliation, hedge_routing_failed,
}
use poly_zq_trading.Execution.Differences.{
  Key, unexpected_ibkr_clients, VenueDifferences, Keys, has_any, unsafe_keys, is_different, is_set,
}
use poly_zq_trading.Execution.Safety.{
  emit, set_automated_reconciliation, invalidate_reconciliation, latch_reconciliation_pause,
}
use poly_zq_trading.Execution.Callbacks.{
  ReconcileSettings, Clocks, LedgerStore, expected_zq, classify_ibkr_callbacks, any_key,
}
use poly_zq_trading.Execution.Restart.{Situation, maintenance_recovery_allowed}
use poly_zq_trading.Execution.Comparison.{first_differences, final_differences}

-- What other tasks may have changed by the end of the queries, and the digest of the differences
-- and the quantities behind them, which is only compared.
pub record Surroundings : Type 0 where
  pub situation : Situation
  pub venue_revision : ℕ
  pub ledger_revision : ℕ
  pub signature : VenueDifferences → ℕ

abbrev pub is_timed_out : ReconcileSettings → Clocks → Option ℕ → Bool
is_timed_out s t none = false
is_timed_out s t (some started) = leb (started + s.ibkr_account_refresh_timeout_seconds) t.loop_time

unfoldable pub check_timeout : ReconcileSettings → Clocks → Coordinator → Coordinator
check_timeout s t c =
    if is_timed_out s t c.ibkr.refresh_started
    then record c { ibkr = record c.ibkr { refresh_ambiguous = true } }
    else c

-- A status callback may come before the open order that tells its contract.
abbrev pub may_be_unscoped : Coordinator → Bool
may_be_unscoped c =
    c.ibkr.reconciliation_in_progress
    && not c.ibkr.complete.open_orders
    && not (is_set c.gap.gap)
    && all (λ o. contains o c.ibkr.unscoped_status_orders) c.ibkr.foreign_orders

abbrev pub excused : Coordinator → Keys → Keys
excused c transient unexpected_ibkr_clients = transient unexpected_ibkr_clients || may_be_unscoped c
excused c transient k = transient k

abbrev pub not_ready : Coordinator → Coordinator
not_ready c = record c { recovery_ready = false }

unfoldable pub check_early : Keys → VenueDifferences → Coordinator → Coordinator
check_early transient d c =
    if has_any unsafe_keys (excused c transient) d
    then latch_reconciliation_pause (not_ready c)
    else c

unfoldable pub refuse_ambiguous : Surroundings → Clocks → LedgerStore → Coordinator → Coordinator
refuse_ambiguous w t store c =
    let (may_recover, c') = maintenance_recovery_allowed w.situation t store (not_ready c) in
    invalidate_reconciliation (if may_recover then c' else latch_reconciliation_pause c')

abbrev pub is_recent : ReconcileSettings → Clocks → Option ℕ → Bool
is_recent s t none = false
is_recent s t (some at) = leb t.now (at + s.reconciliation_max_age_seconds)

-- The reads of both venues are complete and recent.
unfoldable pub is_readable : ReconcileSettings → Clocks → Coordinator → Bool
is_readable s t c =
    all_complete c.ibkr.complete
    && (s.simulate_polymarket_fills || c.polymarket.snapshot_complete)
    && (s.simulate_polymarket_fills || is_recent s t c.polymarket.snapshot_at)
    && is_recent s t c.ibkr.snapshot_at

-- Of the unsafe keys, the one that also waits for a settlement.
abbrev is_waiting : Key → Bool
is_waiting Key.unprocessed_polymarket_events = true
is_waiting _ = false

-- Differences that are all explained or wait for a settlement.
abbrev pub is_unsure : Keys → VenueDifferences → Bool
is_unsure transient d =
    is_different d && not (has_any unsafe_keys (λ k. transient k || is_waiting k) d)

-- The anchors of a clean reconciliation.
unfoldable pub anchor : Surroundings → ℕ → Coordinator → Coordinator
anchor w expected c = record c {
  last_ledger_revision = some w.ledger_revision;
  ibkr = record c.ibkr { matched_zq = some expected; callback_positions = some c.ibkr.positions };
  last_reconciled_venue_revision = some w.venue_revision;
}

unfoldable pub report_clean : Surroundings → ℕ → Coordinator → Coordinator
report_clean w expected c =
    emit (resolve_alerts hedge_routing_failed)
      (emit (resolve_alerts execution_reconciliation) (anchor w expected c))

unfoldable pub report_unsafe : Bool → Coordinator → Coordinator
report_unsafe unexplained c = if unexplained then latch_reconciliation_pause c else c

unfoldable pub report_differences : Bool → Keys → Coordinator → Coordinator
report_differences unexplained transient c =
    let c' = record c { last_ledger_revision = none } in
    report_unsafe unexplained (
      if unexplained || not (any_key transient)
      then emit (add_alert execution_reconciliation_mismatch) c'
      else c')

abbrev pub report : Bool → Surroundings → ℕ → Bool → Keys → Coordinator → Coordinator
report true w expected unexplained transient c = report_clean w expected c
report false w expected unexplained transient c = report_differences unexplained transient c

unfoldable pub record_result :
    Surroundings
    → ReconcileSettings
    → LedgerStore
    → Keys
    → VenueDifferences
    → Coordinator
    → Coordinator
record_result w s store transient d c =
    let is_clean = not (is_different d) in
    report is_clean w (expected_zq s store) (has_any unsafe_keys transient d) transient (
      set_automated_reconciliation is_clean (is_unsure transient d) (
        emit (record_reconciliation is_clean) (record c { last_signature = some (w.signature d) })))

abbrev pub is_equal : Option ℕ → ℕ → Bool
is_equal none n = false
is_equal (some m) n = m == n

abbrev pub same_flag : Bool → Bool → Bool
same_flag true b = b
same_flag false b = not b

-- Nothing has changed since the last result.
unfoldable pub is_repeat : Surroundings → VenueDifferences → Coordinator → Bool
is_repeat w d c =
    is_equal c.last_signature (w.signature d)
    && same_flag c.published.clean (not (is_different d))
    && (is_different d || is_equal c.last_ledger_revision w.ledger_revision)

unfoldable pub conclude :
    Surroundings
    → ReconcileSettings
    → LedgerStore
    → Keys
    → VenueDifferences
    → Coordinator
    → Coordinator
conclude w s store transient d c =
    let c' = record c {
      recovery_ready = not (has_any unsafe_keys transient d) && not c.gap.expired;
    } in
    if not (w.venue_revision == c.venue_revision)
    then invalidate_reconciliation c
    else if is_repeat w d c
    then c'
    else record_result w s store transient d c'

unfoldable pub compare_ledger :
    Surroundings
    → ReconcileSettings
    → Clocks
    → LedgerStore
    → Keys
    → VenueDifferences
    → Coordinator
    → Coordinator
compare_ledger w s t store transient d c =
    if c.ibkr.refresh_ambiguous
    then refuse_ambiguous w t store c
    else if not (is_readable s t c)
    then invalidate_reconciliation c
    else conclude w s store transient (final_differences s store c d) c

unfoldable pub reconcile_ledger_snapshot :
    Surroundings → ReconcileSettings → Clocks → LedgerStore → Coordinator → Coordinator
reconcile_ledger_snapshot w s t store c =
    let r = classify_ibkr_callbacks s t store (first_differences store c.ibkr) c in
    let c' = check_timeout s t r.after in
    compare_ledger w s t store r.transient r.differences (check_early r.transient r.differences c')
