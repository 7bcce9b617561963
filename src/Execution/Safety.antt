-- ===== src/Execution/Safety.antt =====
-- The safety pause and the life of a callback gap.
use poly_zq_trading.Prelude.{
  ℕ, [], ◌∷◌, ◌++◌, Option, none, some, Bool, true, false, leb, if◌then◌else◌,
}
use poly_zq_trading.Maintenance.Hold.{is_held}
use poly_zq_trading.Execution.Types.{
  Gap, Coordinator, Published, ReconciliationStatus, clean, mismatch, unknown,
  authenticated_venue_ledger, Effect, cancel_working_zq, gap_resolved, gap_expired, safety_pause,
  add_alert, resolve_alerts, ibkr_callback_timeout, ibkr_callback,
}

abbrev pub emit : Effect → Coordinator → Coordinator
emit e c = record c { effects = c.effects ++ (e ∷ []) }

abbrev pub publish : Published → Coordinator → Coordinator
publish p c = record c { published = p }

abbrev pub status_of : Bool → Bool → ReconciliationStatus
status_of true unsure = clean
status_of false true = unknown
status_of false false = mismatch

-- `StateStore.set_automated_reconciliation`
unfoldable pub set_automated_reconciliation : Bool → Bool → Coordinator → Coordinator
set_automated_reconciliation is_clean unsure c =
    publish
      (record c.published {
        clean = is_clean;
        status = status_of is_clean unsure;
        method = authenticated_venue_ledger;
      })
      c

-- `StateStore.invalidate_reconciliation`
unfoldable pub invalidate_reconciliation : Coordinator → Coordinator
invalidate_reconciliation c = publish (record c.published { clean = false; status = unknown }) c

-- `StateStore.set_operating_state(paused=True, armed=False)`, with the reason of the first pause.
unfoldable pub pause : Coordinator → Coordinator
pause c =
    if c.published.pause_reason
    then publish (record c.published { paused = true; armed = false }) c
    else emit safety_pause
        (publish (record c.published { paused = true; armed = false; pause_reason = true }) c)

unfoldable pub fail_maintenance : Coordinator → Coordinator
fail_maintenance c =
    if is_held c.maintenance.window
    then record c { maintenance = record c.maintenance { failed = true } }
    else c

unfoldable pub latch_reconciliation_pause : Coordinator → Coordinator
latch_reconciliation_pause c = emit cancel_working_zq (pause (fail_maintenance c))

unfoldable pub expire : Coordinator → Coordinator
expire c = emit (add_alert ibkr_callback_timeout) (
    set_automated_reconciliation false false (
      latch_reconciliation_pause (
        emit gap_expired
          (record c { gap = record c.gap { expired = true }; recovery_ready = false }))))

abbrev pub expire_open : Option Gap → Coordinator → Coordinator
expire_open none c = c
expire_open (some g) c = if c.gap.expired then c else expire c

unfoldable pub expire_ibkr_gap : Coordinator → Coordinator
expire_ibkr_gap c = expire_open c.gap.gap c

abbrev pub finish_open : Option Gap → Coordinator → Coordinator
finish_open none c = c
finish_open (some g) c =
    emit (resolve_alerts ibkr_callback) (record (emit gap_resolved c) {
      gap = record { gap = none; deadline = none; expired = false };
    })

unfoldable pub finish_ibkr_gap : Coordinator → Coordinator
finish_ibkr_gap c = finish_open c.gap.gap c

abbrev pub is_due : Option ℕ → ℕ → Bool
is_due none time = false
is_due (some deadline) time = leb deadline time
