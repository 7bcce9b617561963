-- ===== src/Execution/Confirming.antt =====
-- `confirm_reconciliation` of `src/zq_arb/services/engine.py` and of the state store: an operator
-- vouches for the venues. The record that it writes is not part of the result.
use poly_zq_trading.Prelude.{Bool, true, false, ◌&&◌, not, ◌==◌, if◌then◌else◌}
use poly_zq_trading.Domain.Enums.{BatchState, idle, complete}
use poly_zq_trading.Ledger.Types.{Tables}
use poly_zq_trading.Repository.Status.{unresolved_hedge_obligation_count}
use poly_zq_trading.Execution.Types.{Coordinator, clean, manual_operator_attestation}
use poly_zq_trading.Execution.Safety.{publish}
use poly_zq_trading.Execution.Reports.{EventState, EventOutcome, handled, failed}
use poly_zq_trading.Execution.Events.{update_own}

-- What the method reads of the settings and the snapshot.
pub record OperatorView : Type 0 where
  pub is_live : Bool
  pub ibkr_connected : Bool
  pub polymarket_connected : Bool
  pub batch_state : BatchState

abbrev pub is_terminal_batch : BatchState → Bool
is_terminal_batch idle = true
is_terminal_batch complete = true
is_terminal_batch _ = false

abbrev pub may_confirm : OperatorView → Tables → Bool
may_confirm v t =
    not v.is_live
    && v.ibkr_connected
    && v.polymarket_connected
    && is_terminal_batch v.batch_state
    && (unresolved_hedge_obligation_count t == 0)

-- `StateStore.confirm_reconciliation`
abbrev pub attest : Coordinator → Coordinator
attest c =
    publish
      (record c.published { clean = true; status = clean; method = manual_operator_attestation }) c

unfoldable pub confirm_reconciliation : OperatorView → EventState → EventOutcome
confirm_reconciliation v e =
    if may_confirm v e.store.tables then handled (update_own attest e) else failed e
