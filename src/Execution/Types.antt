-- ===== src/Execution/Types.antt =====
-- The state of the coordinator, in the parts that its methods share.
use poly_zq_trading.Prelude.{ℕ, List, Option, Bool, ◌&&◌}
use poly_zq_trading.Prelude.Int.{ℤ}
use poly_zq_trading.Ledger.Types.{OrderId}
use poly_zq_trading.Maintenance.Hold.{MaintenanceHold}

-- The end markers of an account read.
pub record Markers : Type 0 where
  pub open_orders : Bool
  pub completed_orders : Bool
  pub executions : Bool
  pub positions : Bool

abbrev pub all_complete : Markers → Bool
all_complete m = m.open_orders && m.completed_orders && m.executions && m.positions

-- What the coordinator knows of the broker's account. An order of another client is known by a
-- number that stands for its key, a position by one for its identity.
pub record IbkrAccount : Type 0 where
  pub complete : Markers
  pub reconciliation_in_progress : Bool
  pub refresh_started : Option ℕ
  pub refresh_ambiguous : Bool
  pub snapshot_at : Option ℕ
  pub request_id : Option ℕ
  pub refresh_serial : ℕ
  pub completed_refresh_serial : ℕ
  pub refresh_requested : Bool
  pub connection_ready : Bool
  pub open_order_ids : List ℕ
  pub foreign_orders : List ℕ
  pub other_month_orders : List ℕ
  pub unscoped_status_orders : List ℕ
  pub unknown_orders : List ℕ
  pub identity_conflicts : List ℕ
  pub terminal_conflicts : List ℕ
  pub refresh_conflicts : List ℕ
  pub positions : List (ℕ × ℤ)
  pub matched_zq : Option ℕ
  pub callback_positions : Option (List (ℕ × ℤ))

-- The record of a gap between the callbacks and the ledger.
pub record Gap : Type 0 where
  pub expected : ℕ
  pub observed : ℤ
  pub order_ids : List ℕ
  pub first_seen_at : ℕ
  pub refresh_serial : ℕ

pub record GapState : Type 0 where
  pub gap : Option Gap
  pub deadline : Option ℕ
  pub expired : Bool

pub record PolymarketAccount : Type 0 where
  pub snapshot_complete : Bool
  pub positions_complete : Bool
  pub snapshot_at : Option ℕ
  pub open_order_ids : List OrderId
  pub positions : List (ℕ × ℤ)

pub data ReconciliationStatus : Type 0 where
  clean mismatch unknown : ReconciliationStatus

pub data Method : Type 0 where
  not_confirmed manual_operator_attestation authenticated_venue_ledger : Method

-- The part of the published snapshot that the coordinator sets.
pub record Published : Type 0 where
  pub clean : Bool
  pub status : ReconciliationStatus
  pub method : Method
  pub paused : Bool
  pub armed : Bool
  pub pause_reason : Bool
  pub zq_position : ℤ

pub data AlertCode : Type 0 where
  ibkr_callback_timeout execution_reconciliation_mismatch execution_reconciliation ibkr_callback
        hedge_routing_failed hedge_reprice_limit :
      AlertCode

-- What leaves the coordinator, in order: the cancellation of working entries, alerts that are added
-- or resolved, audit records and reconciliation records.
pub data Effect : Type 0 where
  cancel_working_zq gap_started gap_resolved gap_expired safety_pause : Effect
  add_alert resolve_alerts : AlertCode → Effect
  record_reconciliation : Bool → Effect

pub record Coordinator : Type 0 where
  pub ibkr : IbkrAccount
  pub gap : GapState
  pub polymarket : PolymarketAccount
  pub maintenance : MaintenanceHold
  pub recovery_ready : Bool
  pub halt_requested : Bool
  pub venue_revision : ℕ
  pub last_ledger_revision : Option ℕ
  pub last_reconciled_venue_revision : Option ℕ
  pub last_signature : Option ℕ
  pub published : Published
  pub effects : List Effect
