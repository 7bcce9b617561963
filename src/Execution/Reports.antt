-- ===== src/Execution/Reports.antt =====
-- The handlers of `handle_ibkr_event`: executions, orders and positions, whose payloads are read
-- into typed fields, a text being known by a number.
use poly_zq_trading.Prelude.{
  ℕ, List, Option, none, some, Bool, true, false, ◌&&◌, ◌||◌, not, ◌==◌, if◌then◌else◌,
}
use poly_zq_trading.Prelude.Int.{ℤ}
use poly_zq_trading.Ledger.Types.{OrderState, Order, Obligation, Tables}
use poly_zq_trading.Ledger.Receipts.{VenueEvent}
use poly_zq_trading.Repository.Fills.{find_zq_order}
use poly_zq_trading.Repository.Status.{StatusReport, is_final, update_zq_order_status}
use poly_zq_trading.Execution.Types.{IbkrAccount, Coordinator}
use poly_zq_trading.Execution.Callbacks.{ReconcileSettings, LedgerStore}
use poly_zq_trading.Execution.Account.{add_member, with_ibkr, set_member, observe_ibkr_order}

pub data Symbol : Type 0 where
  zq other_symbol : Symbol

-- The first six characters of a contract month, and whether the whole is a month or a day.
pub record ContractMonth : Type 0 where
  pub month : ℕ
  pub is_date : Bool

-- The entries of a payload; a permanent id of 0 and an order id of 0 are written out.
pub record IbkrPayload : Type 0 where
  pub client_id : Option ℕ
  pub order_id : Option ℕ
  pub permanent_id : ℕ
  pub account_fingerprint : Option ℕ
  pub symbol : Option Symbol
  -- Whether the type is `FUT`.
  pub security_type : Option Bool
  pub contract_month : Option ContractMonth
  pub order_ref : Option ℕ
  pub status : Option OrderState
  pub filled : Option ℤ
  pub remaining : Option ℤ
  pub execution_id : Option ℕ
  pub is_buy : Bool
  pub shares : Option ℤ
  pub price : Option ℕ
  pub executed_at : ℕ
  -- The contract's id, or else its month and account.
  pub position_key : ℕ
  pub position : Option ℤ
  pub text : ℕ

pub record EventSettings : Type 0 where
  pub reconcile : ReconcileSettings
  pub ibkr_client_id : ℕ
  pub ibkr_account : ℕ

-- The texts that are built as keys, the hash of a receipt, the receipts of the opening inventory,
-- and the shares of a batch from before saved ratios, which are computed in decimals.
pub record EventKeys : Type 0 where
  pub foreign : Option ℕ → Option ℕ → ℕ → ℕ
  pub obligation : ℕ → ℕ → ℕ → ℕ
  pub hash : ℕ → ℕ
  pub is_opening_receipt : ℕ → Bool
  pub legacy_shares : ℤ → List (ℕ × ℕ)
  -- The status that an open order has without one, `OPEN`.
  pub open_status : OrderState

-- The coordinator and its ledger, with the obligations that were handed to the hedge tasks.
pub record EventState : Type 0 where
  pub own : Coordinator
  pub store : LedgerStore
  pub routed : List Obligation

pub data EventOutcome : Type 0 where
  handled failed : EventState → EventOutcome

abbrev pub update_ibkr : (IbkrAccount → IbkrAccount) → EventState → EventState
update_ibkr f e = record e { own = with_ibkr (f e.own.ibkr) e.own }

abbrev pub update_tables : Tables → EventState → EventState
update_tables t e = record e { store = record e.store { tables = t } }

abbrev pub update_events : List VenueEvent → EventState → EventState
update_events es e = record e { store = record e.store { events = es } }

abbrev pub or_absent : ℕ → Option ℕ
or_absent n = if n == 0 then none else some n

-- The text of an order id, where 0 is as good as none.
abbrev pub or_blank : Option ℕ → ℕ
or_blank none = 0
or_blank (some n) = n

abbrev pub or_status : OrderState → Option OrderState → OrderState
or_status default none = default
or_status default (some status) = status

-- A value that is given and is another one.
abbrev pub is_other : ℕ → Option ℕ → Bool
is_other n none = false
is_other n (some m) = not (m == n)

abbrev pub is_other_month : ℕ → Option ContractMonth → Bool
is_other_month month none = false
is_other_month month (some m) = not (m.month == month)

abbrev pub is_month : ℕ → Option ContractMonth → Bool
is_month month none = false
is_month month (some m) = m.month == month

abbrev pub is_zq : Option Symbol → Bool
is_zq (some zq) = true
is_zq _ = false

abbrev pub is_future : Option Bool → Bool
is_future (some b) = b
is_future none = false

unfoldable pub ibkr_own_client : EventSettings → IbkrPayload → Bool
ibkr_own_client s p = elim p.client_id [ none ↦ true | some id ↦ id == s.ibkr_client_id ]

-- The ZQ order that a payload names.
abbrev pub known_order : IbkrPayload → List Order → Option Order
known_order p os = elim (or_absent (or_blank p.order_id)) [
  | none ↦ none
  | some id ↦ find_zq_order id os
]

abbrev pub differs_from : EventSettings → IbkrPayload → Option Order → Bool
differs_from s p none = false
differs_from s p (some o) =
    (not (p.permanent_id == 0) && is_other p.permanent_id o.permanent_id)
    || is_other_month s.reconcile.ibkr_zq_contract_month p.contract_month
    || is_other o.batch_id p.order_ref

unfoldable pub has_identity_conflict : EventSettings → IbkrPayload → List Order → Bool
has_identity_conflict s p os =
    is_other s.ibkr_account p.account_fingerprint || differs_from s p (known_order p os)

-- `_ibkr_identity_valid`
unfoldable pub ibkr_identity_valid : EventSettings → IbkrPayload → EventState → Bool × EventState
ibkr_identity_valid s p e =
    if has_identity_conflict s p e.store.tables.orders
    then (
      false,
      update_ibkr
          (λ a. record a {
            identity_conflicts = add_member (or_blank p.order_id) a.identity_conflicts;
          })
          e,
    )
    else (true, e)

abbrev pub foreign_order_key : EventKeys → IbkrPayload → ℕ
foreign_order_key k p = k.foreign p.client_id p.order_id p.permanent_id

abbrev pub set_foreign : Bool → ℕ → EventState → EventState
set_foreign b key =
    update_ibkr (λ a. record a { foreign_orders = set_member b key a.foreign_orders })

-- The report of an order's status goes to the ledger, and the answer to the account.
unfoldable pub report_status : StatusReport → EventState → EventState
report_status r e =
    let (tables, effective) = update_zq_order_status r e.store.tables in
    update_ibkr (observe_ibkr_order r.order_id r.status effective) (update_tables tables e)

unfoldable pub report_own : EventSettings → IbkrPayload → StatusReport → EventState → EventState
report_own s p r e =
    let (valid, e') = ibkr_identity_valid s p e in if valid then report_status r e' else e'

-- `_handle_ibkr_order_status`
unfoldable pub handle_ibkr_order_status :
    EventSettings → EventKeys → IbkrPayload → EventState → EventState
handle_ibkr_order_status s k p e =
    let status = or_status OrderState.unknown p.status in
    elim p.order_id [
      | none ↦ e
      | some id ↦
          if not (ibkr_own_client s p)
          then set_foreign (not (is_final status)) (foreign_order_key k p) e
          else report_own s p
              (record {
                order_id = id;
                status = status;
                filled = p.filled;
                remaining = p.remaining;
                permanent_id = or_absent p.permanent_id;
              })
              e
    ]

abbrev pub open_report : EventKeys → IbkrPayload → ℕ → StatusReport
open_report k p id = record {
  order_id = id;
  status = or_status k.open_status p.status;
  filled = none;
  remaining = none;
  permanent_id = or_absent p.permanent_id;
}

-- `_handle_ibkr_open_order`
unfoldable pub report_open_order :
    EventSettings → EventKeys → IbkrPayload → ℕ → EventState → EventState
report_open_order s k p id e =
    if not (ibkr_own_client s p)
    then set_foreign true (foreign_order_key k p) e
    else report_own s p (open_report k p id) e

unfoldable pub handle_ibkr_open_order :
    EventSettings → EventKeys → IbkrPayload → EventState → EventState
handle_ibkr_open_order s k p e = elim p.order_id [
  | none ↦ e
  | some id ↦ report_open_order s k p id e
]
