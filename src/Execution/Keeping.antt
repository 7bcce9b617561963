-- ===== src/Execution/Keeping.antt =====
-- What the reports on orders leave of a read of the account.
use poly_zq_trading.Prelude.{
  true, false, Option-cases, ◌∙◌, ℕ, Option, Bool, true, false, not, ◌≡◌, refl, inl, inr, arith,
  if◌then◌else◌, find,
}
use poly_zq_trading.Ledger.Types.{OrderState}
use poly_zq_trading.Repository.Status.{StatusReport}
use poly_zq_trading.Execution.Types.{IbkrAccount, Coordinator}
use poly_zq_trading.Execution.Account.{observe_ibkr_order, observe_conflict}
use poly_zq_trading.Execution.Reports.{
  open_report, report_open_order, IbkrPayload, EventSettings, EventKeys, EventState, EventOutcome,
  handled, failed, ibkr_identity_valid, report_status, report_own, handle_ibkr_order_status,
  handle_ibkr_open_order, ibkr_own_client, set_foreign, foreign_order_key,
}
use poly_zq_trading.Execution.Fills.{
  is_completed, final_status, complete_order, handle_ibkr_completed_order,
}
use poly_zq_trading.Execution.Reads.{SameRead, SameRead-refl, SameRead-trans}

abbrev pub state_of : EventOutcome → EventState
state_of (handled e) = e
state_of (failed e) = e

-- The read stands, and so does whether and how the ledger was found clean.
pub record Keeps (c c' : Coordinator) : Type 0 where
  pub read : SameRead c.ibkr c'.ibkr
  pub clean : c'.published.clean ≡ c.published.clean
  pub method : c'.published.method ≡ c.published.method

pub Keeps-refl : (c : Coordinator) → Keeps c c
Keeps-refl c = record { read = SameRead-refl c.ibkr; clean = refl; method = refl }

pub Keeps-trans : (a b c : Coordinator) → Keeps a b → Keeps b c → Keeps a c
Keeps-trans a b c p q = record {
  read = SameRead-trans _ _ _ p.read q.read;
  clean = q.clean ∙ p.clean;
  method = q.method ∙ p.method;
}

pub by_test {ℓ ℓ'} :
    {A : Type ℓ} (P : A → Type ℓ') (b : Bool) (x y : A) → P x → P y → P (if b then x else y)
by_test P true x y p q = p
by_test P false x y p q = q

observe_conflict-SameRead :
    (id : ℕ) (status : OrderState) (o : Option OrderState) (a : IbkrAccount)
    → SameRead a (observe_conflict id status o a)
unfolding observe_conflict
observe_conflict-SameRead id status o a = ground arith

observe_ibkr_order-SameRead :
    (id : ℕ) (status : OrderState) (o : Option OrderState) (a : IbkrAccount)
    → SameRead a (observe_ibkr_order id status o a)
unfolding observe_ibkr_order
observe_ibkr_order-SameRead id status o a =
    SameRead-trans a _ _ (ground arith) (observe_conflict-SameRead id status o _)

pub ibkr_identity_valid-Keeps :
    (s : EventSettings) (p : IbkrPayload) (e : EventState)
    → Keeps e.own (ibkr_identity_valid s p e).1.own
unfolding ibkr_identity_valid
ibkr_identity_valid-Keeps s p e = ground arith

report_status-Keeps : (r : StatusReport) (e : EventState) → Keeps e.own (report_status r e).own
unfolding report_status
report_status-Keeps r e = record {
  read = observe_ibkr_order-SameRead r.order_id r.status _ e.own.ibkr;
  clean = refl;
  method = refl;
}

report_own-Keeps :
    (s : EventSettings) (p : IbkrPayload) (r : StatusReport) (e : EventState)
    → Keeps e.own (report_own s p r e).own
unfolding report_own
report_own-Keeps s p r e =
    let found = ibkr_identity_valid-Keeps s p e in
    by_test {A = EventState} (λ x. Keeps e.own x.own) _ _ _
      (Keeps-trans _ _ _ found (report_status-Keeps r _)) found

set_foreign-Keeps : (b : Bool) (key : ℕ) (e : EventState) → Keeps e.own (set_foreign b key e).own
set_foreign-Keeps b key e = ground arith

pub handle_ibkr_order_status-Keeps :
    (s : EventSettings) (k : EventKeys) (p : IbkrPayload) (e : EventState)
    → Keeps e.own (handle_ibkr_order_status s k p e).own
unfolding handle_ibkr_order_status
handle_ibkr_order_status-Keeps s k p e = elim (Option-cases p.order_id) [
  | inl absent ↦ rw absent (Keeps-refl e.own)
  | inr (id, given) ↦ rw given (
      by_test {A = EventState} (λ x. Keeps e.own x.own) _ _ _ (set_foreign-Keeps _ _ e)
        (report_own-Keeps s _ _ e))
]

report_open_order-Keeps :
    (s : EventSettings) (k : EventKeys) (p : IbkrPayload) (id : ℕ) (e : EventState)
    → Keeps e.own (report_open_order s k p id e).own
unfolding report_open_order
report_open_order-Keeps s k p id e =
    by_test {A = EventState} (λ x. Keeps e.own x.own) (not (ibkr_own_client s p))
      (set_foreign true (foreign_order_key k p) e) (report_own s p (open_report k p id) e)
      (set_foreign-Keeps true _ e) (report_own-Keeps s p (open_report k p id) e)

pub handle_ibkr_open_order-Keeps :
    (s : EventSettings) (k : EventKeys) (p : IbkrPayload) (e : EventState)
    → Keeps e.own (handle_ibkr_open_order s k p e).own
unfolding handle_ibkr_open_order
handle_ibkr_open_order-Keeps s k p e = elim (Option-cases p.order_id) [
  | inl absent ↦ rw absent (Keeps-refl e.own)
  | inr (id, given) ↦ rw given (report_open_order-Keeps s k _ id e)
]

complete_order-Keeps :
    (p : IbkrPayload) (status : OrderState) (id : ℕ) (e : EventState)
    → Keeps e.own (complete_order p status id e).own
unfolding complete_order
complete_order-Keeps p status id e = ground arith

pub handle_ibkr_completed_order-Keeps :
    (s : EventSettings) (p : IbkrPayload) (e : EventState)
    → Keeps e.own (handle_ibkr_completed_order s p e).own
unfolding handle_ibkr_completed_order
handle_ibkr_completed_order-Keeps s p e =
    elim (Option-cases (find (is_completed s p) e.store.tables.orders)) [
      | inl absent ↦ rw (absent, handle_ibkr_completed_order) (Keeps-refl e.own)
      | inr (o, found) ↦
          rw (found, handle_ibkr_completed_order)
            (elim (Option-cases (final_status p.status)) [
              | inl working ↦ rw working (Keeps-refl e.own)
              | inr (status, final) ↦ rw final (complete_order-Keeps p status _ e)
            ])
    ]
