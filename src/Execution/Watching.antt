-- ===== src/Execution/Watching.antt =====
-- What each part of `handle_ibkr_event` leaves of a read of the account.
use poly_zq_trading.Prelude.{
  ◌%◌, ◌==◌, contains, ◌&&◌, true, false, Option-cases, ℕ, List, Option, none, some, Bool, true,
  false, ◌&&◌, inl, inr, arith, Bool-cases, if◌then◌else◌,
}
use poly_zq_trading.Ledger.Receipts.{save_venue_receipt}
use poly_zq_trading.Prelude.Int.{abs}
use poly_zq_trading.Execution.Callbacks.{observed_zq_position}
use poly_zq_trading.Analytics.Units.{one_share}
use poly_zq_trading.Ledger.Types.{ibkr, Obligation, Tables, Result, ok, err}
use poly_zq_trading.Repository.Fills.{ZqFill}
use poly_zq_trading.Execution.Reports.{
  IbkrPayload, EventSettings, EventKeys, EventState, EventOutcome, handled, failed,
  ibkr_identity_valid, ibkr_own_client, update_events, foreign_order_key,
}
use poly_zq_trading.Execution.Fills.{
  and_then, set_zq_position, is_strategy_contract, handle_ibkr_position, show_position, record_fill,
  take_fill, take_execution, is_elsewhere, handle_ibkr_execution,
}
use poly_zq_trading.Execution.Events.{
  forget_month, forget_unscoped, note_unscoped, ignore_identified, ignore_other_month_foreign_order,
}
use poly_zq_trading.Execution.Keeping.{
  state_of, Keeps, Keeps-refl, Keeps-trans, by_test, ibkr_identity_valid-Keeps,
}

-- Whether the handler returns or raises.
pub record KeepsIn (e : EventState) (o : EventOutcome) : Type 0 where
  pub keeps : Keeps e.own (state_of o).own

stays : (e : EventState) (e' : EventState) → Keeps e.own e'.own → KeepsIn e (handled e')
stays e e' h = record { keeps = h }

raises : (e : EventState) → KeepsIn e (failed e)
raises e = record { keeps = Keeps-refl e.own }

pub set_zq_position-KeepsIn : (e : EventState) → KeepsIn e (set_zq_position e)
unfolding set_zq_position
set_zq_position-KeepsIn e =
    by_test (KeepsIn e) (abs (observed_zq_position e.own.ibkr) % one_share == 0) _ (failed e)
      (stays e _ (ground arith)) (raises e)

show_position-KeepsIn : (e : EventState) → KeepsIn e (show_position e)
show_position-KeepsIn e =
    by_test (KeepsIn e) e.own.ibkr.complete.positions (set_zq_position e) (handled e)
      (set_zq_position-KeepsIn e) (stays e e (Keeps-refl e.own))

and_then-KeepsIn :
    (e : EventState) (o : EventOutcome) → KeepsIn e o → KeepsIn e (and_then show_position o)
and_then-KeepsIn e (handled e') h = record {
  keeps = Keeps-trans _ _ _ h.keeps (show_position-KeepsIn e').keeps;
}
and_then-KeepsIn e (failed e') h = h

handle_ibkr_position-KeepsIn :
    (s : EventSettings) (p : IbkrPayload) (e : EventState) → KeepsIn e (handle_ibkr_position s p e)
unfolding handle_ibkr_position
handle_ibkr_position-KeepsIn s p e = elim (Bool-cases (is_strategy_contract s p)) [
  | inr elsewhere ↦ rw elsewhere (stays e e (Keeps-refl e.own))
  | inl ours ↦ elim (Option-cases p.position) [
    | inl absent ↦ rw (ours, absent) (raises e)
    | inr (n, given) ↦ rw (ours, given) (stays e _ (ground arith))
  ]
]

pub position-KeepsIn :
    (s : EventSettings) (p : IbkrPayload) (e : EventState)
    → KeepsIn e (and_then show_position (handle_ibkr_position s p e))
position-KeepsIn s p e = and_then-KeepsIn e _ (handle_ibkr_position-KeepsIn s p e)

record_fill-KeepsIn :
    (key : ℕ) (r : Result (Tables × List Obligation)) (e : EventState)
    → KeepsIn e (record_fill key r e)
record_fill-KeepsIn key (err x) e = raises e
record_fill-KeepsIn key (ok (t, obs)) e = stays e _ (Keeps-refl e.own)

take_fill-KeepsIn :
    (s : EventSettings) (k : EventKeys) (p : IbkrPayload) (key : ℕ) (o : Option ZqFill)
    (e : EventState)
    → KeepsIn e (take_fill s k p key o e)
unfolding take_fill
take_fill-KeepsIn s k p key none e = raises e
take_fill-KeepsIn s k p key (some f) e =
    by_test (KeepsIn e) _ _ _ (record_fill-KeepsIn key _ e) (stays e e (Keeps-refl e.own))

take_execution-KeepsIn :
    (s : EventSettings) (k : EventKeys) (p : IbkrPayload) (key : ℕ) (e : EventState)
    → KeepsIn e (take_execution s k p key e)
unfolding take_execution
take_execution-KeepsIn s k p key e =
    by_test (KeepsIn e) _ _ _ (stays e _ (Keeps-refl e.own))
      (by_test (KeepsIn e) _ _ _ (stays e e (Keeps-refl e.own)) (take_fill-KeepsIn s k p key _ e))

pub handle_ibkr_execution-KeepsIn :
    (s : EventSettings) (k : EventKeys) (p : IbkrPayload) (e : EventState)
    → KeepsIn e (handle_ibkr_execution s k p e)
unfolding handle_ibkr_execution
handle_ibkr_execution-KeepsIn s k p e =
    let stored = save_venue_receipt k.hash ibkr p.text e.store.events in
    let saved = update_events stored.1 e in
    let checked = ibkr_identity_valid s p saved in
    let found = ibkr_identity_valid-Keeps s p saved in
    let taken = take_execution s k p stored.0 checked.1 in
    by_test (KeepsIn e) (is_elsewhere s p) (handled e)
      (if checked.0 then taken else handled checked.1) (stays e e (Keeps-refl e.own))
      (by_test (KeepsIn e) checked.0 taken (handled checked.1)
        (record {
          keeps =
              Keeps-trans e.own checked.1.own (state_of taken).own found
                (take_execution-KeepsIn s k p stored.0 checked.1).keeps;
        })
        (stays e checked.1 found))

ignore_identified-Keeps :
    (s : EventSettings) (key : ℕ) (p : IbkrPayload) (b : Bool) (e : EventState)
    → Keeps e.own (ignore_identified s key p b e).1.own
unfolding ignore_identified note_unscoped
ignore_identified-Keeps s key p b e = ground arith

forget_month-Keeps : (b : Bool) (key : ℕ) (e : EventState) → Keeps e.own (forget_month b key e).own
forget_month-Keeps true key e = Keeps-refl e.own
forget_month-Keeps false key e = ground arith

forget_unscoped-Keeps : (key : ℕ) (e : EventState) → Keeps e.own (forget_unscoped key e).own
forget_unscoped-Keeps key e = ground arith

pub ignore_other_month_foreign_order-Keeps :
    (s : EventSettings) (k : EventKeys) (p : IbkrPayload) (b : Bool) (e : EventState)
    → Keeps e.own (ignore_other_month_foreign_order s k p b e).1.own
unfolding ignore_other_month_foreign_order
ignore_other_month_foreign_order-Keeps s k p b e =
    let key = foreign_order_key k p in
    let forgotten = forget_month-Keeps b key e in
    let known = forget_month b key e in
    let rest = ignore_identified s key p b (forget_unscoped key known) in
    let is_known = b && contains key known.own.ibkr.other_month_orders in
    by_test {A = Bool × EventState} (λ x. Keeps e.own x.1.own) (ibkr_own_client s p) (false, e)
      (if is_known then (true, known) else rest) (Keeps-refl e.own)
      (by_test {A = Bool × EventState} (λ x. Keeps e.own x.1.own) is_known (true, known) rest
        forgotten
        (Keeps-trans e.own known.own rest.1.own forgotten (
          Keeps-trans known.own (forget_unscoped key known).own rest.1.own
            (forget_unscoped-Keeps key known) (ignore_identified-Keeps s key p b _))))
