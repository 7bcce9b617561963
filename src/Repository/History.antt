-- ===== src/Repository/History.antt =====
-- Sequences of sessions on the tables; one that raises is rolled back.
use poly_zq_trading.Prelude.{ℕ, List, [], ◌∷◌, Bool, refl}
use poly_zq_trading.Ledger.Types.{OrderId, OrderState, Tables, Result, ok, err}
use poly_zq_trading.Ledger.Intents.{
  Intent, create_hedge_order_intent, set_hedge_submission_state, accept_hedge_order,
  update_polymarket_order_status,
}
use poly_zq_trading.Ledger.Verification.{Snapshot, verify_polymarket_order}
use poly_zq_trading.Ledger.Executions.{Fill, record_polymarket_execution}
use poly_zq_trading.Repository.Entry.{
  Entry, create_zq_batch_intent, abandon_zq_intent, mark_zq_submitted,
}
use poly_zq_trading.Repository.Fills.{ZqFill, record_ibkr_execution_and_obligations}
use poly_zq_trading.Repository.Status.{
  StatusReport, Residual, update_zq_order_status, set_batch_cancel_pending,
  normalize_active_batch_state,
}
use poly_zq_trading.Repository.Backing.{IsBacked, IsBackedAfter}
use poly_zq_trading.Repository.Backing.Recorded.{recorded, record-IsBackedAfter}
use poly_zq_trading.Repository.Backing.Steps.{
  itself, create-IsBackedAfter, abandon-IsBackedAfter, mark-IsBackedAfter, update-IsBacked,
  cancel-IsBacked, normalize-IsBacked,
}
use poly_zq_trading.Repository.Backing.Hedging.{
  left, intent-IsBackedAfter, submission-IsBackedAfter, accept-IsBackedAfter, status-IsBackedAfter,
  verify-IsBackedAfter,
}
use poly_zq_trading.Repository.Backing.Hedging.Executions.{hedge_fill-IsBackedAfter}

-- The calls that change the batches, their orders and their executions.
pub data ZqCall : Type 0 where
  create : ℕ → Entry → ZqCall
  abandon : ℕ → ℕ → ZqCall
  submitted : ℕ → ZqCall
  execution : ZqFill → ZqCall
  status : StatusReport → ZqCall
  cancel : Residual → ZqCall
  normalize : ZqCall

-- The calls that change the hedge orders and their executions.
pub data HedgeCall : Type 0 where
  intent : Intent → HedgeCall
  submission : ℕ → OrderState → ℕ → HedgeCall
  acceptance : ℕ → OrderId → OrderState → Bool → HedgeCall
  update : OrderId → OrderState → HedgeCall
  verification : OrderId → Snapshot → ℕ → HedgeCall
  fill : Fill → HedgeCall

pub data Call : Type 0 where
  zq : ZqCall → Call
  hedge : HedgeCall → Call

-- The tables after a session.
abbrev pub commit {ℓ} : {A : Type ℓ} → (A → Tables) → Result A → Tables → Tables
commit tables (ok a) old = tables a
commit tables (err x) old = old

abbrev pub zq_step : (ℕ → ℕ → ℕ → ℕ) → ZqCall → Tables → Tables
zq_step key (create k e) t = commit (λ (s : Tables). s) (create_zq_batch_intent k e t) t
zq_step key (abandon k reason) t = commit (λ (s : Tables). s) (abandon_zq_intent k reason t) t
zq_step key (submitted k) t = commit (λ (s : Tables). s) (mark_zq_submitted k t) t
zq_step key (execution f) t = commit (λ p. p.0) (record_ibkr_execution_and_obligations key f t) t
zq_step key (status s) t = (update_zq_order_status s t).0
zq_step key (cancel r) t = (set_batch_cancel_pending r t).0
zq_step key normalize t = normalize_active_batch_state t

abbrev pub hedge_step : HedgeCall → Tables → Tables
hedge_step (intent i) t = commit (λ p. p.0) (create_hedge_order_intent i t) t
hedge_step (submission k state now) t =
    commit (λ (s : Tables). s) (set_hedge_submission_state k state now t) t
hedge_step (acceptance k i state simulated) t =
    commit (λ (s : Tables). s) (accept_hedge_order k i state simulated t) t
hedge_step (update i state) t =
    commit (λ (s : Tables). s) (update_polymarket_order_status i state t) t
hedge_step (verification i s now) t = commit (λ p. p.0) (verify_polymarket_order i s now t) t
hedge_step (fill f) t = commit (λ p. p.0) (record_polymarket_execution f t) t

abbrev pub step : (ℕ → ℕ → ℕ → ℕ) → Call → Tables → Tables
step key (zq c) t = zq_step key c t
step key (hedge c) t = hedge_step c t

abbrev pub run : (ℕ → ℕ → ℕ → ℕ) → List Call → Tables → Tables
run key [] t = t
run key (c ∷ cs) t = run key cs (step key c t)

abbrev pub empty_tables : Bool → Tables
empty_tables simulate = record {
  simulate_polymarket_fills = simulate;
  orders = [];
  executions = [];
  obligations = [];
  batches = [];
}

module _ (id : ℕ) where
  commit-IsBacked {ℓ} :
      {A : Type ℓ} (tables : A → Tables) (r : Result A) (t : Tables)
      → IsBackedAfter id tables r
      → IsBacked id t
      → IsBacked id (commit tables r t)
  commit-IsBacked tables (ok a) t after before = after
  commit-IsBacked tables (err x) t after before = before

  zq_step-IsBacked :
      (key : ℕ → ℕ → ℕ → ℕ) (c : ZqCall) (t : Tables)
      → IsBacked id t
      → IsBacked id (zq_step key c t)
  zq_step-IsBacked key (create k e) t h =
      commit-IsBacked (itself id) _ t (create-IsBackedAfter id k e t h) h
  zq_step-IsBacked key (abandon k reason) t h =
      commit-IsBacked (itself id) _ t (abandon-IsBackedAfter id k reason t h) h
  zq_step-IsBacked key (submitted k) t h =
      commit-IsBacked (itself id) _ t (mark-IsBackedAfter id k t h) h
  zq_step-IsBacked key (execution f) t h =
      commit-IsBacked recorded _ t (record-IsBackedAfter key f id t h) h
  zq_step-IsBacked key (status s) t h = update-IsBacked id s t h
  zq_step-IsBacked key (cancel r) t h = cancel-IsBacked id r t h
  zq_step-IsBacked key normalize t h = normalize-IsBacked id t h

  hedge_step-IsBacked : (c : HedgeCall) (t : Tables) → IsBacked id t → IsBacked id (hedge_step c t)
  hedge_step-IsBacked (intent i) t h = commit-IsBacked left _ t (intent-IsBackedAfter id i t h) h
  hedge_step-IsBacked (submission k state now) t h =
      commit-IsBacked (itself id) _ t (submission-IsBackedAfter id k state now t h) h
  hedge_step-IsBacked (acceptance k i state simulated) t h =
      commit-IsBacked (itself id) _ t (accept-IsBackedAfter id k i state simulated t h) h
  hedge_step-IsBacked (update i state) t h =
      commit-IsBacked (itself id) _ t (status-IsBackedAfter id i state t h) h
  hedge_step-IsBacked (verification i s now) t h =
      commit-IsBacked left _ t (verify-IsBackedAfter id i s now t h) h
  hedge_step-IsBacked (fill f) t h = commit-IsBacked left _ t (hedge_fill-IsBackedAfter id f t h) h

  run_from-IsBacked :
      (key : ℕ → ℕ → ℕ → ℕ) (cs : List Call) (t : Tables)
      → IsBacked id t
      → IsBacked id (run key cs t)
  run_from-IsBacked key [] t h = h
  run_from-IsBacked key (zq c ∷ cs) t h =
      run_from-IsBacked key cs (zq_step key c t) (zq_step-IsBacked key c t h)
  run_from-IsBacked key (hedge c ∷ cs) t h =
      run_from-IsBacked key cs (hedge_step c t) (hedge_step-IsBacked c t h)

-- After any sequence of sessions on empty tables, entries, executions, statuses, cancellations and
-- hedge orders in any order and with those that raise among them, a batch has filled what its
-- executions add up to, which is within its order, and if it saved hedge ratios, each token is due
-- exactly the rounded hedge of that quantity. A batch that was never created has neither
-- executions nor obligations.
pub run-IsBacked :
    (key : ℕ → ℕ → ℕ → ℕ) (simulate : Bool) (cs : List Call) (id : ℕ)
    → IsBacked id (run key cs (empty_tables simulate))
run-IsBacked key simulate cs id =
    run_from-IsBacked id key cs (empty_tables simulate) (refl, λ token. refl)
