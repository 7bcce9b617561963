-- ===== src/Execution/Justified.antt =====
-- Why a round of `_route_one_hedge` sends what it sends.
use poly_zq_trading.Prelude.{
  ℕ, List, [], ◌∷◌, Option, none, some, Bool, true, false, ◌&&◌, ◌||◌, All, ◌≡◌, ◌⊎◌, refl, sym, ap,
  ◌∙◌, inl, inr, arith, Bool-cases,
}
use poly_zq_trading.Book.Types.{OrderBook, best_ask, HedgeEntryPlan}
use poly_zq_trading.Ledger.Types.{OrderState, Order, Tables, Result, ok, err}
use poly_zq_trading.Ledger.Queries.{order_resolved}
use poly_zq_trading.Ledger.Intents.{
  is_intent_id, set_hedge_submission_state, create_hedge_order_intent,
}
use poly_zq_trading.Ledger.Verification.{Snapshot}
use poly_zq_trading.Repository.Entry.{is_intent}
use poly_zq_trading.Execution.Posting.{
  Post, lookup, HedgeSettings, HedgeSurroundings, PreparedPolymarketOrder, Round, Outcome,
  after_answer, hedge_submission_ready, meanwhile_at, with_tables,
}
use poly_zq_trading.Execution.Routing.{
  prepared_of, is_unknown, is_old, follow_order, follow_orders, after_lookup, check_resting,
  may_replay,
}
use poly_zq_trading.Execution.Placing.{
  intent_of, create_and_send, send_created, recheck, same_plan, same_number, with_new_book,
  with_prepared,
}
use poly_zq_trading.Execution.Sending.{
  post_of, Sends, At, Continues, answer-Sends, post_prepared-Sends, check_resting-Sends,
}

-- An order that was stored before, unresolved, and is sent as it was signed: never sent yet, or of
-- unknown outcome for five seconds.
pub record IsReplay (now : ℕ) (p : PreparedPolymarketOrder) (o : Order) : Type 0 where
  pub same : p ≡ prepared_of o
  pub unresolved : order_resolved o ≡ false
  pub unsent :
      (is_intent o.state ≡ true)
      ⊎ ((is_unknown o.state ≡ true) × (is_old now o.last_submit_at ≡ true))

-- A new order whose intent was granted just before, and marked as being sent.
pub record IsNew (id now : ℕ) (x : Post) : Type 0 where
  pub attempt : ℕ
  pub before : Tables
  pub after : Tables
  pub granted : create_hedge_order_intent (intent_of id attempt x.order) before ≡ ok (after, true)
  pub marked :
      set_hedge_submission_state x.order.idempotency_key OrderState.submitting now after
      ≡ ok x.tables

abbrev pub Among {ℓ} : {A : Type ℓ} → (A → Type 0) → List A → Type 0
Among P [] = ⊥
Among P (x ∷ xs) = P x ⊎ Among P xs

abbrev pub may_submit : HedgeSettings → Bool → Bool
may_submit s ready = ready || (s.paper && s.simulate_polymarket_fills)

module _ (s : HedgeSettings) (w : HedgeSurroundings) (l : List Post) (ready : Bool) where
  pub ready_same : (r : Round) → At l ready r → hedge_submission_ready s r.own ≡ may_submit s ready
  unfolding hedge_submission_ready
  ready_same r h = ap (may_submit s) h.1

  -- The reasons that a step needs, for a property of what is sent.
  module _ (P : Post → Type 0) where
    after_lookup-Sends :
        (o : Order) (next : Round → Outcome) (a : Option Snapshot)
        → (may_submit s ready ≡ true
            → is_unknown o.state ≡ true
            → is_old w.now o.last_submit_at ≡ true
            → (t : Tables) → P (post_of (prepared_of o) t))
        → Continues P l ready next
        → Continues P l ready (after_lookup s w o next a)
    unfolding after_lookup
    after_lookup-Sends o next none reason keep r h = elim (Bool-cases (may_replay s w o r)) [
      | inl replay ↦
          let same = ready_same r h in
          rw replay (
            post_prepared-Sends P l ready w (prepared_of o) r
              (λ t _. reason (ground arith) (ground arith) (ground arith) t) h)
      | inr wait ↦ rw wait (inl h.0)
    ]
    after_lookup-Sends o next (some answer) reason keep r h =
        answer-Sends P l ready r _ (check_resting s w o.venue_order_id answer next) h
          (λ b. check_resting-Sends P l ready s w o.venue_order_id answer next b keep)

    follow_order-Sends :
        (o : Order) (next : Round → Outcome)
        → (may_submit s ready ≡ true
            → (is_intent o.state ≡ true)
              ⊎ ((is_unknown o.state ≡ true) × (is_old w.now o.last_submit_at ≡ true))
            → (t : Tables) → P (post_of (prepared_of o) t))
        → Continues P l ready next
        → Continues P l ready (follow_order s w o next)
    unfolding follow_order meanwhile_at
    follow_order-Sends o next reason keep r h = elim (Bool-cases (is_intent o.state)) [
      | inl unsent ↦ elim (Bool-cases (hedge_submission_ready s r.own)) [
        | inl may ↦
            rw (unsent, may)
              (post_prepared-Sends P l ready w (prepared_of o) r
                (λ t _. reason (sym (ready_same r h) ∙ may) (inl unsent) t) h)
        | inr not_yet ↦ rw (unsent, not_yet) (inl h.0)
      ]
      | inr sent ↦ elim (Bool-cases (is_intent_id o.venue_order_id)) [
        | inl no_id ↦ rw (sent, no_id) (inl h.0)
        | inr has_id ↦
            rw (sent, has_id)
              (after_lookup-Sends o next (w.get_order lookup o.venue_order_id)
                (λ may unknown old. reason may (inr (unknown, old))) keep _ h)
      ]
    ]

    -- The orders that a round follows, each with its reason.
    pub follow_orders-Sends :
        (os : List Order) (next : Round → Outcome)
        → All
            (λ o.
              order_resolved o ≡ false
              → may_submit s ready ≡ true
              → (is_intent o.state ≡ true)
                ⊎ ((is_unknown o.state ≡ true) × (is_old w.now o.last_submit_at ≡ true))
              → (t : Tables) → P (post_of (prepared_of o) t))
            os
        → Continues P l ready next
        → Continues P l ready (follow_orders s w os next)
    unfolding follow_orders
    follow_orders-Sends [] next reasons keep r h = keep r h
    follow_orders-Sends (o ∷ os) next (reason, reasons) keep r h =
        elim (Bool-cases (order_resolved o)) [
          | inl over ↦ rw over (follow_orders-Sends os next reasons keep r h)
          | inr open_order ↦ rw open_order (
              follow_order-Sends o (follow_orders s w os next) (reason open_order)
                (follow_orders-Sends os next reasons keep) r h)
        ]

  -- A new order for the obligation.
  module _ (id : ℕ) (P : Post → Type 0)
      (reason : (x : Post) → may_submit s ready ≡ true → IsNew id w.now x → P x)
      (may : may_submit s ready ≡ true) where
    created :
        (attempt : ℕ) (p : PreparedPolymarketOrder) (r : Round) (a : Result (Tables × Bool))
        → create_hedge_order_intent (intent_of id attempt p) r.tables ≡ a
        → At l ready r
        → Sends P l (after_answer r a (send_created w p))
    unfolding after_answer send_created
    created attempt p r (ok (t, true)) granted h =
        post_prepared-Sends P l ready w p (with_tables t r)
          (λ t' marked. reason (post_of p t') may (record {
            attempt = attempt;
            before = r.tables;
            after = t;
            granted = granted;
            marked = marked;
          }))
          h
    created attempt p r (ok (t, false)) granted h = inl h.0
    created attempt p r (err e) granted h = inl h.0

    create_and_send-Sends :
        (attempt : ℕ) (p : PreparedPolymarketOrder)
        → Continues P l ready (create_and_send w id attempt p)
    unfolding create_and_send
    create_and_send-Sends attempt p r h = created attempt p r _ refl h

    recheck-Sends :
        (attempt : ℕ) (plan : HedgeEntryPlan) (p : PreparedPolymarketOrder)
        (again : Option HedgeEntryPlan)
        → Continues P l ready (recheck w id attempt plan p again)
    unfolding recheck
    recheck-Sends attempt plan p none r h = inl h.0
    recheck-Sends attempt plan p (some again) r h = elim (Bool-cases (same_plan plan again)) [
      | inl same ↦ rw same (create_and_send-Sends attempt p r h)
      | inr moved ↦ rw moved (inl h.0)
    ]

    with_new_book-Sends :
        (attempt : ℕ) (one_tick : Bool) (lowest : Option ℕ) (plan : HedgeEntryPlan)
        (p : PreparedPolymarketOrder) (b : Option OrderBook)
        → Continues P l ready (with_new_book s w id attempt one_tick lowest plan p b)
    unfolding with_new_book
    with_new_book-Sends attempt one_tick lowest plan p none r h = inl h.0
    with_new_book-Sends attempt one_tick lowest plan p (some book) r h =
        elim (Bool-cases (same_number (best_ask book) lowest)) [
          | inl same ↦ rw same (recheck-Sends attempt plan p _ r h)
          | inr moved ↦ rw moved (inl h.0)
        ]

    pub with_prepared-Sends :
        (attempt : ℕ) (one_tick : Bool) (lowest : Option ℕ) (plan : HedgeEntryPlan)
        (p : Option PreparedPolymarketOrder)
        → Continues P l ready (with_prepared s w id attempt one_tick lowest plan p)
    unfolding with_prepared meanwhile_at
    with_prepared-Sends attempt one_tick lowest plan none r h = inl h.0
    with_prepared-Sends attempt one_tick lowest plan (some p) r h =
        with_new_book-Sends attempt one_tick lowest plan p (w.book true p.token_id) _ h
