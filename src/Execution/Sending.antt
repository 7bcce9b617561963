-- ===== src/Execution/Sending.antt =====
-- What a round of `_route_one_hedge` sends to the venue.
use poly_zq_trading.Prelude.{
  refl, ℕ, List, [], ◌∷◌, ◌++◌, Option, none, some, Bool, true, false, ◌&&◌, ltb, ◌≡◌, ◌⊎◌, ap, inl,
  inr, Bool-cases,
}
use poly_zq_trading.Ledger.Intents.{set_hedge_submission_state}
use poly_zq_trading.Ledger.Types.{OrderState, OrderId, Tables, Result, ok, err}
use poly_zq_trading.Ledger.Verification.{Snapshot}
use poly_zq_trading.Execution.Safety.{invalidate_reconciliation}
use poly_zq_trading.Execution.Posting.{
  Post, returned, HedgeSettings, HedgeSurroundings, PreparedPolymarketOrder, PolymarketOrderResult,
  Round, Outcome, round_of, after_session, after_answer, after_post, record_match, send,
  post_prepared, meanwhile_at, with_tables, invalidate_polymarket_reconciliation,
}
use poly_zq_trading.Execution.Routing.{
  check_resting, cancel_stale, verify_final, go_on, is_resting, is_stale_order, set_default,
}

abbrev pub post_of : PreparedPolymarketOrder → Tables → Post
post_of p t = record { order = p; tables = t }

-- The posts so far, or one more, which has a reason.
abbrev pub Sends : (Post → Type 0) → List Post → Outcome → Type 0
Sends P l out =
    ((round_of out).posts ≡ l) ⊎ ((p : Post) × ((round_of out).posts ≡ l ++ (p ∷ [])) × P p)

-- A round that has sent so much, and may send or not.
abbrev pub At : List Post → Bool → Round → Type 0
At l ready r = (r.posts ≡ l) × (r.own.recovery_ready ≡ ready)

-- The rest of a round, from any such round.
abbrev pub Continues : (Post → Type 0) → List Post → Bool → (Round → Outcome) → Type 0
Continues P l ready next = (r : Round) → At l ready r → Sends P l (next r)

module _ (P : Post → Type 0) (l : List Post) (ready : Bool) where
  pub session-Sends :
      (r : Round) (t : Result Tables) (k : Round → Outcome)
      → At l ready r
      → Continues P l ready k
      → Sends P l (after_session r t k)
  unfolding after_session
  session-Sends r (ok t) k h keep = keep (with_tables t r) h
  session-Sends r (err e) k h keep = inl h.0

  pub answer-Sends :
      (r : Round) (a : Result (Tables × Bool)) (k : Bool → Round → Outcome)
      → At l ready r
      → ((b : Bool) → Continues P l ready (k b))
      → Sends P l (after_answer r a k)
  unfolding after_answer
  answer-Sends r (ok (t, b)) k h keep = keep b (with_tables t r) h
  answer-Sends r (err e) k h keep = inl h.0

-- Nothing is sent after a post.
abbrev Quiet : List Post → (Round → Outcome) → Type 0
Quiet l k = (r : Round) → r.posts ≡ l → (round_of (k r)).posts ≡ l

session-Quiet :
    (l : List Post) (r : Round) (t : Result Tables) (k : Round → Outcome)
    → r.posts ≡ l
    → Quiet l k
    → (round_of (after_session r t k)).posts ≡ l
unfolding after_session
session-Quiet l r (ok t) k h keep = keep (with_tables t r) h
session-Quiet l r (err e) k h keep = h

answer-Quiet :
    (l : List Post) (r : Round) (a : Result (Tables × Bool))
    → r.posts ≡ l
    → (round_of (after_answer r a (λ _ r'. returned r'))).posts ≡ l
unfolding after_answer
answer-Quiet l r (ok (t, b)) h = h
answer-Quiet l r (err e) h = h

record_match-Quiet :
    (w : HedgeSurroundings) (p : PolymarketOrderResult) (l : List Post) → Quiet l (record_match w p)
unfolding record_match
record_match-Quiet w p l r h = elim (Bool-cases (ltb 0 p.immediately_matched_shares)) [
  | inl some_matched ↦ rw some_matched (answer-Quiet l r _ h)
  | inr none_matched ↦ rw none_matched h
]

after_post-Quiet :
    (w : HedgeSurroundings) (key : ℕ) (o : Option PolymarketOrderResult) (l : List Post)
    → Quiet l (after_post w key o)
unfolding after_post
after_post-Quiet w key none l r h = session-Quiet l r _ _ h (λ r' e. e)
after_post-Quiet w key (some p) l r h =
    session-Quiet l r _ _ h (λ r' e. record_match-Quiet w p l _ e)

module _ (P : Post → Type 0) (l : List Post) (ready : Bool) where
  send-Sends :
      (w : HedgeSurroundings) (p : PreparedPolymarketOrder) (r : Round)
      → P (post_of p r.tables)
      → At l ready r
      → Sends P l (send w p r)
  unfolding send meanwhile_at
  send-Sends w p r reason h = inr (
    post_of p r.tables,
    after_post-Quiet w p.idempotency_key (w.post p) (l ++ (post_of p r.tables ∷ [])) _
        (ap (λ ps. ps ++ (post_of p r.tables ∷ [])) h.0),
    reason,
  )

  marked-Sends :
      (w : HedgeSurroundings) (p : PreparedPolymarketOrder) (r : Round) (a : Result Tables)
      → ((t : Tables) → a ≡ ok t → P (post_of p t))
      → At l ready r
      → Sends P l (after_session r a (send w p))
  unfolding after_session
  marked-Sends w p r (ok t) reason h = send-Sends w p (with_tables t r) (reason t refl) h
  marked-Sends w p r (err e) reason h = inl h.0

  -- A post marks its order and sends it once, or, where the ledger refuses, does not send it.
  pub post_prepared-Sends :
      (w : HedgeSurroundings) (p : PreparedPolymarketOrder) (r : Round)
      → ((t : Tables)
          → set_hedge_submission_state p.idempotency_key OrderState.submitting w.now r.tables ≡ ok t
          → P (post_of p t))
      → At l ready r
      → Sends P l (post_prepared w p r)
  unfolding post_prepared invalidate_polymarket_reconciliation invalidate_reconciliation
  post_prepared-Sends w p r reason h = marked-Sends w p _ _ reason h

  go_on-Sends :
      (next : Round → Outcome) (b : Bool)
      → Continues P l ready next
      → Continues P l ready (go_on next b)
  unfolding go_on
  go_on-Sends next true keep r h = keep r h
  go_on-Sends next false keep r h = inl h.0

  verify_final-Sends :
      (w : HedgeSurroundings) (id : OrderId) (next : Round → Outcome) (a : Option Snapshot)
      → Continues P l ready next
      → Continues P l ready (verify_final w id next a)
  unfolding verify_final
  verify_final-Sends w id next none keep r h = inl h.0
  verify_final-Sends w id next (some answer) keep r h =
      answer-Sends P l ready r _ (go_on next) h (λ b. go_on-Sends next b keep)

  cancel_stale-Sends :
      (w : HedgeSurroundings) (id : OrderId) (next : Round → Outcome)
      → Continues P l ready next
      → Continues P l ready (cancel_stale w id next)
  unfolding cancel_stale meanwhile_at invalidate_polymarket_reconciliation invalidate_reconciliation
  cancel_stale-Sends w id next keep r h = session-Sends P l ready _ _ _ h (λ r' e.
      elim (Bool-cases (w.cancel_order id)) [
        | inl gone ↦ rw gone (verify_final-Sends w id next _ keep _ e)
        | inr refused ↦ rw refused (inl e.0)
      ])

  pub check_resting-Sends :
      (s : HedgeSettings) (w : HedgeSurroundings) (id : OrderId) (answer : Snapshot)
      (next : Round → Outcome) (b : Bool)
      → Continues P l ready next
      → Continues P l ready (check_resting s w id answer next b)
  unfolding check_resting set_default
  check_resting-Sends s w id answer next true keep r h = keep r h
  check_resting-Sends s w id answer next false keep r h =
      elim (Bool-cases
        (is_resting answer.status && is_stale_order s w id (set_default w.now id r))) [
          | inl stale ↦ rw stale (cancel_stale-Sends w id next keep _ h)
          | inr fresh ↦ rw fresh (inl h.0)
        ]
