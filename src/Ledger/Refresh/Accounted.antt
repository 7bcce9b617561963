-- ===== src/Ledger/Refresh/Accounted.antt =====
-- What a refreshed obligation says of its orders and executions.
use poly_zq_trading.Prelude.{
  ℕ, ◌+◌, ◌-◌, ◌≤◌, List, [], ◌∷◌, some, map, Bool, true, false, any, not, filter, find, min, ◌==◌,
  ◌≡◌, ◌⊎◌, ◌∙◌, refl, sym, ap, subst, ◌↔◌, All, inl, inr, arith, Bool-cases, ==_iff,
}
use poly_zq_trading.Ledger.Types.{
  OrderId, ObligationState, Order, Execution, Obligation, Tables, ok,
}
use poly_zq_trading.Ledger.Queries.{order_resolved, is_order_of, orders_of, find_obligation, write}
use poly_zq_trading.Ledger.Refresh.{
  recorded_under, reopen, reopen_orders, settle, obligation_state, refresh_obligation,
  refresh_batch_state, refresh_with, refresh_hedge,
}
use poly_zq_trading.Ledger.Refresh.Settling.{
  confirmed_of, pending_of, allocated_of, settle-confirmed, settle-pending, settle-allocated,
  confirmed_of-settle, pending_of-settle, recorded_under-settle,
}

abbrev pub order_ids : Obligation → List Order → List OrderId
order_ids ob orders = map (λ o. o.venue_order_id) (orders_of ob orders)

-- A resolved real order has no more recorded than the venue matched.
abbrev pub IsEvidenced : List OrderId → List Execution → Order → Type 0
IsEvidenced ids es o =
    (order_resolved o ≡ false)
    ⊎ (o.simulated ≡ true)
    ⊎ (recorded_under o.venue_order_id ids es ≤ o.venue_matched_shares)

pub record IsAccounted (orders : List Order) (executions : List Execution) (ob : Obligation)
    : Type 0 where
  pub actual : ob.actual_confirmed_shares ≡ confirmed_of (order_ids ob orders) executions
  pub pending : ob.pending_shares ≡ pending_of (order_ids ob orders) executions
  pub credited : ob.confirmed_shares ≡ min ob.actual_confirmed_shares ob.due_shares
  pub allocated : allocated_of (order_ids ob orders) executions ≡ ob.confirmed_shares
  pub excess : ob.excess_shares ≡ ob.actual_confirmed_shares + ob.pending_shares - ob.due_shares
  pub evidenced : All (IsEvidenced (order_ids ob orders) executions) (orders_of ob orders)
  pub is_hedged : (ob.state ≡ ObligationState.hedged) ↔ (
      (ob.actual_confirmed_shares ≡ ob.due_shares)
      × (ob.pending_shares ≡ 0)
      × (any (λ o. not (order_resolved o)) (orders_of ob orders) ≡ false))

obligation_state-hedged :
    (due c p : ℕ) (open_order : Bool)
    → (obligation_state due c p open_order ≡ ObligationState.hedged)
      ↔ ((c ≡ due) × (p ≡ 0) × (open_order ≡ false))
unfolding obligation_state
obligation_state-hedged due c p open_order = ground arith

reopen_orders-ids :
    (ob : Obligation) (ids : List OrderId) (es : List Execution) (os : List Order)
    → order_ids ob (reopen_orders ob ids es os) ≡ order_ids ob os
unfolding reopen_orders reopen
reopen_orders-ids ob ids es [] = refl
reopen_orders-ids ob ids es (o ∷ os) =
    let rest = reopen_orders-ids ob ids es os in
    elim (Bool-cases (is_order_of ob o)) [
      | inl own ↦ rw own (ap (λ is. o.venue_order_id ∷ is) rest)
      | inr other ↦ rw other rest
    ]

reopen-IsEvidenced :
    (ob : Obligation) (ids : List OrderId) (es : List Execution) (o : Order)
    → is_order_of ob (reopen ob ids es o) ≡ true
    → IsEvidenced ids es (reopen ob ids es o)
unfolding reopen order_resolved
reopen-IsEvidenced ob ids es o own = ground arith

pub find-write {ℓ} :
    {A : Type ℓ} (p : A → Bool) (a x : A) (xs : List A)
    → find p xs ≡ some x
    → p a ≡ true
    → find p (write p a xs) ≡ some a
unfolding write
find-write p a x [] h own = absurd (ground arith)
find-write p a x (y ∷ ys) h own = elim (Bool-cases (p y)) [
  | inl e ↦ rw e (rw own refl)
  | inr e ↦ rw e (rw e (find-write p a x ys (ground arith) own))
]

pub refresh_batch_state-orders :
    (id : ℕ) (t : Tables) → (refresh_batch_state id t).orders ≡ t.orders
unfolding refresh_batch_state
refresh_batch_state-orders id t = ground arith

pub refresh_batch_state-executions :
    (id : ℕ) (t : Tables) → (refresh_batch_state id t).executions ≡ t.executions
unfolding refresh_batch_state
refresh_batch_state-executions id t = ground arith

refresh_batch_state-obligations :
    (id : ℕ) (t : Tables) → (refresh_batch_state id t).obligations ≡ t.obligations
unfolding refresh_batch_state
refresh_batch_state-obligations id t = ground arith

filter-map-All {ℓ κ} :
    {A : Type ℓ} (p : A → Bool) (P : A → Type κ) (f : A → A)
    → ((x : A) → p (f x) ≡ true → P (f x))
    → (xs : List A) → All P (filter p (map f xs))
filter-map-All p P f h [] = tt
filter-map-All p P f h (x ∷ xs) =
    let rest = filter-map-All p P f h xs in
    elim (Bool-cases (p (f x))) [ inl e ↦ rw e (h x e, rest) | inr e ↦ rw e rest ]

-- The refreshed rows, without the batch.
abbrev settled : Obligation → List Order → List Execution → List Execution × ℕ × ℕ
settled ob orders es = settle ob.due_shares (order_ids ob orders) 0 0 es

abbrev reopened : Obligation → List Order → List Execution → List Order
reopened ob orders es = reopen_orders ob (order_ids ob orders) es orders

abbrev refreshed : Obligation → List Order → List Execution → Obligation
refreshed ob orders es =
    refresh_obligation (order_ids ob orders) (settled ob orders es).1 (settled ob orders es).2
      (any (λ o. not (order_resolved o)) (orders_of ob (reopened ob orders es))) ob

refreshed-IsAccounted :
    (ob : Obligation) (orders : List Order) (es : List Execution)
    → IsAccounted (reopened ob orders es) (settled ob orders es).0 (refreshed ob orders es)
unfolding refresh_obligation recorded_under reopen reopen_orders
refreshed-IsAccounted ob orders es =
    let ids = order_ids ob orders in
    let same = sym (reopen_orders-ids ob ids es orders) in
    let after = (settled ob orders es).0 in
    record {
      actual = omega (
        arith,
        settle-confirmed ob.due_shares ids 0 0 es,
        confirmed_of-settle ob.due_shares ids 0 0 es,
        ap (λ is. confirmed_of is after) same,
      );
      pending = omega (
        arith,
        settle-pending ob.due_shares ids 0 0 es,
        pending_of-settle ob.due_shares ids 0 0 es,
        ap (λ is. pending_of is after) same,
      );
      credited = refl;
      allocated = omega (
        arith,
        settle-confirmed ob.due_shares ids 0 0 es,
        settle-allocated ob.due_shares ids 0 0 es,
        ap (λ is. allocated_of is after) same,
      );
      excess = refl;
      evidenced =
          filter-map-All (is_order_of ob) (IsEvidenced (order_ids ob (reopened ob orders es)) after)
            (reopen ob ids es)
            (λ o own.
              subst
                (λ n.
                  (order_resolved (reopen ob ids es o) ≡ false)
                  ⊎ (o.simulated ≡ true)
                  ⊎ (n ≤ o.venue_matched_shares))
                (sym (recorded_under-settle o.venue_order_id ob.due_shares ids 0 0 es)
                  ∙ ap (λ is. recorded_under o.venue_order_id is after) same)
                (reopen-IsEvidenced ob ids es o own))
            orders;
      is_hedged =
          obligation_state-hedged ob.due_shares (settled ob orders es).1 (settled ob orders es).2
            (any (λ o. not (order_resolved o)) (orders_of ob (reopened ob orders es)));
    }

-- What `refresh_hedge` leaves in the place of an obligation: the row of the same id, accounted
-- for by the orders and executions that stand beside it.
abbrev pub IsRefreshed : ℕ → Tables → Type 0
IsRefreshed id t =
    (ob : Obligation) × (find_obligation id t.obligations ≡ some ob)
    × IsAccounted t.orders t.executions ob

refresh_batch_state-IsRefreshed :
    (batch id : ℕ) (t : Tables) → IsRefreshed id t → IsRefreshed id (refresh_batch_state batch t)
refresh_batch_state-IsRefreshed batch id t h =
    rw (refresh_batch_state-obligations batch t)
      (rw (refresh_batch_state-orders batch t) (rw (refresh_batch_state-executions batch t) h))

pub find-true {ℓ} :
    {A : Type ℓ} (p : A → Bool) (x : A) (xs : List A) → find p xs ≡ some x → p x ≡ true
find-true p x [] h = ground arith
find-true p x (y ∷ ys) h = elim (Bool-cases (p y)) [
  | inl e ↦ ground arith
  | inr e ↦ find-true p x ys (ground arith)
]

refresh_with-IsRefreshed :
    (ob : Obligation) (t : Tables)
    → find_obligation ob.obligation_id t.obligations ≡ some ob
    → IsRefreshed ob.obligation_id (refresh_with ob t)
unfolding refresh_with refresh_obligation
refresh_with-IsRefreshed ob t found =
    refresh_batch_state-IsRefreshed ob.batch_id ob.obligation_id _ (
      refreshed ob t.orders t.executions,
      find-write (λ o. o.obligation_id == ob.obligation_id) (refreshed ob t.orders t.executions) ob
          t.obligations found ((==_iff ob.obligation_id ob.obligation_id).1 refl),
      refreshed-IsAccounted ob t.orders t.executions,
    )

-- Refreshing an obligation that is there succeeds, and leaves a row under its id whose confirmed
-- and pending quantities are those of the executions under its orders, whose credit is the
-- confirmed quantity up to what is due and is what its executions are allocated, whose excess is
-- all beyond what is due, and which is hedged exactly when the confirmed quantity is what is due,
-- nothing is pending and all its orders are resolved; none of its resolved real orders has more
-- recorded than the venue matched.
pub refresh_hedge-IsRefreshed :
    (id : ℕ) (t : Tables) (ob : Obligation)
    → find_obligation id t.obligations ≡ some ob
    → (t' : Tables) × (refresh_hedge id t ≡ ok t') × IsRefreshed id t'
unfolding refresh_hedge
refresh_hedge-IsRefreshed id t ob found =
    let same =
      (==_iff ob.obligation_id id).0
        (find-true (λ o. o.obligation_id == id) ob t.obligations found) in
    (
      refresh_with ob t,
      rw (refresh_hedge, found) refl,
      subst (λ i. IsRefreshed i (refresh_with ob t)) same
          (refresh_with-IsRefreshed ob t
            (subst (λ i. find_obligation i t.obligations ≡ some ob) (sym same) found)),
    )
