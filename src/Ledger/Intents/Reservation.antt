-- ===== src/Ledger/Intents/Reservation.antt =====
-- `create_hedge_order_intent` where it grants an intent.
use poly_zq_trading.Prelude.{
  ◌⊎◌, ℕ, ◌+◌, ◌≤◌, ◌<◌, List, [], ◌∷◌, ◌++◌, some, true, false, not, ◌≡◌, ◌≢◌, refl, sym, ap,
  subst, All, inl, inr, arith, Bool-cases, Option-cases, ==_iff,
}
use poly_zq_trading.Prelude.Int.{ℤ, pos, negsuc}
use poly_zq_trading.Ledger.Types.{Order, Obligation, Tables, ok}
use poly_zq_trading.Ledger.Queries.{is_polymarket, equals_some, order_resolved, find_obligation}
use poly_zq_trading.Ledger.Intents.{
  Intent, is_fresh_row, available_shares, is_available, new_order, is_signed, has_unresolved,
  reserve_order, create_hedge_order_intent,
}

-- A Polymarket order of the obligation.
abbrev pub IsOrderFor : ℕ → Order → Type 0
IsOrderFor id o = (is_polymarket o.venue ≡ true) × (o.obligation_id ≡ some id)

-- A granted intent: its quantity, the obligation it reserves from and the row that it adds.
pub record IsGranted (i : Intent) (t : Tables) (t' : Tables) : Type 0 where
  pub quantity : ℕ
  pub shares : i.shares ≡ pos quantity
  pub positive : 0 < quantity
  pub obligation : Obligation
  pub found : find_obligation i.obligation_id t.obligations ≡ some obligation
  pub in_bounds :
      obligation.confirmed_shares + obligation.pending_shares + quantity ≤ obligation.due_shares
  pub all_resolved : All (λ o. ¬ IsOrderFor i.obligation_id o ⊎ (order_resolved o ≡ true)) t.orders
  pub new_key : All (λ o. o.idempotency_key ≢ i.idempotency_key) t.orders
  pub row : t'.orders ≡ t.orders ++ (new_order i t.simulate_polymarket_fills obligation ∷ [])
  pub mode : is_signed i.signed_payload ≡ not t.simulate_polymarket_fills

available_lem :
    (z : ℤ) (ob : Obligation)
    → is_available z (available_shares ob) ≡ true
    → (n : ℕ) × (z ≡ pos n)
      × (0 < n)
      × (ob.confirmed_shares + ob.pending_shares + n ≤ ob.due_shares)
available_lem (pos n) ob h = (n, refl, ground arith, ground arith)
available_lem (negsuc n) ob h = ground arith

has_unresolved-All :
    (id : ℕ) (os : List Order)
    → has_unresolved id os ≡ false
    → All (λ o. ¬ IsOrderFor id o ⊎ (order_resolved o ≡ true)) os
unfolding has_unresolved
has_unresolved-All id [] h = tt
has_unresolved-All id (o ∷ os) h = (
  elim (Bool-cases (order_resolved o)) [
    | inl settled ↦ inr settled
    | inr open_order ↦ inl (λ (venue, named).
        ground (arith, subst (λ k. equals_some k id ≡ true) (sym named) ((==_iff id id).1 refl)))
  ],
  has_unresolved-All id os (ground arith),
)

fresh-All :
    (o : Order) (os : List Order)
    → is_fresh_row o os ≡ true
    → All (λ p. p.idempotency_key ≢ o.idempotency_key) os
unfolding is_fresh_row
fresh-All o [] h = tt
fresh-All o (p ∷ os) h = (
  λ same. ground (arith, (==_iff p.idempotency_key o.idempotency_key).1 same),
  fresh-All o os (ground arith),
)

reserve_order-IsGranted :
    (i : Intent) (ob : Obligation) (t t' : Tables)
    → find_obligation i.obligation_id t.obligations ≡ some ob
    → has_unresolved i.obligation_id t.orders ≡ false
    → is_signed i.signed_payload ≡ not t.simulate_polymarket_fills
    → reserve_order i (some ob) t ≡ ok (t', true)
    → IsGranted i t t'
unfolding reserve_order new_order
reserve_order-IsGranted i ob t t' found resolved mode h =
    elim (Bool-cases (is_available i.shares (available_shares ob))) [
      | inr short ↦ absurd (ground arith)
      | inl enough ↦
          elim (Bool-cases (is_fresh_row (new_order i t.simulate_polymarket_fills ob) t.orders)) [
            | inr taken ↦ absurd (ground arith)
            | inl fresh ↦
                let (n, eq, positive, le) = available_lem i.shares ob enough in
                record {
                  quantity = n;
                  shares = eq;
                  positive = positive;
                  obligation = ob;
                  found = found;
                  in_bounds = le;
                  all_resolved = has_unresolved-All i.obligation_id t.orders resolved;
                  new_key = fresh-All (new_order i t.simulate_polymarket_fills ob) t.orders fresh;
                  row = ground arith;
                  mode = mode;
                }
          ]
    ]

-- An intent that is granted is for a positive quantity that with the confirmed and the pending
-- shares of its obligation does not pass what is due; all orders of the obligation were resolved
-- before it, no order had its key, its row is added last, and it carries a signed payload exactly
-- outside simulation.
pub create_hedge_order_intent-IsGranted :
    (i : Intent) (t t' : Tables) → create_hedge_order_intent i t ≡ ok (t', true) → IsGranted i t t'
unfolding create_hedge_order_intent reserve_order
create_hedge_order_intent-IsGranted i t t' h =
    elim (Option-cases (find_obligation i.obligation_id t.obligations)) [
      | inl missing ↦ absurd (ground arith)
      | inr (ob, found) ↦
          reserve_order-IsGranted i ob t t' found (ground arith) (ground arith) (ground arith)
    ]

All-last {ℓ κ} : {A : Type ℓ} (P : A → Type κ) (y : A) (xs : List A) → All P (xs ++ (y ∷ [])) → P y
All-last P y [] h = h.0
All-last P y (x ∷ xs) h = All-last P y xs h.1

-- After an intent is granted no intent for the same obligation is: none of them gives new tables.
pub create_hedge_order_intent-exclusive :
    (i j : Intent) (t t' t'' : Tables)
    → create_hedge_order_intent i t ≡ ok (t', true)
    → j.obligation_id ≡ i.obligation_id
    → create_hedge_order_intent j t' ≢ ok (t'', true)
unfolding new_order order_resolved
create_hedge_order_intent-exclusive i j t t' t'' granted same again =
    let first = create_hedge_order_intent-IsGranted i t t' granted in
    let second = create_hedge_order_intent-IsGranted j t' t'' again in
    let row = new_order i t.simulate_polymarket_fills first.obligation in
    let settled =
      All-last (λ o. ¬ IsOrderFor j.obligation_id o ⊎ (order_resolved o ≡ true)) row t.orders
        (subst (All (λ o. ¬ IsOrderFor j.obligation_id o ⊎ (order_resolved o ≡ true))) first.row
          second.all_resolved) in
    elim settled [
      | inl other ↦ other (refl, ap some (sym same))
      | inr resolved ↦ ground (arith, resolved)
    ]
