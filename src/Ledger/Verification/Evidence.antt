-- ===== src/Ledger/Verification/Evidence.antt =====
-- What a positive answer of `verify_polymarket_order` rests on, and what it leaves.
use native.Mathlib.Nat.{le_trans}
use poly_zq_trading.Prelude.{
  ℕ, ◌≤◌, List, [], ◌∷◌, Option, none, some, Bool, true, false, ◌&&◌, all, contains, find, map, ◌≡◌,
  ◌⊎◌, refl, sym, ap, subst, All, inl, inr, arith, Bool-cases, Option-cases,
}
use poly_zq_trading.Prelude.Int.{pos, negsuc}
use poly_zq_trading.Ledger.Types.{
  OrderId, Order, Execution, Obligation, Tables, Result, ok, err, Number, finite, not_finite,
}
use poly_zq_trading.Ledger.Queries.{
  is_terminal, is_polymarket, same_id, order_resolved, find_polymarket_order, find_obligation,
}
use poly_zq_trading.Ledger.Refresh.{
  recorded_under, reopen, reopen_orders, refresh_with, refresh_hedge,
}
use poly_zq_trading.Ledger.Refresh.Accounted.{
  find-true, find-write, order_ids, refresh_batch_state-orders,
}
use poly_zq_trading.Ledger.Intents.{refresh_named}
use poly_zq_trading.Ledger.Verification.{
  Snapshot, recorded_shares, known_trades, is_verified, is_stale, check_order, answer, verify_size,
  verify_matched, verify_polymarket_order,
}

-- The venue says that the order is over, and every share and trade it names is recorded.
pub record IsEvidence (s : Snapshot) (matched : ℕ) (o : Order) (id : OrderId) (es : List Execution)
    : Type 0 where
  pub terminal : is_terminal s.status ≡ true
  pub recorded : recorded_shares id es ≡ matched
  pub in_quantity : matched ≤ o.quantity
  pub trades : All (λ trade. contains trade (known_trades id es) ≡ true) s.associate_trades

-- The order was resolved before, by an answer that saw at least as much.
pub record IsOutdated (matched : ℕ) (o : Order) (id : OrderId) (es : List Execution) : Type 0 where
  pub resolved : order_resolved o ≡ true
  pub seen : matched ≤ o.venue_matched_shares
  pub recorded : recorded_shares id es ≤ matched

all-All {ℓ} : {A : Type ℓ} (p : A → Bool) (xs : List A) → all p xs ≡ true → All (λ x. p x ≡ true) xs
all-All p [] h = tt
all-All p (x ∷ xs) h = (ground arith, all-All p xs (ground arith))

is_verified-IsEvidence :
    (s : Snapshot) (matched : ℕ) (o : Order) (id : OrderId) (es : List Execution)
    → is_verified s matched o id es ≡ true
    → IsEvidence s matched o id es
unfolding is_verified
is_verified-IsEvidence s matched o id es h = record {
  terminal = ground arith;
  recorded = ground arith;
  in_quantity = ground arith;
  trades = all-All (λ trade. contains trade (known_trades id es)) s.associate_trades (ground arith);
}

is_stale-IsOutdated :
    (matched : ℕ) (verified : Bool) (o : Order) (id : OrderId) (es : List Execution)
    → is_stale matched verified o id es ≡ true
    → IsOutdated matched o id es
unfolding is_stale
is_stale-IsOutdated matched verified o id es h = record {
  resolved = ground arith;
  seen = ground arith;
  recorded = ground arith;
}

recorded_under-le :
    (id : OrderId) (ids : List OrderId) (es : List Execution)
    → recorded_under id ids es ≤ recorded_shares id es
unfolding recorded_under recorded_shares
recorded_under-le id ids [] = omega arith
recorded_under-le id ids (e ∷ es) = let rest = recorded_under-le id ids es in ground (arith, rest)

-- An order that has all its recorded shares matched stays resolved.
reopen-resolved :
    (ob : Obligation) (ids : List OrderId) (es : List Execution) (o : Order)
    → order_resolved o ≡ true
    → recorded_under o.venue_order_id ids es ≤ o.venue_matched_shares
    → order_resolved (reopen ob ids es o) ≡ true
unfolding reopen order_resolved
reopen-resolved ob ids es o resolved le = ground arith

find-map {ℓ} :
    {A : Type ℓ} (p : A → Bool) (f : A → A)
    → ((x : A) → p (f x) ≡ p x)
    → (x : A) (xs : List A) → find p xs ≡ some x
    → find p (map f xs) ≡ some (f x)
find-map p f same x [] h = absurd (ground arith)
find-map p f same x (y ∷ ys) h = elim (Bool-cases (p y)) [
  | inl here ↦ rw (same y) (rw here (ap (λ z. some (f z)) (ground arith)))
  | inr there ↦ rw (same y) (rw there (find-map p f same x ys (ground arith)))
]

-- The order under the id is there and resolved.
abbrev pub IsResolved : OrderId → Tables → Type 0
IsResolved id t =
    (o : Order) × (find_polymarket_order id t.orders ≡ some o) × (order_resolved o ≡ true)

abbrev ResolvedIn : OrderId → Result Tables → Type 0
ResolvedIn id (ok t) = IsResolved id t
ResolvedIn id (err e) = Unit

same_row :
    (ob : Obligation) (ids : List OrderId) (es : List Execution) (id : OrderId) (o : Order)
    → (is_polymarket (reopen ob ids es o).venue && same_id (reopen ob ids es o).venue_order_id id)
      ≡ (is_polymarket o.venue && same_id o.venue_order_id id)
unfolding reopen
same_row ob ids es id o = refl

refresh_with-IsResolved :
    (ob : Obligation) (t : Tables) (id : OrderId) (o : Order)
    → find_polymarket_order id t.orders ≡ some o
    → order_resolved o ≡ true
    → recorded_shares o.venue_order_id t.executions ≤ o.venue_matched_shares
    → IsResolved id (refresh_with ob t)
unfolding refresh_with reopen_orders
refresh_with-IsResolved ob t id o found resolved le =
    let ids = order_ids ob t.orders in
    (
      reopen ob ids t.executions o,
      rw (refresh_batch_state-orders ob.batch_id _) (
          find-map (λ p. is_polymarket p.venue && same_id p.venue_order_id id)
            (reopen ob ids t.executions) (same_row ob ids t.executions id) o t.orders found),
      reopen-resolved ob ids t.executions o resolved
          (le_trans (recorded_under-le o.venue_order_id ids t.executions) le),
    )

refresh_named-IsResolved :
    (named : Option ℕ) (t : Tables) (id : OrderId) (o : Order)
    → find_polymarket_order id t.orders ≡ some o
    → order_resolved o ≡ true
    → recorded_shares o.venue_order_id t.executions ≤ o.venue_matched_shares
    → ResolvedIn id (refresh_named named t)
unfolding refresh_hedge
refresh_named-IsResolved none t id o found resolved le = tt
refresh_named-IsResolved (some ob_id) t id o found resolved le =
    elim (Option-cases (find_obligation ob_id t.obligations)) [
      | inl missing ↦ rw (refresh_hedge, missing) tt
      | inr (ob, there) ↦
          rw (refresh_hedge, there) (refresh_with-IsResolved ob t id o found resolved le)
    ]

pub same_id_eq : (a b : OrderId) → same_id a b ≡ true → a ≡ b
same_id_eq a b h = ground arith

-- What stands behind the answer that an order is settled: an answer of the venue that is older
-- than what resolved it, with the tables as they were, or evidence that the order is over.
pub record IsProved (s : Snapshot) (matched : ℕ) (id : OrderId) (t t' : Tables) : Type 0 where
  pub order : Order
  pub found : find_polymarket_order id t.orders ≡ some order
  pub reason :
      (IsOutdated matched order id t.executions × (t' ≡ t))
      ⊎ IsEvidence s matched order id t.executions
  pub resolved : IsResolved id t'

abbrev ProvedIn : Snapshot → ℕ → OrderId → Tables → Result (Tables × Bool) → Type 0
ProvedIn s matched id t (ok (t', true)) = IsProved s matched id t t'
ProvedIn s matched id t _ = Unit

answer_lem :
    (s : Snapshot) (matched : ℕ) (id : OrderId) (t : Tables) (o : Order) (verified : Bool)
    (r : Result Tables)
    → find_polymarket_order id t.orders ≡ some o
    → (verified ≡ true → IsEvidence s matched o id t.executions × ResolvedIn id r)
    → ProvedIn s matched id t (answer verified r)
answer_lem s matched id t o true (ok t') found why = record {
  order = o;
  found = found;
  reason = inr (why refl).0;
  resolved = (why refl).1;
}
answer_lem s matched id t o false (ok t') found why = tt
answer_lem s matched id t o verified (err e) found why = tt

verified_row :
    (s : Snapshot) (matched now : ℕ) (id : OrderId) (t : Tables) (o : Order)
    → find_polymarket_order id t.orders ≡ some o
    → is_verified s matched o id t.executions ≡ true
    → ResolvedIn id (refresh_named o.obligation_id (check_order id s matched true now o t))
unfolding check_order order_resolved
verified_row s matched now id t o found verified =
    let evidence = is_verified-IsEvidence s matched o id t.executions verified in
    let row =
      find-true (λ p. is_polymarket p.venue && same_id p.venue_order_id id) o t.orders found in
    refresh_named-IsResolved o.obligation_id _ id _ (find-write _ _ o t.orders found row)
      (rw evidence.terminal refl)
      (subst (λ i. recorded_shares i t.executions ≤ matched)
        (sym (same_id_eq o.venue_order_id id (ground arith))) (omega (arith, evidence.recorded)))

verify_matched-ProvedIn :
    (id : OrderId) (s : Snapshot) (matched now : ℕ) (t : Tables)
    → ProvedIn s matched id t (verify_matched id s matched now t)
unfolding verify_matched
verify_matched-ProvedIn id s matched now t =
    elim (Option-cases (find_polymarket_order id t.orders)) [
      | inl missing ↦ rw (verify_matched, missing) tt
      | inr (o, found) ↦
          let verified = is_verified s matched o id t.executions in
          elim (Bool-cases (is_stale matched verified o id t.executions)) [
            | inl stale ↦
                let outdated = is_stale-IsOutdated matched verified o id t.executions stale in
                rw (verify_matched, found)
                  (rw stale (record {
                    order = o;
                    found = found;
                    reason = inl (outdated, refl);
                    resolved = (o, found, outdated.resolved);
                  }))
            | inr current ↦
                rw (verify_matched, found)
                  (rw current (
                    answer_lem s matched id t o verified _ found (λ yes. (
                      is_verified-IsEvidence s matched o id t.executions yes,
                      subst
                          (λ v.
                            ResolvedIn id
                              (refresh_named o.obligation_id (check_order id s matched v now o t)))
                          (sym yes) (verified_row s matched now id t o found yes),
                    ))))
          ]
    ]

verify_size-IsProved :
    (size : Option Number) (id : OrderId) (s : Snapshot) (now : ℕ) (t t' : Tables)
    → verify_size size id s now t ≡ ok (t', true)
    → (matched : ℕ) × (size ≡ some (finite (pos matched))) × IsProved s matched id t t'
verify_size-IsProved none id s now t t' h = absurd (ground arith)
verify_size-IsProved (some not_finite) id s now t t' h = absurd (ground arith)
verify_size-IsProved (some (finite (negsuc n))) id s now t t' h = absurd (ground arith)
verify_size-IsProved (some (finite (pos matched))) id s now t t' h =
    (matched, refl, subst (ProvedIn s matched id t) h (verify_matched-ProvedIn id s matched now t))

-- An order is answered to be settled only when the venue's matched size is a number, and either
-- an older answer comes for an order that was resolved before, which changes nothing, or the
-- venue's status is terminal, the recorded shares are exactly the matched size, which is within
-- the order's quantity, and every associated trade is recorded. The order is then resolved.
pub verify_polymarket_order-IsProved :
    (id : OrderId) (s : Snapshot) (now : ℕ) (t t' : Tables)
    → verify_polymarket_order id s now t ≡ ok (t', true)
    → (matched : ℕ) × (s.size_matched ≡ some (finite (pos matched))) × IsProved s matched id t t'
unfolding verify_polymarket_order
verify_polymarket_order-IsProved id s now t t' h =
    verify_size-IsProved s.size_matched id s now t t' h
