-- ===== src/Ledger/Safety.antt =====
-- The venue receipts over their life, and the meaning of the safety differences.
use mathlib.Core.List.{append-nil}
use poly_zq_trading.Prelude.{
  ℕ, List, [], ◌∷◌, ◌++◌, none, some, Bool, true, false, ◌&&◌, not, filter, find, map, ◌≡◌, ◌↔◌,
  ◌⊎◌, refl, ap, ◌∙◌, All, inl, inr, arith, Bool-cases, ==_iff,
}
use poly_zq_trading.Ledger.Types.{Venue, ibkr, polymarket, Order, Obligation, Tables}
use poly_zq_trading.Ledger.Queries.{is_polymarket, order_resolved, write}
use poly_zq_trading.Ledger.Receipts.{
  VenueEvent, excess_hedges, pending_settlement, same_venue, is_event, new_event,
  save_venue_receipt, finish_venue_receipt, pending_venue_receipts, hedge_safety_differences,
  is_some, is_empty,
}

-- A receipt that was processed, or is of the other venue.
abbrev pub IsProcessed : VenueEvent → Type 0
IsProcessed e = e.processed ≡ true

pub record IsSettled (t : Tables) (events : List VenueEvent) : Type 0 where
  pub orders : All (λ o. (is_polymarket o.venue ≡ false) ⊎ (order_resolved o ≡ true)) t.orders
  pub obligations : All (λ ob. (ob.excess_shares ≡ 0) × (ob.pending_shares ≡ 0)) t.obligations
  pub receipts : All IsProcessed events

orders_lem :
    (os : List Order)
    → (is_some (
          map
            (λ o. o.venue_order_id)
            (filter (λ o. not (order_resolved o)) (filter (λ o. is_polymarket o.venue) os)))
        ≡ false)
      ↔ All (λ o. (is_polymarket o.venue ≡ false) ⊎ (order_resolved o ≡ true)) os
orders_lem [] = ground arith
orders_lem (o ∷ os) = let rest = orders_lem os in ground (arith, rest)

obligations_lem :
    (obs : List Obligation)
    → ((is_some (excess_hedges obs) ≡ false) × (is_some (pending_settlement obs) ≡ false))
      ↔ All (λ ob. (ob.excess_shares ≡ 0) × (ob.pending_shares ≡ 0)) obs
obligations_lem [] = ground arith
obligations_lem (ob ∷ obs) = let rest = obligations_lem obs in ground (arith, rest)

receipts_lem :
    (events : List VenueEvent)
    → ((is_some (pending_venue_receipts ibkr events) ≡ false)
        × (is_some (pending_venue_receipts polymarket events) ≡ false))
      ↔ All IsProcessed events
unfolding pending_venue_receipts
receipts_lem [] = ground arith
receipts_lem (e ∷ events) = let rest = receipts_lem events in ground (arith, rest)

-- There are no differences exactly when every Polymarket order is resolved, no obligation has
-- shares in excess or pending, and every receipt of both venues is processed.
pub hedge_safety_differences-IsSettled :
    (t : Tables) (events : List VenueEvent)
    → (is_empty (hedge_safety_differences t events) ≡ true) ↔ IsSettled t events
unfolding hedge_safety_differences
hedge_safety_differences-IsSettled t events =
    let orders = orders_lem t.orders in
    let obligations = obligations_lem t.obligations in
    let receipts = receipts_lem events in
    (
      λ h. record {
        orders = orders.0 (ground arith);
        obligations = obligations.0 (ground arith, ground arith);
        receipts = receipts.0 (ground arith, ground arith);
      },
      λ h. ground (arith, orders.1 h.orders, obligations.1 h.obligations, receipts.1 h.receipts),
    )

pending-append :
    (v : Venue) (xs ys : List VenueEvent)
    → pending_venue_receipts v (xs ++ ys)
      ≡ pending_venue_receipts v xs ++ pending_venue_receipts v ys
unfolding pending_venue_receipts
pending-append v [] ys = refl
pending-append v (x ∷ xs) ys = elim (Bool-cases (same_venue x.venue v && not x.processed)) [
  | inl listed ↦ rw listed (ap (λ zs. x.payload ∷ zs) (pending-append v xs ys))
  | inr passed ↦ rw passed (pending-append v xs ys)
]

find-append {ℓ} :
    {A : Type ℓ} (p : A → Bool) (n : A) (xs : List A)
    → find p xs ≡ none
    → p n ≡ true
    → find p (xs ++ (n ∷ [])) ≡ some n
find-append p n [] h own = rw own refl
find-append p n (x ∷ xs) h own = elim (Bool-cases (p x)) [
  | inl here ↦ absurd (ground arith)
  | inr there ↦ rw there (find-append p n xs (ground arith) own)
]

write-append {ℓ} :
    {A : Type ℓ} (p : A → Bool) (a n : A) (xs : List A)
    → find p xs ≡ none
    → p n ≡ true
    → write p a (xs ++ (n ∷ [])) ≡ xs ++ (a ∷ [])
unfolding write
write-append p a n [] h own = rw own refl
write-append p a n (x ∷ xs) h own = elim (Bool-cases (p x)) [
  | inl here ↦ absurd (ground arith)
  | inr there ↦ rw there (ap (λ zs. x ∷ zs) (write-append p a n xs (ground arith) own))
]

own_event : (v : Venue) (key payload : ℕ) → is_event v key (new_event v key payload) ≡ true
own_event v key payload = ground (arith, (==_iff key key).1 refl)

finish-append :
    (v : Venue) (key payload : ℕ) (events : List VenueEvent)
    → find (is_event v key) events ≡ none
    → finish_venue_receipt v key (events ++ (new_event v key payload ∷ []))
      ≡ events ++ (record (new_event v key payload) { processed = true } ∷ [])
unfolding finish_venue_receipt
finish-append v key payload events new =
    rw
      (
        finish_venue_receipt,
        find-append (is_event v key) (new_event v key payload) events new (own_event v key payload),
      )
      (write-append (is_event v key) _ (new_event v key payload) events new
        (own_event v key payload))

pending_one :
    (v : Venue) (key payload : ℕ)
    → (pending_venue_receipts v (new_event v key payload ∷ []) ≡ payload ∷ [])
      × (pending_venue_receipts v (record (new_event v key payload) { processed = true } ∷ []) ≡ [])
unfolding pending_venue_receipts
pending_one ibkr key payload = (refl, refl)
pending_one polymarket key payload = (refl, refl)

-- A receipt whose key is new is pending last from when it is saved, and finishing it leaves the
-- receipts pending that were before.
pub save_venue_receipt-finish_venue_receipt :
    (hash : ℕ → ℕ) (v : Venue) (payload : ℕ) (events : List VenueEvent)
    → find (is_event v (hash payload)) events ≡ none
    → let (key, saved) = save_venue_receipt hash v payload events in
      (pending_venue_receipts v saved ≡ pending_venue_receipts v events ++ (payload ∷ []))
      × (pending_venue_receipts v (finish_venue_receipt v key saved)
          ≡ pending_venue_receipts v events)
unfolding save_venue_receipt
save_venue_receipt-finish_venue_receipt hash v payload events new =
    let key = hash payload in
    let (one_more, none_more) = pending_one v key payload in
    rw (save_venue_receipt, new)
      (
        pending-append v events (new_event v key payload ∷ [])
            ∙ ap (λ zs. pending_venue_receipts v events ++ zs) one_more,
        ap (pending_venue_receipts v) (finish-append v key payload events new)
            ∙ pending-append v events _
            ∙ ap (λ zs. pending_venue_receipts v events ++ zs) none_more
            ∙ append-nil (pending_venue_receipts v events),
      )
