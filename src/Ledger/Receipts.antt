-- ===== src/Ledger/Receipts.antt =====
-- The venue receipts and `hedge_safety_differences`. The key of a receipt is a hash of its
-- payload, a parameter here.
use poly_zq_trading.Prelude.{
  ℕ, List, [], ◌∷◌, ◌++◌, none, some, Bool, true, false, ◌&&◌, not, filter, find, map, ltb, ◌==◌,
}
use poly_zq_trading.Ledger.Types.{Venue, ibkr, polymarket, OrderId, Obligation, Tables}
use poly_zq_trading.Ledger.Queries.{is_polymarket, order_resolved, write}

pub record VenueEvent : Type 0 where
  pub venue : Venue
  pub event_key : ℕ
  pub payload : ℕ
  pub processed : Bool

abbrev pub same_venue : Venue → Venue → Bool
same_venue ibkr ibkr = true
same_venue polymarket polymarket = true
same_venue _ _ = false

abbrev pub is_event : Venue → ℕ → VenueEvent → Bool
is_event v key e = same_venue e.venue v && (e.event_key == key)

abbrev pub new_event : Venue → ℕ → ℕ → VenueEvent
new_event v key payload = record {
  venue = v;
  event_key = key;
  payload = payload;
  processed = false;
}

unfoldable pub save_venue_receipt : (ℕ → ℕ) → Venue → ℕ → List VenueEvent → ℕ × List VenueEvent
save_venue_receipt hash v payload events = (
  hash payload,
  elim (find (is_event v (hash payload)) events) [
    | none ↦ events ++ (new_event v (hash payload) payload ∷ [])
    | some e ↦ events
  ],
)

unfoldable pub finish_venue_receipt : Venue → ℕ → List VenueEvent → List VenueEvent
finish_venue_receipt v key events = elim (find (is_event v key) events) [
  | none ↦ events
  | some e ↦ write (is_event v key) (record e { processed = true }) events
]

unfoldable pub pending_venue_receipts : Venue → List VenueEvent → List ℕ
pending_venue_receipts v events =
    map (λ e. e.payload) (filter (λ e. same_venue e.venue v && not e.processed) events)

pub record Differences : Type 0 where
  pub unresolved_polymarket_orders : List OrderId
  pub excess_hedges : List (ℕ × ℕ)
  pub pending_settlement : List (ℕ × ℕ)
  pub unprocessed_ibkr_events : Bool
  pub unprocessed_polymarket_events : Bool

abbrev pub is_some {ℓ} : {A : Type ℓ} → List A → Bool
is_some [] = false
is_some (_ ∷ _) = true

-- The obligations with an excess, or with shares pending, and how many.
abbrev pub excess_hedges : List Obligation → List (ℕ × ℕ)
excess_hedges obs =
    map (λ ob. (ob.obligation_id, ob.excess_shares)) (filter (λ ob. ltb 0 ob.excess_shares) obs)

abbrev pub pending_settlement : List Obligation → List (ℕ × ℕ)
pending_settlement obs =
    map (λ ob. (ob.obligation_id, ob.pending_shares)) (filter (λ ob. ltb 0 ob.pending_shares) obs)

-- An entry of the result stands where its list is not empty or its flag is set.
unfoldable pub hedge_safety_differences : Tables → List VenueEvent → Differences
hedge_safety_differences t events = record {
  unresolved_polymarket_orders =
      map (λ o. o.venue_order_id)
        (filter (λ o. not (order_resolved o)) (filter (λ o. is_polymarket o.venue) t.orders));
  excess_hedges = excess_hedges t.obligations;
  pending_settlement = pending_settlement t.obligations;
  unprocessed_ibkr_events = is_some (pending_venue_receipts ibkr events);
  unprocessed_polymarket_events = is_some (pending_venue_receipts polymarket events);
}

abbrev pub is_empty : Differences → Bool
is_empty d =
    not (is_some d.unresolved_polymarket_orders)
    && not (is_some d.excess_hedges)
    && not (is_some d.pending_settlement)
    && not d.unprocessed_ibkr_events
    && not d.unprocessed_polymarket_events
