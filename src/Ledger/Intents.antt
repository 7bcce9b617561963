-- ===== src/Ledger/Intents.antt =====
-- The life of a hedge order before its fills: the intent that reserves shares of an obligation,
-- its submission, and the venue's acknowledgement and status updates.
pub mod Reservation
use poly_zq_trading.Prelude.{
  ℕ, ◌-◌, List, [], ◌∷◌, ◌++◌, Option, none, some, Bool, true, false, ◌&&◌, ◌||◌, not, any, ltb,
  leb, ◌==◌, if◌then◌else◌,
}
use poly_zq_trading.Prelude.Int.{ℤ, pos, negsuc, pos_part}
use poly_zq_trading.Ledger.Types.{
  Venue, polymarket, OrderId, intent_id, venue_id, OrderState, ObligationState, Order, Obligation,
  Tables, Result, ok, err, unsigned_intent, signed_in_simulation, missing_order_hash,
  missing_obligation, exceeds_obligation, missing_intent, wrong_provenance, wrong_order_hash,
  missing_key, duplicate_row,
}
use poly_zq_trading.Ledger.Queries.{
  same_id, is_polymarket, equals_some, order_resolved, is_unsent, find_obligation, find_by_key,
  find_polymarket_order, write,
}
use poly_zq_trading.Ledger.Refresh.{refresh_hedge}

abbrev pub is_signed : Option ℕ → Bool
is_signed none = false
is_signed (some _) = true

-- The hash of a real order, neither empty nor one of the ledger's own ids.
abbrev pub is_venue_hash : Option OrderId → Bool
is_venue_hash (some (venue_id _)) = true
is_venue_hash _ = false

abbrev pub or_intent : Option OrderId → ℕ → OrderId
or_intent (some id) key = id
or_intent none key = intent_id key

-- What an unreserved part of an obligation leaves for a new order.
abbrev pub available_shares : Obligation → ℕ
available_shares ob = ob.due_shares - ob.confirmed_shares - ob.pending_shares

abbrev pub is_available : ℤ → ℕ → Bool
is_available (pos n) available = ltb 0 n && leb n available
is_available (negsuc _) available = false

pub record Intent : Type 0 where
  pub obligation_id : ℕ
  pub idempotency_key : ℕ
  pub shares : ℤ
  pub limit_price : ℕ
  pub attempt : ℕ
  pub signed_payload : Option ℕ
  pub order_id : Option OrderId

unfoldable pub new_order : Intent → Bool → Obligation → Order
new_order i simulated ob = record {
  batch_id = ob.batch_id;
  venue = polymarket;
  venue_order_id = or_intent i.order_id i.idempotency_key;
  permanent_id = none;
  idempotency_key = i.idempotency_key;
  state = OrderState.intent;
  quantity = pos_part i.shares;
  price = i.limit_price;
  obligation_id = some i.obligation_id;
  token_id = ob.token_id;
  attempt = i.attempt;
  signed_payload = i.signed_payload;
  simulated = simulated;
  terminal_verified = false;
  venue_matched_shares = 0;
  last_submit_at = none;
  last_order_check = none;
  abort_reason = none;
}

unfoldable pub reserve : Intent → Obligation → Obligation
reserve i ob = record ob {
  state = ObligationState.order_intent;
  latest_idempotency_key = some i.idempotency_key;
  latest_order_id = i.order_id;
  latest_limit_price = some i.limit_price;
  reprice_count = i.attempt;
}

-- The unique constraints of the orders table, checked when a new row is committed.
unfoldable pub is_fresh_row : Order → List Order → Bool
is_fresh_row o orders = not (
    any
      (λ p.
        (p.idempotency_key == o.idempotency_key)
        || (is_polymarket p.venue && same_id p.venue_order_id o.venue_order_id))
      orders)

abbrev has_key : ℕ → List Order → Bool
has_key key = any (λ o. is_polymarket o.venue && (o.idempotency_key == key))

-- An order of the obligation whose outcome is not settled holds its reservation.
unfoldable pub has_unresolved : ℕ → List Order → Bool
has_unresolved id =
    any (λ o. is_polymarket o.venue && equals_some o.obligation_id id && not (order_resolved o))

-- The session of `create_hedge_order_intent`, with the obligation that its query found.
unfoldable pub reserve_order : Intent → Option Obligation → Tables → Result (Tables × Bool)
reserve_order i none t = err missing_obligation
reserve_order i (some ob) t =
    let o = new_order i t.simulate_polymarket_fills ob in
    if not (is_available i.shares (available_shares ob))
    then err exceeds_obligation
    else if not (is_fresh_row o t.orders)
    then err duplicate_row
    else ok (
      record t {
        orders = t.orders ++ (o ∷ []);
        obligations = write (λ p. p.obligation_id == i.obligation_id) (reserve i ob) t.obligations;
      },
      true,
    )

unfoldable pub create_hedge_order_intent : Intent → Tables → Result (Tables × Bool)
create_hedge_order_intent i t =
    let simulated = t.simulate_polymarket_fills in
    if not (is_signed i.signed_payload) && not simulated
    then err unsigned_intent
    else if is_signed i.signed_payload && simulated
    then err signed_in_simulation
    else if not simulated && not (is_venue_hash i.order_id)
    then err missing_order_hash
    else if has_key i.idempotency_key t.orders
    then ok (t, false)
    else if has_unresolved i.obligation_id t.orders
    then ok (t, false)
    else reserve_order i (find_obligation i.obligation_id t.obligations) t

unfoldable pub set_hedge_submission_state : ℕ → OrderState → ℕ → Tables → Result Tables
set_hedge_submission_state key state now t = elim (find_by_key key t.orders) [
  | none ↦ err missing_intent
  | some o ↦
      if is_unsent o.state
      then ok (record t {
        orders =
            write (λ p. p.idempotency_key == key)
              (record o { state = state; last_submit_at = some now }) t.orders;
      })
      else ok t
]

-- `_refresh_hedge` of the obligation that an order's details name.
abbrev pub refresh_named : Option ℕ → Tables → Result Tables
refresh_named none t = err missing_key
refresh_named (some id) t = refresh_hedge id t

abbrev pub is_intent_id : OrderId → Bool
is_intent_id (intent_id _) = true
is_intent_id _ = false

abbrev pub same_flag : Bool → Bool → Bool
same_flag true b = b
same_flag false b = not b

-- No other row of the orders has the venue and the id; checked when the session commits.
unfoldable pub is_free_id : Venue → OrderId → ℕ → List Order → Bool
is_free_id v id key orders = not (
    any
      (λ p.
        not (p.idempotency_key == key)
        && same_flag (is_polymarket p.venue) (is_polymarket v)
        && same_id p.venue_order_id id)
      orders)

-- The order as `accept_hedge_order` leaves it.
unfoldable pub acknowledge : OrderId → OrderState → Bool → Order → Order
acknowledge id state simulated o =
    if order_resolved o
    then record o { venue_order_id = id; simulated = simulated }
    else record o { venue_order_id = id; simulated = simulated; state = state }

-- `state` is the venue's text, normalised.
unfoldable pub accept_hedge_order : ℕ → OrderId → OrderState → Bool → Tables → Result Tables
accept_hedge_order key id state simulated t =
    if not (same_flag simulated t.simulate_polymarket_fills)
    then err wrong_provenance
    else elim (find_by_key key t.orders) [
      | none ↦ err missing_intent
      | some o ↦
          if not (is_intent_id o.venue_order_id) && not (same_id o.venue_order_id id)
          then err wrong_order_hash
          else if not (is_free_id o.venue id key t.orders)
          then err duplicate_row
          else refresh_named o.obligation_id (record t {
            orders =
                write (λ p. p.idempotency_key == key) (acknowledge id state simulated o) t.orders;
          })
    ]

unfoldable pub update_polymarket_order_status : OrderId → OrderState → Tables → Result Tables
update_polymarket_order_status id status t = elim (find_polymarket_order id t.orders) [
  | none ↦ ok t
  | some o ↦
      if order_resolved o
      then ok t
      else refresh_named o.obligation_id (record t {
        orders =
            write (λ p. is_polymarket p.venue && same_id p.venue_order_id id)
              (record o { state = status; terminal_verified = false }) t.orders;
      })
]

-- A cancellation acknowledgement is not proof that the fills have all been received.
unfoldable pub mark_polymarket_order_cancelled : OrderId → Tables → Result Tables
mark_polymarket_order_cancelled id = update_polymarket_order_status id OrderState.cancel_pending
