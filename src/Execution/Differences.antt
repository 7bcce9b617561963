-- ===== src/Execution/Differences.antt =====
-- The `differences` of a reconciliation, and the tests on their keys.
use poly_zq_trading.Prelude.{
  ℕ, List, [], ◌∷◌, Option, none, some, Bool, true, false, ◌&&◌, ◌||◌, not, any, ltb,
}
use poly_zq_trading.Prelude.Int.{ℤ}
use poly_zq_trading.Ledger.Types.{OrderId}
use poly_zq_trading.Ledger.Receipts
use poly_zq_trading.Ledger.Receipts.{is_some}

pub data Key : Type 0 where
  zq_position_mismatch polymarket_position_mismatch excess_hedges unexpected_ibkr_orders
        unexpected_ibkr_clients unexpected_polymarket_orders unprocessed_ibkr_events
        unprocessed_polymarket_events ibkr_unrecorded_fills ibkr_unconfirmed_completion
        ibkr_terminal_conflicts ibkr_identity_conflicts unresolved_polymarket_orders
        pending_settlement unresolved_hedge_obligations missing_polymarket_orders
        missing_ibkr_orders :
      Key

-- A key is present where its list is not empty or its value is set.
pub record VenueDifferences : Type 0 where
  pub ledger : Receipts.Differences
  pub clients : List ℕ
  pub unexpected_ibkr : List ℕ
  pub missing_ibkr : List ℕ
  pub unexpected_polymarket : List OrderId
  pub missing_polymarket : List OrderId
  pub identity_conflicts : List ℕ
  pub terminal_conflicts : List ℕ
  pub unrecorded_fills : List (ℕ × ℕ)
  pub unconfirmed_completion : List ℕ
  pub zq_position : Option (ℕ × ℤ)
  pub polymarket_positions : List ℕ
  pub unresolved_obligations : ℕ

abbrev pub is_set {ℓ} : {A : Type ℓ} → Option A → Bool
is_set none = false
is_set (some _) = true

-- `key in differences`
unfoldable pub has : VenueDifferences → Key → Bool
has d zq_position_mismatch = is_set d.zq_position
has d polymarket_position_mismatch = is_some d.polymarket_positions
has d excess_hedges = is_some d.ledger.excess_hedges
has d unexpected_ibkr_orders = is_some d.unexpected_ibkr
has d unexpected_ibkr_clients = is_some d.clients
has d unexpected_polymarket_orders = is_some d.unexpected_polymarket
has d unprocessed_ibkr_events = d.ledger.unprocessed_ibkr_events
has d unprocessed_polymarket_events = d.ledger.unprocessed_polymarket_events
has d ibkr_unrecorded_fills = is_some d.unrecorded_fills
has d ibkr_unconfirmed_completion = is_some d.unconfirmed_completion
has d ibkr_terminal_conflicts = is_some d.terminal_conflicts
has d ibkr_identity_conflicts = is_some d.identity_conflicts
has d unresolved_polymarket_orders = is_some d.ledger.unresolved_polymarket_orders
has d pending_settlement = is_some d.ledger.pending_settlement
has d unresolved_hedge_obligations = ltb 0 d.unresolved_obligations
has d missing_polymarket_orders = is_some d.missing_polymarket
has d missing_ibkr_orders = is_some d.missing_ibkr

-- A set of keys.
abbrev pub Keys : Type 0
Keys = Key → Bool

abbrev pub no_keys : Keys
no_keys k = false

abbrev pub unsafe_keys : List Key
unsafe_keys =
    zq_position_mismatch ∷ polymarket_position_mismatch ∷ excess_hedges ∷ unexpected_ibkr_orders
    ∷ unexpected_ibkr_clients ∷ unexpected_polymarket_orders ∷ unprocessed_ibkr_events
    ∷ unprocessed_polymarket_events ∷ ibkr_unrecorded_fills ∷ ibkr_unconfirmed_completion
    ∷ ibkr_terminal_conflicts ∷ ibkr_identity_conflicts ∷ []

-- The differences that wait for a settlement alone.
abbrev pub waiting_keys : List Key
waiting_keys =
    unresolved_polymarket_orders ∷ pending_settlement ∷ unresolved_hedge_obligations
    ∷ missing_polymarket_orders ∷ missing_ibkr_orders ∷ unprocessed_polymarket_events ∷ []

abbrev pub ibkr_keys : List Key
ibkr_keys =
    zq_position_mismatch ∷ ibkr_unrecorded_fills ∷ ibkr_unconfirmed_completion
    ∷ ibkr_terminal_conflicts ∷ []

-- The keys of the first list that are present and not among the given ones.
abbrev pub has_any : List Key → Keys → VenueDifferences → Bool
has_any keys except d = any (λ k. has d k && not (except k)) keys

-- `bool(differences)`
unfoldable pub is_different : VenueDifferences → Bool
is_different d = has_any unsafe_keys no_keys d || has_any waiting_keys no_keys d
