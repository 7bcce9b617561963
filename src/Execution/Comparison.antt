-- ===== src/Execution/Comparison.antt =====
-- `_reconcile_ledger_snapshot`: the differences between the ledger and the venues.
use poly_zq_trading.Prelude.{
  ℕ, List, [], ◌∷◌, ◌++◌, Option, none, some, Bool, ◌&&◌, not, find, filter, map, contains, ◌==◌,
  if◌then◌else◌,
}
use poly_zq_trading.Prelude.Int.{ℤ, pos}
use poly_zq_trading.Ledger.Types.{OrderId, Order}
use poly_zq_trading.Ledger.Queries.{is_polymarket, order_resolved, has_id}
use poly_zq_trading.Ledger.Receipts.{hedge_safety_differences}
use poly_zq_trading.Repository.Entry.{is_ibkr}
use poly_zq_trading.Repository.Status.{is_final, unresolved_hedge_obligation_count}
use poly_zq_trading.Repository.Positions.{StrategyPosition, strategy_portfolio_positions}
use poly_zq_trading.Execution.Types.{IbkrAccount, PolymarketAccount, Coordinator}
use poly_zq_trading.Execution.Differences.{VenueDifferences}
use poly_zq_trading.Execution.Callbacks.{
  ReconcileSettings, LedgerStore, expected_zq, number_of, same_ℤ, observed_zq_position,
}

unfoldable pub first_differences : LedgerStore → IbkrAccount → VenueDifferences
first_differences store a = record {
  ledger = hedge_safety_differences store.tables store.events;
  clients = a.foreign_orders;
  unexpected_ibkr = a.unknown_orders;
  missing_ibkr = [];
  unexpected_polymarket = [];
  missing_polymarket = [];
  identity_conflicts = a.identity_conflicts;
  terminal_conflicts = [];
  unrecorded_fills = [];
  unconfirmed_completion = [];
  zq_position = none;
  polymarket_positions = [];
  unresolved_obligations = 0;
}

abbrev pub open_ibkr : Order → Bool
open_ibkr o = is_ibkr o.venue && not (is_final o.state)

abbrev pub open_polymarket : Order → Bool
open_polymarket o = is_polymarket o.venue && not (order_resolved o)

unfoldable pub expected_ibkr : List Order → List ℕ
expected_ibkr os = map (λ o. number_of o.venue_order_id) (filter open_ibkr os)

unfoldable pub expected_polymarket : List Order → List OrderId
expected_polymarket os = map (λ o. o.venue_order_id) (filter open_polymarket os)

-- `xs - ys` on sets.
abbrev pub less : List ℕ → List ℕ → List ℕ
less xs ys = filter (λ x. not (contains x ys)) xs

abbrev pub less_ids : List OrderId → List OrderId → List OrderId
less_ids xs ys = filter (λ x. not (has_id x ys)) xs

abbrev pub replace {ℓ} : {A : Type ℓ} → List A → List A → List A
replace old [] = old
replace old (x ∷ xs) = x ∷ xs

abbrev pub held : Option (ℕ × ℤ) → ℤ
held none = pos 0
held (some (_, n)) = n

-- `self._polymarket_positions.get(token, (Decimal("0"), None))[0]`
unfoldable pub observed_position : ℕ → List (ℕ × ℤ) → ℤ
observed_position token ps = held (find (λ p. p.0 == token) ps)

abbrev pub expected_quantity : Option StrategyPosition → ℤ
expected_quantity none = pos 0
expected_quantity (some p) = pos p.strategy_quantity

unfoldable pub expected_position : ℕ → List StrategyPosition → ℤ
expected_position token ps =
    expected_quantity (find (λ p. is_polymarket p.venue && (p.instrument == token)) ps)

-- The tokens of either side.
abbrev pub tokens_of : List StrategyPosition → List (ℕ × ℤ) → List ℕ
tokens_of ps observed =
    map (λ p. p.instrument) (filter (λ p. is_polymarket p.venue) ps) ++ map (λ p. p.0) observed

-- The tokens whose positions differ.
unfoldable pub position_mismatches : List StrategyPosition → List (ℕ × ℤ) → List ℕ
position_mismatches ps observed =
    filter (λ token. not (same_ℤ (expected_position token ps) (observed_position token observed)))
      (tokens_of ps observed)

unfoldable pub order_differences :
    ReconcileSettings
    → List Order
    → IbkrAccount
    → PolymarketAccount
    → VenueDifferences
    → VenueDifferences
order_differences s os a p d = record d {
  missing_ibkr = less (expected_ibkr os) a.open_order_ids;
  unexpected_ibkr = replace d.unexpected_ibkr (less a.open_order_ids (expected_ibkr os));
  missing_polymarket =
      if s.simulate_polymarket_fills
      then []
      else less_ids (expected_polymarket os) p.open_order_ids;
  unexpected_polymarket =
      if s.simulate_polymarket_fills
      then []
      else less_ids p.open_order_ids (expected_polymarket os);
}

unfoldable pub final_differences :
    ReconcileSettings → LedgerStore → Coordinator → VenueDifferences → VenueDifferences
final_differences s store c d =
    let expected = expected_zq s store in
    let observed = observed_zq_position c.ibkr in
    let positions = strategy_portfolio_positions store.opening store.tables in
    record (order_differences s store.tables.orders c.ibkr c.polymarket d) {
      zq_position =
          if same_ℤ observed (pos expected) then d.zq_position else some (expected, observed);
      polymarket_positions =
          if s.simulate_polymarket_fills
          then []
          else position_mismatches positions c.polymarket.positions;
      unresolved_obligations = unresolved_hedge_obligation_count store.tables;
    }
