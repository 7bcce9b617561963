-- ===== src/Payoff/Build.antt =====
-- `build_three_state_opportunity`.
use poly_zq_trading.Prelude.{
  ℕ, ◌+◌, ◌-◌, ◌*◌, List, [], ◌∷◌, Option, none, some, Bool, true, false, ◌&&◌, ◌||◌, ◌>>=◌, ◌++◌,
  ◌==◌, sum_of, if◌then◌else◌,
}
use poly_zq_trading.Prelude.Int.{ℤ, pos, ◌+ℤ◌, scale, min_ℤ, ltb_ℤ}
use poly_zq_trading.Domain.Enums.{GateStatus, passed, failed, unavailable}
use poly_zq_trading.Analytics.Units.{one_share}
use poly_zq_trading.Analytics.Sizing.{hedge_shares_per_contract, incremental_hedge_shares}
use poly_zq_trading.Book.Types.{OrderBook, best_ask, DepthCost, HedgeEntryPlan, limit_price}
use poly_zq_trading.Book.Walk.{walk_asks}
use poly_zq_trading.Book.Plan.{plan_hedge_entry}
use poly_zq_trading.Payoff.Types.{
  Request, ScenarioPnl, HedgeDepthView, Return, ThreeStateOpportunity,
}
use poly_zq_trading.Payoff.Scenarios.{scenario_matrix}

-- The ratios of the two legs, given or computed.
unfoldable pub ratios : Request → ℕ × ℕ
ratios r = elim r.hedge_ratios [
  | some given ↦ given
  | none ↦ (
    hedge_shares_per_contract 25 r.pre_meeting_effr r.calendar,
    hedge_shares_per_contract 50 r.pre_meeting_effr r.calendar,
  )
]

unfoldable pub required_shares : Request → ℕ → ℕ
required_shares r ratio =
    incremental_hedge_shares ratio r.previously_filled_contracts (r.contracts * one_share)

unfoldable pub best_ask_size : OrderBook → Option ℕ
best_ask_size b = elim (best_ask b) [
  | none ↦ none
  | some best ↦ some (sum_of (λ l. if l.price == best then l.size else 0) b.asks)
]

-- `best_ask_size or 0` where a limit was found.
abbrev pub exact_size : Option ℕ → Option ℕ → ℕ
exact_size none size = 0
exact_size (some limit) none = 0
exact_size (some limit) (some size) = size

abbrev pub only_if {ℓ} : {A : Type ℓ} → Bool → A → Option A
only_if b a = if b then some a else none

unfoldable pub depth_view : ℕ → ℕ → OrderBook → HedgeEntryPlan → DepthCost → HedgeDepthView
depth_view shares cap book entry depth = record {
  required_shares = shares;
  available_shares = entry.available_shares;
  shortfall_shares = shares - entry.available_shares;
  price_cap = cap;
  marketable_limit_price = limit_price entry;
  best_ask_shares = exact_size (limit_price entry) (best_ask_size book);
  entry_price_cap = entry.price_cap;
  entry_vwap = if entry.depth.is_sufficient then entry.depth.vwap else none;
  entry_cash_cost = only_if entry.depth.is_sufficient entry.depth.total_cost;
  entry_fills = entry.depth.fills;
  emergency_vwap = depth.vwap;
  worst_price = depth.worst_price;
  sufficient = entry.depth.is_sufficient && depth.is_sufficient;
}

abbrev pub has_limit : Option ℕ → Bool
has_limit none = false
has_limit (some _) = true

unfoldable pub leg_checks : HedgeDepthView → List GateStatus
leg_checks v =
    (if has_limit v.marketable_limit_price then passed else unavailable)
    ∷ (if v.sufficient then passed else failed)
    ∷ []

unfoldable pub is_executable : HedgeDepthView → Bool
is_executable v = v.sufficient && has_limit v.marketable_limit_price

-- `min` of the scenarios' net profits; they are all given or none is.
unfoldable pub minimum_of : List ScenarioPnl → Option ℤ
minimum_of [] = none
minimum_of (s ∷ []) = s.net_pnl
minimum_of (s ∷ t ∷ ss) = elim s.net_pnl [
  | none ↦ none
  | some n ↦ elim (minimum_of (t ∷ ss)) [ none ↦ none | some m ↦ some (min_ℤ n m) ]
]

abbrev pub smaller : Option ℤ → Option ℤ → Option ℤ
smaller (some a) (some b) = some (min_ℤ a b)
smaller _ _ = none

abbrev pub committed : ℕ → Option ℤ → ℤ → Option ℤ
committed hedge_cash none reserve = none
committed hedge_cash (some margin) reserve = some (pos hedge_cash +ℤ margin +ℤ reserve)

abbrev pub return_of : Option ℤ → Option ℤ → Option Return
return_of (some profit) (some capital) =
    if ltb_ℤ (pos 0) capital
    then some (record { profit_times_10000 = scale 10000 profit; capital = capital })
    else none
return_of _ _ = none

-- The opportunity before any calculation: what is returned for a book that cannot be executed.
unfoldable pub unexecutable :
    Request → ℕ → ℕ → HedgeDepthView → HedgeDepthView → ThreeStateOpportunity
unexecutable r q25 q50 view25 view50 = record {
  zq_price = r.zq_price;
  contracts = r.contracts;
  token_requirements = (q25, q50);
  hedge_depth = (view25, view50);
  gate_checks = leg_checks view25 ++ leg_checks view50;
  scenarios = [];
  emergency_scenarios = [];
  passive_minimum_net_profit = none;
  emergency_minimum_net_profit = none;
  minimum_net_profit = none;
  committed_capital = none;
  return_on_capital_bps = none;
  calculated = false;
}

unfoldable pub calculate :
    Request
    → HedgeEntryPlan
    → HedgeEntryPlan
    → DepthCost
    → DepthCost
    → ThreeStateOpportunity
    → ThreeStateOpportunity
calculate r entry25 entry50 depth25 depth50 o =
    let (q25, q50) = o.token_requirements in
    let passive = scenario_matrix r q25 q50 entry25.depth entry50.depth in
    let emergency = scenario_matrix r q25 q50 depth25 depth50 in
    let minimum = smaller (minimum_of passive) (minimum_of emergency) in
    let capital =
      committed (depth25.total_cost + depth50.total_cost) r.incremental_margin
        r.emergency_cash_reserve in
    record o {
      scenarios = passive;
      emergency_scenarios = emergency;
      passive_minimum_net_profit = minimum_of passive;
      emergency_minimum_net_profit = minimum_of emergency;
      minimum_net_profit = minimum;
      committed_capital = capital;
      return_on_capital_bps = return_of minimum capital;
      calculated = true;
    }

unfoldable pub assemble :
    Request
    → ℕ
    → ℕ
    → HedgeEntryPlan
    → HedgeEntryPlan
    → DepthCost
    → DepthCost
    → ThreeStateOpportunity
assemble r q25 q50 entry25 entry50 depth25 depth50 =
    let view25 = depth_view q25 r.emergency_price_cap r.inc25_book entry25 depth25 in
    let view50 = depth_view q50 r.emergency_price_cap r.inc50_book entry50 depth50 in
    let bare = unexecutable r q25 q50 view25 view50 in
    if is_executable view25 && is_executable view50
    then calculate r entry25 entry50 depth25 depth50 bare
    else bare

-- The plans and the walks of the two legs; `none` is the `ValueError` of an empty request.
unfoldable pub build_sized : Request → ℕ → ℕ → Option ThreeStateOpportunity
build_sized r q25 q50 = do
  entry25 ← plan_hedge_entry r.inc25_book q25 r.post_price_cap false
  entry50 ← plan_hedge_entry r.inc50_book q50 r.post_price_cap true
  depth25 ← walk_asks r.inc25_book.asks q25 (some r.emergency_price_cap)
  depth50 ← walk_asks r.inc50_book.asks q50 (some r.emergency_price_cap)
  some (assemble r q25 q50 entry25 entry50 depth25 depth50)

-- `none` is a `ValueError`.
unfoldable pub build_three_state_opportunity : Request → Option ThreeStateOpportunity
build_three_state_opportunity r =
    let (ratio25, ratio50) = ratios r in
    if (r.contracts == 0) || (ratio25 == 0) || (ratio50 == 0)
    then none
    else build_sized r (required_shares r ratio25) (required_shares r ratio50)
