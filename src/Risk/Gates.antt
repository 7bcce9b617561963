-- ===== src/Risk/Gates.antt =====
-- When an entry may be made, in the words of the strategy's rules, a group of gates at a time.
use poly_zq_trading.Prelude.{
  ◌<◌, List, [], ◌∷◌, Option, none, some, Bool, true, false, ◌&&◌, not, all, ◌≡◌, ◌≢◌, ◌↔◌, ◌⊎◌,
  All, arith,
}
use poly_zq_trading.Prelude.Int.{ℤ, pos, ◌+ℤ◌, ◌*ℤ◌, ◌≤ℤ◌, ◌<ℤ◌}
use poly_zq_trading.Domain.Enums.{RunMode, Side, GateStatus, ConnectionStatus}
use poly_zq_trading.Analytics.Units.{one_share}
use poly_zq_trading.Risk.Types.{Country, Direction, GateCheck, GateContext, Settings, Opportunity}
use poly_zq_trading.Risk.Checks.{
  is_read_only, reaches, status_of, polymarket_api_opening_permitted, add, venue_checks,
  eligibility_checks, cross_venue_checks, strategy_checks, depth_checks, liquidity_check,
  margin_checks, position_checks, operations_checks, economics_checks,
}
use poly_zq_trading.Risk.Engine.{is_passed, is_failed}

abbrev pub are_clear : List GateCheck → Bool
are_clear = all (λ check. not (is_failed check))

-- A check that another part made is passed, or does not block.
abbrev pub IsClear : GateCheck → Type 0
IsClear check = (check.status ≡ GateStatus.passed) ⊎ (check.blocking ≡ false)

abbrev pub VenuesReady : GateContext → Type 0
VenuesReady c =
    (c.ibkr_status ≡ ConnectionStatus.connected)
    × (c.polymarket_connected ≡ true)
    × (c.mapping_verified ≡ true)

pub venue_checks-clear : (c : GateContext) → (are_clear (venue_checks c) ≡ true) ↔ VenuesReady c
unfolding venue_checks add
venue_checks-clear c = ground arith

-- The country was looked up and is a supported one.
abbrev pub IsEligible : GateContext → Type 0
IsEligible c =
    (c.eligibility_checked ≡ true)
    × ((c.eligibility_country ≡ some Country.hk) ⊎ (c.eligibility_country ≡ some Country.nl))

pub eligibility_checks-clear :
    (s : Settings) (c : GateContext) → (are_clear (eligibility_checks s c) ≡ true) ↔ IsEligible c
unfolding eligibility_checks add polymarket_api_opening_permitted
eligibility_checks-clear s c = ground arith

is_failed-IsClear : (check : GateCheck) → (not (is_failed check) ≡ true) ↔ IsClear check
is_failed-IsClear check = ground arith

are_clear-All : (checks : List GateCheck) → (are_clear checks ≡ true) ↔ All IsClear checks
are_clear-All [] = ground arith
are_clear-All (check ∷ checks) =
    let rest = are_clear-All checks in
    let first = is_failed-IsClear check in ground (arith, rest, first)

-- The four market data flags, where no checks of the snapshot are given; those checks otherwise.
abbrev pub AreSynchronized : List GateCheck → GateContext → Type 0
AreSynchronized [] c =
    (c.polymarket_books_synchronized ≡ true)
    × (c.target_subscription_qualified ≡ true)
    × (c.effr_qualified ≡ true)
    × (c.cross_venue_snapshot_qualified ≡ true)
AreSynchronized (check ∷ checks) c = All IsClear (check ∷ checks)

pub cross_venue_lem :
    (given : List GateCheck) (c : GateContext)
    → given ≡ c.cross_venue_checks
    → (are_clear (cross_venue_checks c) ≡ true) ↔ AreSynchronized given c
unfolding cross_venue_checks add
cross_venue_lem [] c e = rw⁻¹ e (ground arith)
cross_venue_lem (check ∷ checks) c e = rw⁻¹ e (are_clear-All (check ∷ checks))

-- Verified contract details, and a long opportunity that is entered by a BUY.
abbrev pub IsLongEntry : Opportunity → GateContext → Type 0
IsLongEntry o c =
    (c.contract_verified ≡ true) × (o.direction ≡ Direction.long) × (o.zq_side ≡ Side.buy)

pub strategy_checks-clear :
    (o : Opportunity) (c : GateContext) → (are_clear (strategy_checks o c) ≡ true) ↔ IsLongEntry o c
unfolding strategy_checks add
strategy_checks-clear o c = ground arith

-- The depth of the whole hedge, as a flag or as the checks of the opportunity.
abbrev pub HasDepth : List GateCheck → GateContext → Type 0
HasDepth [] c = c.full_hedge_depth_available ≡ true
HasDepth (check ∷ checks) c = All IsClear (check ∷ checks)

pub depth_lem :
    (given : List GateCheck) (o : Opportunity) (c : GateContext)
    → given ≡ o.gate_checks
    → (are_clear (depth_checks o c) ≡ true) ↔ HasDepth given c
unfolding depth_checks add
depth_lem [] o c e = rw⁻¹ e (ground arith)
depth_lem (check ∷ checks) o c e = rw⁻¹ e (are_clear-All (check ∷ checks))

-- A value that is known and at least the bound.
abbrev pub Reaches : ℤ → Option ℤ → Type 0
Reaches bound none = ⊥
Reaches bound (some value) = bound ≤ℤ value

-- A Boolean conjunction that ends in `true`, part by part.
and_three :
    {a b c : Bool} {P Q R : Type 0}
    → ((a ≡ true) ↔ P)
    → ((b ≡ true) ↔ Q)
    → ((c ≡ true) ↔ R)
    → (a && (b && (c && true)) ≡ true) ↔ (P × Q × R)
and_three p q r = ground (arith, p, q, r)

and_four :
    {a b c d : Bool} {P Q R S : Type 0}
    → ((a ≡ true) ↔ P)
    → ((b ≡ true) ↔ Q)
    → ((c ≡ true) ↔ R)
    → ((d ≡ true) ↔ S)
    → (a && (b && (c && (d && true))) ≡ true) ↔ (P × Q × R × S)
and_four p q r s = ground (arith, p, q, r, s)

reaches_lem :
    (bound : ℤ) (value : Option ℤ)
    → (not (not (is_passed (status_of true (reaches bound value)))) ≡ true) ↔ Reaches bound value
reaches_lem bound none = ground arith
reaches_lem bound (some value) = ground arith

preview_lem :
    (available : Option Bool)
    → (not (not (is_passed (status_of true available))) ≡ true) ↔ (available ≡ some true)
preview_lem available = ground arith

mode_lem :
    (mode : RunMode)
    → (not (not (is_passed (status_of true (some (not (is_read_only mode)))))) ≡ true)
      ↔ (mode ≢ RunMode.read_only)
mode_lem mode = ground arith

-- The excess liquidity reaches the fixed minimum and the multiple of the next batch's margin.
abbrev pub IsLiquid : Settings → Option ℤ → Option ℤ → Type 0
IsLiquid s (some margin) (some liquidity) =
    (pos one_share *ℤ s.min_full_excess_liquidity_usd ≤ℤ pos one_share *ℤ liquidity)
    × (s.min_excess_liquidity_margin_multiplier *ℤ margin ≤ℤ pos one_share *ℤ liquidity)
IsLiquid s _ _ = ⊥

liquidity_lem :
    (s : Settings) (margin liquidity : Option ℤ)
    → (not (is_failed (liquidity_check s margin liquidity)) ≡ true) ↔ IsLiquid s margin liquidity
unfolding liquidity_check add
liquidity_lem s none liquidity = ground arith
liquidity_lem s (some margin) none = ground arith
liquidity_lem s (some margin) (some liquidity) = ground arith

abbrev pub IsFunded : Settings → GateContext → Type 0
IsFunded s c =
    (c.margin_preview_available ≡ some true)
    × Reaches (pos 0) c.next_batch_initial_margin
    × IsLiquid s c.next_batch_initial_margin c.projected_full_excess_liquidity
    × Reaches s.min_margin_cushion_ratio c.projected_margin_cushion

pub margin_checks-clear :
    (s : Settings) (c : GateContext) → (are_clear (margin_checks s c) ≡ true) ↔ IsFunded s c
unfolding margin_checks add
margin_checks-clear s c =
    let margin = c.next_batch_initial_margin in
    let preview = preview_lem c.margin_preview_available in
    let positive = reaches_lem (pos 0) margin in
    let liquid = liquidity_lem s margin c.projected_full_excess_liquidity in
    let cushion = reaches_lem s.min_margin_cushion_ratio c.projected_margin_cushion in
    and_four preview positive liquid cushion

-- A position that is not short, and stays in its limit with the next child order; no batch over
-- the limit; and both ledgers in order.
abbrev pub IsOrderly : Settings → GateContext → Type 0
IsOrderly s c =
    (pos 0 ≤ℤ c.current_zq_position)
    × (c.current_zq_position +ℤ s.ibkr_zq_child_order_quantity ≤ℤ s.max_zq_position)
    × (c.active_batches <ℤ s.max_open_batches)
    × (c.unresolved_hedge ≡ false)
    × (c.reconciliation_clean ≡ true)

pub position_checks-clear :
    (s : Settings) (c : GateContext) → (are_clear (position_checks s c) ≡ true) ↔ IsOrderly s c
unfolding position_checks add
position_checks-clear s c = ground arith

-- No alert, hold, pause or kill switch, and before the cutoff.
abbrev pub IsOpen : Settings → GateContext → Type 0
IsOpen s c =
    (c.critical_alert_active ≡ false)
    × (c.maintenance_hold ≡ false)
    × (c.paused ≡ false)
    × (c.kill_switch ≡ false)
    × (c.now < s.fomc_trading_cutoff_utc)

pub operations_checks-clear :
    (s : Settings) (c : GateContext) → (are_clear (operations_checks s c) ≡ true) ↔ IsOpen s c
unfolding operations_checks add
operations_checks-clear s c = ground arith

-- The profit and the return reach their bounds, in a mode that authorises orders.
abbrev pub IsWorthwhile : Settings → Opportunity → Type 0
IsWorthwhile s o =
    Reaches s.min_net_profit_usd o.minimum_net_profit
    × Reaches s.min_return_on_capital_bps o.return_on_capital_bps
    × (s.run_mode ≢ RunMode.read_only)

pub economics_checks-clear :
    (s : Settings) (o : Opportunity) → (are_clear (economics_checks s o) ≡ true) ↔ IsWorthwhile s o
unfolding economics_checks add
economics_checks-clear s o =
    let profit = reaches_lem s.min_net_profit_usd o.minimum_net_profit in
    let returned = reaches_lem s.min_return_on_capital_bps o.return_on_capital_bps in
    let mode = mode_lem s.run_mode in and_three profit returned mode
