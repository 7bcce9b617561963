-- ===== src/Payoff/Least.antt =====
-- The least profit of an opportunity.
use poly_zq_trading.Prelude.{
  ℕ, ◌≤◌, ◌≡◌, refl, sym, subst, List, [], ◌∷◌, Option, none, some, ◌&&◌, All, arith, Bool-cases,
  inl, inr,
}
use poly_zq_trading.Prelude.Int.{ℤ, pos, ◌+ℤ◌, ◌-ℤ◌, ◌≤ℤ◌, ◌<ℤ◌, min_ℤ, int_laws}
use poly_zq_trading.Domain.Calendar.{total_days}
use poly_zq_trading.Analytics.Units.{share_step_exact}
use poly_zq_trading.Analytics.Sizing.{hedge_shares_per_contract}
use poly_zq_trading.Book.Types.{DepthCost, HedgeEntryPlan}
use poly_zq_trading.Payoff.Types.{Request, ScenarioPnl, ThreeStateOpportunity, explicit_costs}
use poly_zq_trading.Payoff.Scenarios.{after_costs, scenario_of, scenario_matrix}
use poly_zq_trading.Payoff.Build.{
  ratios, required_shares, is_executable, depth_view, minimum_of, smaller, calculate, unexecutable,
  assemble, build_three_state_opportunity,
}
use poly_zq_trading.Payoff.Guarantee.{gross_pnl_near, gross_pnl_least}
use poly_zq_trading.Payoff.Built.{build-IsAssembled}

-- Each scenario earns what the first, that of no change, earns, to less than 0.01 share.
abbrev pub AreNear : List ScenarioPnl → Type 0
AreNear [] = Unit
AreNear (base ∷ others) =
    All
      (λ s.
        (base.gross_pnl <ℤ s.gross_pnl +ℤ pos share_step_exact)
        × (s.gross_pnl <ℤ base.gross_pnl +ℤ pos share_step_exact))
      others

-- The net profit of the first scenario.
abbrev pub no_change_net : List ScenarioPnl → Option ℤ
no_change_net [] = none
no_change_net (base ∷ others) = base.net_pnl

min-least : (a b c : ℤ) → a ≤ℤ b → a ≤ℤ c → min_ℤ a (min_ℤ b c) ≡ a
min-least a b c ab ac = ground arith

less_costs : (a b c : ℤ) → a ≤ℤ b → a -ℤ c ≤ℤ b -ℤ c
less_costs a b c h = omega int_laws

least_of_three :
    (costs : Option ℤ) (s t u : ScenarioPnl)
    → s.net_pnl ≡ after_costs s.gross_pnl costs
    → t.net_pnl ≡ after_costs t.gross_pnl costs
    → u.net_pnl ≡ after_costs u.gross_pnl costs
    → s.gross_pnl ≤ℤ t.gross_pnl
    → s.gross_pnl ≤ℤ u.gross_pnl
    → minimum_of (s ∷ t ∷ u ∷ []) ≡ s.net_pnl
unfolding minimum_of
least_of_three none s t u ns nt nu st su = ground (arith, ns)
least_of_three (some c) s t u ns nt nu st su =
    let least =
      min-least (s.gross_pnl -ℤ c) (t.gross_pnl -ℤ c) (u.gross_pnl -ℤ c)
        (less_costs s.gross_pnl t.gross_pnl c st) (less_costs s.gross_pnl u.gross_pnl c su) in
    ground (arith, ns, nt, nu, least)

module _ (r : Request) (q25 q50 : ℕ) (cost25 cost50 : DepthCost) (days : 1 ≤ total_days r.calendar)
    (sized25 : q25 ≡ required_shares r (hedge_shares_per_contract 25 r.pre_meeting_effr r.calendar))
    (sized50 : q50
      ≡ required_shares r (hedge_shares_per_contract 50 r.pre_meeting_effr r.calendar)) where
  matrix-AreNear : AreNear (scenario_matrix r q25 q50 cost25 cost50)
  unfolding scenario_matrix scenario_of
  matrix-AreNear = (
    gross_pnl_near r q25 q50 cost25 cost50 25 days (omega (arith, sized25)),
    (gross_pnl_near r q25 q50 cost25 cost50 50 days (omega (arith, sized50)), tt),
  )

  matrix-least :
      r.previously_filled_contracts ≡ 0
      → minimum_of (scenario_matrix r q25 q50 cost25 cost50)
        ≡ no_change_net (scenario_matrix r q25 q50 cost25 cost50)
  unfolding scenario_matrix scenario_of
  matrix-least fresh =
      least_of_three (explicit_costs r.cost_inputs) _ _ _ refl refl refl
        (gross_pnl_least r q25 q50 cost25 cost50 25 days fresh (omega (arith, sized25)))
        (gross_pnl_least r q25 q50 cost25 cost50 50 days fresh (omega (arith, sized50)))

-- The requirements of an opportunity whose ratios are computed.
computed_ratios :
    (r : Request)
    → r.hedge_ratios ≡ none
    → (required_shares r (ratios r).0
        ≡ required_shares r (hedge_shares_per_contract 25 r.pre_meeting_effr r.calendar))
      × (required_shares r (ratios r).1
          ≡ required_shares r (hedge_shares_per_contract 50 r.pre_meeting_effr r.calendar))
unfolding ratios
computed_ratios r none_given = (ground (arith, none_given), ground (arith, none_given))

-- What holds of an opportunity that is only described, and of one that is calculated.
assemble-elim :
    (P : ThreeStateOpportunity → Type 0) (r : Request) (q25 q50 : ℕ)
    (entry25 entry50 : HedgeEntryPlan) (depth25 depth50 : DepthCost)
    → let view25 = depth_view q25 r.emergency_price_cap r.inc25_book entry25 depth25 in
      let view50 = depth_view q50 r.emergency_price_cap r.inc50_book entry50 depth50 in
      let bare = unexecutable r q25 q50 view25 view50 in
      P bare
      → P (calculate r entry25 entry50 depth25 depth50 bare)
      → P (assemble r q25 q50 entry25 entry50 depth25 depth50)
unfolding assemble
assemble-elim P r q25 q50 entry25 entry50 depth25 depth50 described calculated =
    let view25 = depth_view q25 r.emergency_price_cap r.inc25_book entry25 depth25 in
    let view50 = depth_view q50 r.emergency_price_cap r.inc50_book entry50 depth50 in
    elim (Bool-cases (is_executable view25 && is_executable view50)) [
      | inl e ↦ rw (assemble, e) calculated
      | inr e ↦ rw (assemble, e) described
    ]

abbrev IsHedged : ThreeStateOpportunity → Type 0
IsHedged o = AreNear o.scenarios × AreNear o.emergency_scenarios

-- With ratios from the settlement model, the two matrices of an opportunity, at the entry prices
-- and at the emergency prices, pay for the futures' loss: in each scenario the gross profit is that
-- of the scenario with no change, to less than the value of 0.01 share, whatever was filled before.
pub build-AreNear :
    (r : Request) (o : ThreeStateOpportunity)
    → build_three_state_opportunity r ≡ some o
    → r.hedge_ratios ≡ none
    → 1 ≤ total_days r.calendar
    → AreNear o.scenarios × AreNear o.emergency_scenarios
unfolding calculate unexecutable
build-AreNear r o built given days =
    let a = build-IsAssembled r o built in
    let (sized25, sized50) = computed_ratios r given in
    let q25 = required_shares r (ratios r).0 in
    let q50 = required_shares r (ratios r).1 in
    subst IsHedged (sym a.same) (
      assemble-elim IsHedged r q25 q50 a.entry25 a.entry50 a.depth25 a.depth50 (tt, tt)
        (
          matrix-AreNear r q25 q50 a.entry25.depth a.entry50.depth days sized25 sized50,
          matrix-AreNear r q25 q50 a.depth25 a.depth50 days sized25 sized50,
        ))

smaller_eq : {a b c d : Option ℤ} → a ≡ c → b ≡ d → smaller a b ≡ smaller c d
smaller_eq p q = cc

abbrev IsLeast : ThreeStateOpportunity → Type 0
IsLeast o =
    (o.passive_minimum_net_profit ≡ no_change_net o.scenarios)
    × (o.emergency_minimum_net_profit ≡ no_change_net o.emergency_scenarios)
    × (o.minimum_net_profit
        ≡ smaller (no_change_net o.scenarios) (no_change_net o.emergency_scenarios))

-- With ratios from the settlement model and nothing filled before, the least net profits of an
-- opportunity are those of the scenario in which the rate does not change: the least at the entry
-- prices, the least at the emergency prices, and the smaller of the two, which the opportunity
-- gives as its minimum.
pub build-least :
    (r : Request) (o : ThreeStateOpportunity)
    → build_three_state_opportunity r ≡ some o
    → r.hedge_ratios ≡ none
    → r.previously_filled_contracts ≡ 0
    → 1 ≤ total_days r.calendar
    → (o.passive_minimum_net_profit ≡ no_change_net o.scenarios)
      × (o.emergency_minimum_net_profit ≡ no_change_net o.emergency_scenarios)
      × (o.minimum_net_profit
          ≡ smaller (no_change_net o.scenarios) (no_change_net o.emergency_scenarios))
unfolding calculate unexecutable
build-least r o built given fresh days =
    let a = build-IsAssembled r o built in
    let (sized25, sized50) = computed_ratios r given in
    let q25 = required_shares r (ratios r).0 in
    let q50 = required_shares r (ratios r).1 in
    let passive =
      matrix-least r q25 q50 a.entry25.depth a.entry50.depth days sized25 sized50 fresh in
    let emergency = matrix-least r q25 q50 a.depth25 a.depth50 days sized25 sized50 fresh in
    subst IsLeast (sym a.same) (
      assemble-elim IsLeast r q25 q50 a.entry25 a.entry50 a.depth25 a.depth50 (refl, refl, refl)
        (passive, emergency, smaller_eq passive emergency))
