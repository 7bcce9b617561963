-- ===== src/Payoff/Built.antt =====
-- The scenarios of an opportunity that was built, next to the one with no change of the rate.
use poly_zq_trading.Prelude.{
  ℕ, ◌≡◌, some, true, false, ◌||◌, ◌==◌, arith, Bool-cases, Option-cases, inl, inr,
}
use poly_zq_trading.Book.Types.{DepthCost, HedgeEntryPlan}
use poly_zq_trading.Book.Walk.{walk_asks}
use poly_zq_trading.Book.Plan.{plan_hedge_entry}
use poly_zq_trading.Payoff.Types.{Request, ThreeStateOpportunity}
use poly_zq_trading.Payoff.Build.{
  ratios, required_shares, assemble, build_sized, build_three_state_opportunity,
}

-- How an opportunity comes about: its two plans and its two walks.
pub record IsAssembled (r : Request) (o : ThreeStateOpportunity) : Type 0 where
  pub entry25 : HedgeEntryPlan
  pub entry50 : HedgeEntryPlan
  pub depth25 : DepthCost
  pub depth50 : DepthCost
  pub same :
      o
      ≡ assemble r
          (required_shares r (ratios r).0)
          (required_shares r (ratios r).1)
          entry25
          entry50
          depth25
          depth50

build_sized-steps :
    (r : Request) (q25 q50 : ℕ) (o : ThreeStateOpportunity)
    → build_sized r q25 q50 ≡ some o
    → (entry25 : HedgeEntryPlan) × (entry50 : HedgeEntryPlan) × (depth25 : DepthCost)
      × (depth50 : DepthCost) × (o ≡ assemble r q25 q50 entry25 entry50 depth25 depth50)
unfolding build_sized
build_sized-steps r q25 q50 o h =
    elim (Option-cases (plan_hedge_entry r.inc25_book q25 r.post_price_cap false)) [
      | inl e ↦ absurd (ground (arith, e))
      | inr (entry25, e25) ↦
          elim (Option-cases (plan_hedge_entry r.inc50_book q50 r.post_price_cap true)) [
            | inl e ↦ absurd (ground (arith, e25, e))
            | inr (entry50, e50) ↦
                elim (Option-cases (walk_asks r.inc25_book.asks q25 (some r.emergency_price_cap))) [
                  | inl e ↦ absurd (ground (arith, e25, e50, e))
                  | inr (depth25, d25) ↦
                      elim (Option-cases
                        (walk_asks r.inc50_book.asks q50 (some r.emergency_price_cap))) [
                          | inl e ↦ absurd (ground (arith, e25, e50, d25, e))
                          | inr (depth50, d50) ↦ (
                            entry25,
                            entry50,
                            depth25,
                            depth50,
                            ground (arith, e25, e50, d25, d50),
                          )
                        ]
                ]
          ]
    ]

pub build-IsAssembled :
    (r : Request) (o : ThreeStateOpportunity)
    → build_three_state_opportunity r ≡ some o
    → IsAssembled r o
unfolding build_three_state_opportunity
build-IsAssembled r o h =
    elim (Bool-cases ((r.contracts == 0) || ((ratios r).0 == 0) || ((ratios r).1 == 0))) [
      | inl e ↦ absurd (ground (arith, e))
      | inr e ↦
          let (entry25, entry50, depth25, depth50, same) =
            build_sized-steps r (required_shares r (ratios r).0) (required_shares r (ratios r).1) o
              (ground (arith, e)) in
          record {
            entry25 = entry25;
            entry50 = entry50;
            depth25 = depth25;
            depth50 = depth50;
            same = same;
          }
    ]
