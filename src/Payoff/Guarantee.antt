-- ===== src/Payoff/Guarantee.antt =====
-- What the hedges guarantee: the scenarios compared with the one where the rate does not change.
use poly_zq_trading.Prelude.{ℕ, ◌+◌, ◌*◌, ◌≤◌, ◌<◌, ◌≡◌, ap, ◌∙◌, arith}
use poly_zq_trading.Prelude.Int.{
  ℤ, pos, pos_part, neg_part, ◌+ℤ◌, ◌-ℤ◌, ◌≤ℤ◌, ◌<ℤ◌, scale, abs, int_laws, scale_parts, +ℤ_parts,
  -ℤ_parts, parts_one,
}
use poly_zq_trading.Domain.Calendar.{total_days}
use poly_zq_trading.Analytics.Units.{one, one_share, share_step_exact, futures_point_value}
use poly_zq_trading.Analytics.Settlement.{theoretical_settlement}
use poly_zq_trading.Analytics.Settlement.Laws.{theoretical_settlement_antitone}
use poly_zq_trading.Analytics.Sizing.{hedge_shares_per_contract}
use poly_zq_trading.Analytics.Sizing.Laws.{
  round_shares_up_bounds, incremental_hedge_shares_lem, round_shares_up-zero,
}
use poly_zq_trading.Book.Types.{DepthCost}
use poly_zq_trading.Payoff.Types.{Request}
use poly_zq_trading.Payoff.Scenarios.{
  leg_pnl, futures_pnl_of, gross_pnl_of, inc25_payout_of, inc50plus_payout_of,
}
use poly_zq_trading.Payoff.Build.{required_shares}

-- The exact hedge of the contracts, in units of 10^-18.
abbrev exact_hedge : ℕ → ℕ → ℕ
exact_hedge ratio contracts = ratio * (contracts * one_share)

hedge_product :
    (contracts gap : ℕ)
    → contracts * futures_point_value * one_share * gap
      ≡ exact_hedge (gap * futures_point_value) contracts
hedge_product contracts gap = grind arith

scaled_gap :
    (k : ℕ) (base settlement price : ℤ)
    → settlement ≤ℤ base
    → scale k (base -ℤ price)
      ≡ scale k (settlement -ℤ price) +ℤ pos (k * pos_part (base -ℤ settlement))
scaled_gap k base settlement price h =
    let rises : neg_part (base -ℤ settlement) ≡ 0 =
      omega (int_laws, parts_one (base -ℤ settlement)) in
    omega (
      int_laws,
      ap (λ (t : ℕ). k * t) rises,
      ap (λ (t : ℕ). k * t) (-ℤ_parts base settlement),
      ap (λ (t : ℕ). k * t) (-ℤ_parts base price),
      ap (λ (t : ℕ). k * t) (-ℤ_parts settlement price),
      scale_parts k (base -ℤ price),
      scale_parts k (settlement -ℤ price),
    )

-- A lower settlement loses exactly what its ratio hedges.
futures_gap :
    (contracts : ℕ) (base settlement price : ℤ)
    → settlement ≤ℤ base
    → futures_pnl_of contracts (base -ℤ price)
      ≡ futures_pnl_of contracts (settlement -ℤ price)
        +ℤ pos (exact_hedge (abs (base -ℤ settlement) * futures_point_value) contracts)
unfolding futures_pnl_of
futures_gap contracts base settlement price h =
    let gap = base -ℤ settlement in
    let rises : neg_part gap ≡ 0 = omega (int_laws, parts_one gap) in
    let whole : pos_part gap ≡ abs gap = omega (arith, rises) in
    let lost = scaled_gap (contracts * futures_point_value * one_share) base settlement price h in
    let same : contracts * futures_point_value * one_share * pos_part gap
        ≡ exact_hedge (abs gap * futures_point_value) contracts =
      hedge_product contracts (pos_part gap)
      ∙ ap (λ (g : ℕ). exact_hedge (g * futures_point_value) contracts) whole in
    lost
    ∙ ap
        (λ (n : ℕ).
          scale (contracts * futures_point_value * one_share) (settlement -ℤ price) +ℤ pos n)
        same

-- The shares of a leg pay for the exact hedge to less than 0.01 share either way, and in full
-- where nothing was filled before.
required_bounds :
    (r : Request) (ratio : ℕ)
    → (required_shares r ratio * one < exact_hedge ratio r.contracts + share_step_exact)
      × (exact_hedge ratio r.contracts < required_shares r ratio * one + share_step_exact)
unfolding required_shares
required_bounds r ratio =
    let filled = r.previously_filled_contracts in
    let more = r.contracts * one_share in
    let whole = incremental_hedge_shares_lem ratio filled more in
    let before = round_shares_up_bounds (ratio * filled) in
    let after = round_shares_up_bounds (ratio * (filled + more)) in
    (grind (arith, whole, before, after), grind (arith, whole, before, after))

required_covers :
    (r : Request) (ratio : ℕ)
    → r.previously_filled_contracts ≡ 0
    → exact_hedge ratio r.contracts ≤ required_shares r ratio * one
unfolding required_shares
required_covers r ratio fresh =
    let more = r.contracts * one_share in
    rw fresh (
      omega (
        arith,
        incremental_hedge_shares_lem ratio 0 more,
        round_shares_up-zero ratio,
        round_shares_up_bounds (ratio * (0 + more)),
      ))

gap_sum :
    (f f' : ℤ) (e z z' x y c d : ℕ)
    → z ≡ 0
    → z' ≡ 0
    → f ≡ f' +ℤ pos e
    → f +ℤ (pos z -ℤ pos c +ℤ (pos z' -ℤ pos d)) +ℤ pos (x + y)
      ≡ f' +ℤ (pos x -ℤ pos c +ℤ (pos y -ℤ pos d)) +ℤ pos e
gap_sum f f' e z z' x y c d none_25 none_50 lost = rw lost (omega int_laws)

sum_parts :
    (a b : ℤ) (m n : ℕ)
    → a +ℤ pos m ≡ b +ℤ pos n
    → pos_part a + neg_part b + m ≡ pos_part b + neg_part a + n
sum_parts a b m n same =
    omega (int_laws, ap pos_part same, ap neg_part same, +ℤ_parts a (pos m), +ℤ_parts b (pos n))

-- The gap between the scenario with no change and one that pays a leg.
module _ (r : Request) (q25 q50 : ℕ) (cost25 cost50 : DepthCost) where
  abbrev gross : ℕ → ℤ
  gross = gross_pnl_of r q25 q50 cost25 cost50

  abbrev settled : ℕ → ℤ
  settled move = theoretical_settlement r.pre_meeting_effr (pos move) r.calendar

  gross_gap :
      (move : ℕ)
      → 1 ≤ total_days r.calendar
      → let ratio = hedge_shares_per_contract move r.pre_meeting_effr r.calendar in
        gross 0 +ℤ pos (q25 * inc25_payout_of move * one + q50 * inc50plus_payout_of move * one)
        ≡ gross move +ℤ pos (exact_hedge ratio r.contracts)
  unfolding gross_pnl_of leg_pnl hedge_shares_per_contract
  gross_gap move days =
      let lower =
        theoretical_settlement_antitone r.pre_meeting_effr (pos 0) (pos move) r.calendar days
          (omega arith) in
      let lost = futures_gap r.contracts (settled 0) (settled move) r.zq_price lower in
      gap_sum _ _ _ (q25 * 0 * one) (q50 * 0 * one) _ _ cost25.total_cost cost50.total_cost
        (omega arith) (omega arith) lost

  -- The profits of the scenario with no change and of one that pays a leg, where its ratio is the
  -- one that the settlement model gives, differ by less than the value of 0.01 share.
  pub gross_pnl_near :
      (move : ℕ)
      → 1 ≤ total_days r.calendar
      → let hedged =
          required_shares r (hedge_shares_per_contract move r.pre_meeting_effr r.calendar) in
        q25 * inc25_payout_of move * one + q50 * inc50plus_payout_of move * one ≡ hedged * one
        → (gross 0 <ℤ gross move +ℤ pos share_step_exact)
          × (gross move <ℤ gross 0 +ℤ pos share_step_exact)
  gross_pnl_near move days paid =
      let (below, above) =
        required_bounds r (hedge_shares_per_contract move r.pre_meeting_effr r.calendar) in
      let gap = sum_parts (gross 0) (gross move) _ _ (gross_gap move days) in
      (omega (int_laws, gap, paid, below, above), omega (int_laws, gap, paid, below, above))

  -- Where nothing was filled before, the scenario with no change earns no more than one that pays.
  pub gross_pnl_least :
      (move : ℕ)
      → 1 ≤ total_days r.calendar
      → r.previously_filled_contracts ≡ 0
      → let hedged =
          required_shares r (hedge_shares_per_contract move r.pre_meeting_effr r.calendar) in
        q25 * inc25_payout_of move * one + q50 * inc50plus_payout_of move * one ≡ hedged * one
        → gross 0 ≤ℤ gross move
  gross_pnl_least move days fresh paid =
      let covered =
        required_covers r (hedge_shares_per_contract move r.pre_meeting_effr r.calendar) fresh in
      let gap = sum_parts (gross 0) (gross move) _ _ (gross_gap move days) in
      omega (int_laws, gap, paid, covered)
