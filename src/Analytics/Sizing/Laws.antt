-- ===== src/Analytics/Sizing/Laws.antt =====
-- Cumulative rounding over a sequence of fills.
use poly_zq_trading.Prelude.{ℕ, ◌+◌, ◌*◌, ◌≤◌, ◌<◌, ◌≡◌, List, [], ◌∷◌, arith, sum_of}
use native.Mathlib.Nat.{add-zero, add_assoc}
use poly_zq_trading.Analytics.Units.{one, share_step_exact}
use poly_zq_trading.Analytics.Sizing.{round_shares_up, incremental_hedge_shares}

-- The rounded shares cover the exact ones, and by less than 0.01 share.
pub round_shares_up_bounds :
    (exact : ℕ)
    → (exact ≤ round_shares_up exact * one)
      × (round_shares_up exact * one < exact + share_step_exact)
unfolding round_shares_up
round_shares_up_bounds exact = omega arith

pub round_shares_up_mono : (a b : ℕ) → a ≤ b → round_shares_up a ≤ round_shares_up b
unfolding round_shares_up
round_shares_up_mono a b h = omega arith

pub incremental_hedge_shares_lem :
    (ratio filled additional : ℕ)
    → round_shares_up (ratio * filled) + incremental_hedge_shares ratio filled additional
      ≡ round_shares_up (ratio * (filled + additional))
unfolding incremental_hedge_shares
incremental_hedge_shares_lem ratio filled additional =
    omega
      (arith, round_shares_up_mono (ratio * filled) (ratio * (filled + additional)) (omega arith))

-- The obligations of a sequence of fills, each sized on what was filled before it.
pub fill_obligations : ℕ → ℕ → List ℕ → ℕ
fill_obligations ratio filled [] = 0
fill_obligations ratio filled (fill ∷ fills) =
    incremental_hedge_shares ratio filled fill + fill_obligations ratio (filled + fill) fills

pub fill_obligations_lem :
    (ratio filled : ℕ) (fills : List ℕ)
    → round_shares_up (ratio * filled) + fill_obligations ratio filled fills
      ≡ round_shares_up (ratio * (filled + sum_of (λ n. n) fills))
unfolding fill_obligations
fill_obligations_lem ratio filled [] = simp (add-zero)
fill_obligations_lem ratio filled (fill ∷ fills) =
    rw (← add_assoc filled fill (sum_of (λ n. n) fills)) (
      omega (
        arith,
        incremental_hedge_shares_lem ratio filled fill,
        fill_obligations_lem ratio (filled + fill) fills,
      ))

pub round_shares_up-zero : (ratio : ℕ) → round_shares_up (ratio * 0) ≡ 0
unfolding round_shares_up
round_shares_up-zero ratio = omega arith

-- Splitting an order into fills changes nothing: whatever the fills, their obligations add up to
-- the shares of one fill of the whole quantity; that covers the exact hedge, and exceeds it by
-- less than 0.01 share.
pub split_fills_total :
    (ratio : ℕ) (fills : List ℕ)
    → let quantity = sum_of (λ n. n) fills in
      let due = fill_obligations ratio 0 fills in
      (due ≡ incremental_hedge_shares ratio 0 quantity)
      × (ratio * quantity ≤ due * one)
      × (due * one < ratio * quantity + share_step_exact)
split_fills_total ratio fills =
    let quantity = sum_of (λ (n : ℕ). n) fills in
    let whole = fill_obligations_lem ratio 0 fills in
    let single = incremental_hedge_shares_lem ratio 0 quantity in
    let start = round_shares_up-zero ratio in
    let bounds = round_shares_up_bounds (ratio * (0 + quantity)) in
    (omega arith, omega arith, omega arith)
