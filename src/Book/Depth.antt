-- ===== src/Book/Depth.antt =====
-- What `walk_asks` returns.
use poly_zq_trading.Prelude.{
  ℕ, ◌+◌, Bool-cases, [], ◌∷◌, inl, inr, ◌-◌, ◌≤◌, ◌≡◌, refl, List, Option, some, true, false, min,
  All, arith, ◌↔◌,
}
use poly_zq_trading.Book.Types.{BookLevel, DepthCost, size_of, cost_of}
use poly_zq_trading.Book.Walk.{
  Walking, walk, above_cap, sort_levels, start_walk, depth_cost, walk_asks,
}
use poly_zq_trading.Book.Greedy.{greedy_cost, walk_greedy}
use poly_zq_trading.Book.Sorted.{available, sort-IsSorted, available-sort, greedy_shares-sorted}
use poly_zq_trading.Book.Tally.{IsRising, IsAtMost, walk_sorted-IsTallied}
use poly_zq_trading.Book.Cheapest.{Purchase, Purchase-sort, Purchase-le_greedy}

-- Beyond what is offered a request costs nothing more.
greedy_cost-clip :
    (cap : Option ℕ) (ls : List BookLevel) (r : ℕ)
    → greedy_cost cap ls r ≡ greedy_cost cap ls (min r (available cap ls))
unfolding greedy_cost
greedy_cost-clip cap [] r = refl
greedy_cost-clip cap (l ∷ ls) r = elim (Bool-cases (above_cap cap l.price)) [
  | inl e ↦ rw e refl
  | inr e ↦ rw e (
      let taken : min (min r (l.size + available cap ls)) l.size ≡ min r l.size = omega arith in
      let rest : min r (l.size + available cap ls) - min r l.size
          ≡ min (r - min r l.size) (available cap ls) =
        omega arith in
      rw (taken, rest) (omega (arith, greedy_cost-clip cap ls (r - min r l.size))))
]

-- The final variables of a walk over the sorted ladder.
abbrev final : List BookLevel → ℕ → Option ℕ → Walking
final levels shares cap = walk cap (sort_levels levels) (start_walk shares)

final_lem :
    (levels : List BookLevel) (shares : ℕ) (cap : Option ℕ)
    → ((final levels shares cap).remaining ≡ shares - min shares (available cap levels))
      × ((final levels shares cap).total ≡ greedy_cost cap (sort_levels levels) shares)
final_lem levels shares cap =
    let walked = walk_greedy cap (sort_levels levels) (start_walk shares) in
    let taken = greedy_shares-sorted cap (sort_levels levels) shares (sort-IsSorted levels) in
    omega (arith, available-sort cap levels)

pub record IsDepth (levels : List BookLevel) (shares : ℕ) (cap : Option ℕ) (d : DepthCost)
    : Type 0 where
  -- It fills as much as the levels inside the cap offer, and says when that is all.
  pub filled : d.filled_shares ≡ min shares (available cap levels)
  pub sufficient : (d.is_sufficient ≡ true) ↔ (shares ≤ available cap levels)
  -- The fills add up to it, cost the total, rise in price, and stay inside the cap and the worst
  -- price.
  pub fill_sizes : size_of d.fills ≡ d.filled_shares
  pub fill_costs : cost_of d.fills ≡ d.total_cost
  pub rising : IsRising d.fills
  pub capped : All (λ f. above_cap cap f.price ≡ false) d.fills
  pub dearest : All (λ f. IsAtMost f.price d.worst_price) d.fills
  -- No purchase of as many shares inside the cap is cheaper.
  pub cheapest : (c : ℕ) → Purchase cap levels d.filled_shares c → d.total_cost ≤ c

-- For a positive request the walk returns a result. It fills the smaller of the request and what
-- the levels inside the cap offer, and is sufficient exactly when they offer the request. Its
-- fills add up to the filled shares and to the total cost, rise in price, and none is above the
-- cap or the worst price. No purchase of the same number of shares, at most each level's size and
-- nothing above the cap, costs less than the total.
pub walk_asks-IsDepth :
    (levels : List BookLevel) (shares : ℕ) (cap : Option ℕ)
    → 1 ≤ shares
    → (d : DepthCost) × (walk_asks levels shares cap ≡ some d) × IsDepth levels shares cap d
unfolding walk_asks depth_cost
walk_asks-IsDepth levels shares cap h =
    let s = final levels shares cap in
    let (left, cost) = final_lem levels shares cap in
    let t = walk_sorted-IsTallied shares cap (sort_levels levels) (sort-IsSorted levels) in
    (
      depth_cost shares s,
      ground arith,
      record {
        filled = omega arith;
        sufficient = (λ e. ground arith, λ e. ground arith);
        fill_sizes = omega (arith, t.shares);
        fill_costs = omega (arith, t.cost);
        rising = t.rising;
        capped = t.capped;
        dearest = t.dearest;
        cheapest = λ c p.
            total-le c
              (Purchase-le_greedy cap (sort_levels levels) _ c (sort-IsSorted levels)
                (Purchase-sort cap levels _ c p)).1;
      },
    )
  where
    total-le :
        (c : ℕ)
        → greedy_cost cap (sort_levels levels) (shares - (final levels shares cap).remaining) ≤ c
        → (final levels shares cap).total ≤ c
    total-le c le =
        let (left, cost) = final_lem levels shares cap in
        let filled : shares - (final levels shares cap).remaining
            ≡ min shares (available cap (sort_levels levels)) =
          omega (arith, available-sort cap levels) in
        omega (arith, rw filled at le, greedy_cost-clip cap (sort_levels levels) shares)
