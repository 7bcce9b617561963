-- ===== src/Book/Examples.antt =====
-- A book with two levels at the touch and one behind, and the theorems at it.
use poly_zq_trading.Prelude.{ℕ, ◌≡◌, [], ◌∷◌, some, true, All, min, arith}
use poly_zq_trading.Book.Types.{
  OrderBook, best_bid, best_ask, DepthCost, HedgeEntryPlan, limit_price,
}
use poly_zq_trading.Book.Walk.{walk_asks}
use poly_zq_trading.Book.Depth.{IsDepth, walk_asks-IsDepth}
use poly_zq_trading.Book.Plan.{plan_hedge_entry}
use poly_zq_trading.Book.Plan.Touch.{IsTouch}
use poly_zq_trading.Book.Plan.Entry.{plan_hedge_entry-IsTouch}

-- 0.31 twice, 0.32 and 0.35, with a bid at 0.30 and a tick of 0.01.
abbrev book : OrderBook
book = record {
  bids = (record { price = 3000000000; size = 5000000000 }) ∷ [];
  asks =
      (record { price = 3500000000; size = 9000000000 })
      ∷ (record { price = 3100000000; size = 2000000000 })
      ∷ (record { price = 3200000000; size = 4000000000 })
      ∷ (record { price = 3100000000; size = 1000000000 })
      ∷ [];
  tick_size = some 100000000;
}

walk_asks-IsDepth_example :
    (d : DepthCost) × (walk_asks book.asks 5000000000 (some 3300000000) ≡ some d)
    × IsDepth book.asks 5000000000 (some 3300000000) d
walk_asks-IsDepth_example = walk_asks-IsDepth book.asks 5000000000 (some 3300000000) (omega arith)

abbrev AtTouch : ℕ → Type 0
AtTouch = IsTouch (best_ask book) (best_bid book) book.tick_size 3300000000 true

plan_hedge_entry-IsTouch_example :
    (plan : HedgeEntryPlan) × (plan_hedge_entry book 5000000000 3300000000 true ≡ some plan)
    × (plan.depth.filled_shares ≡ min 5000000000 plan.available_shares)
    × All (λ f. AtTouch f.price) plan.depth.fills
    × ((limit : ℕ) → limit_price plan ≡ some limit → AtTouch limit)
plan_hedge_entry-IsTouch_example =
    plan_hedge_entry-IsTouch book 5000000000 3300000000 true (omega arith)
