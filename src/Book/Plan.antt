-- ===== src/Book/Plan.antt =====
-- `marketable_limit_price` and `plan_hedge_entry`.
pub mod Touch
pub mod Entry
use poly_zq_trading.Prelude.{
  ℕ, ◌+◌, ◌-◌, ◌%◌, List, Option, none, some, Bool, true, false, ◌&&◌, ◌||◌, min, filter, ltb, leb,
  ◌==◌, if◌then◌else◌,
}
use poly_zq_trading.Book.Types.{
  BookLevel, OrderBook, best_bid, best_ask, DepthCost, HedgeEntryPlan, size_of,
}
use poly_zq_trading.Book.Walk.{walk_asks}

abbrev is_crossed : Option ℕ → ℕ → Bool
is_crossed none ask = false
is_crossed (some bid) ask = leb ask bid

abbrev pub lowest_inside : Option ℕ → ℕ → Option ℕ → Option ℕ
lowest_inside none cap bid = none
lowest_inside (some ask) cap bid =
    if leb ask 0 || ltb cap ask then none else if is_crossed bid ask then none else some ask

unfoldable pub marketable_limit_price : OrderBook → ℕ → Option ℕ
marketable_limit_price book cap = lowest_inside (best_ask book) cap (best_bid book)

-- The highest price of the entry: one valid tick above the lowest ask, where that is allowed.
unfoldable pub entry_ceiling : Option ℕ → Bool → Option ℕ → ℕ → Option ℕ
entry_ceiling (some lowest) true (some tick) cap =
    if ltb 0 tick then some (min cap (lowest + tick)) else some lowest
entry_ceiling lowest _ _ _ = lowest

abbrev is_on_tick : Option ℕ → ℕ → ℕ → Bool
is_on_tick none lowest price = false
is_on_tick (some tick) lowest price = ltb 0 tick && ((price - lowest) % tick == 0)

unfoldable pub is_entry_level : Option ℕ → Option ℕ → Option ℕ → BookLevel → Bool
is_entry_level (some lowest) (some ceiling) tick level =
    leb lowest level.price
    && leb level.price ceiling
    && ltb 0 level.size
    && ((level.price == lowest) || is_on_tick tick lowest level.price)
is_entry_level _ _ _ _ = false

-- The levels that the plan walks.
unfoldable pub entry_levels : OrderBook → ℕ → Bool → List BookLevel
entry_levels book cap allow_one_tick =
    let lowest = marketable_limit_price book cap in
    filter
      (is_entry_level lowest (entry_ceiling lowest allow_one_tick book.tick_size cap)
        book.tick_size)
      book.asks

abbrev plan_with : Option ℕ → List BookLevel → Option DepthCost → Option HedgeEntryPlan
plan_with ceiling levels none = none
plan_with ceiling levels (some d) =
    some (record { price_cap = ceiling; available_shares = size_of levels; depth = d })

-- `none` is the `ValueError` of `walk_asks`.
unfoldable pub plan_hedge_entry : OrderBook → ℕ → ℕ → Bool → Option HedgeEntryPlan
plan_hedge_entry book shares cap allow_one_tick =
    let levels = entry_levels book cap allow_one_tick in
    plan_with (entry_ceiling (marketable_limit_price book cap) allow_one_tick book.tick_size cap)
      levels (walk_asks levels shares none)
