-- ===== src/Book/Plan/Entry.antt =====
-- What an entry plan buys.
use poly_zq_trading.Prelude.{
  ℕ, ◌≤◌, ◌≡◌, refl, List, [], ◌∷◌, Option, none, some, Bool, true, All, filter, min, inl, inr,
  subst, Bool-cases, arith, leb, ◌==◌, not, ◌&&◌,
}
use poly_zq_trading.Book.Types.{
  BookLevel, OrderBook, best_bid, best_ask, DepthCost, HedgeEntryPlan, limit_price, size_of,
}
use poly_zq_trading.Book.Walk.{
  Walking, walk, consume, taking, above_cap, sort_levels, start_walk, depth_cost, walk_asks,
}
use poly_zq_trading.Book.Sorted.{insert-All, available}
use poly_zq_trading.Book.Tally.{consume_fills-All}
use poly_zq_trading.Book.Depth.{walk_asks-IsDepth}
use poly_zq_trading.Book.Plan.{
  marketable_limit_price, entry_ceiling, entry_levels, plan_hedge_entry,
}
use poly_zq_trading.Book.Plan.Touch.{IsTouch, entry_level-IsTouch}

-- Whatever holds of all prices on a ladder holds of the fills and of the worst price of a walk.
module _ (P : ℕ → Type 0) where
  abbrev Holds : Walking → Type 0
  Holds s = All (λ f. P f.price) s.fills × ((w : ℕ) → s.worst ≡ some w → P w)

  consume-Holds : (l : BookLevel) (s : Walking) → P l.price → Holds s → Holds (consume l s)
  unfolding consume
  consume-Holds l s p h = elim (Bool-cases (taking l s == 0)) [
    | inl e ↦ rw e h
    | inr e ↦
        let fills = consume_fills-All P l s p h.0 in
        rw e (rw e at fills, λ w same. subst P (ground arith) p)
  ]

  walk-Holds :
      (cap : Option ℕ) (ls : List BookLevel) (s : Walking)
      → All (λ l. P l.price) ls
      → Holds s
      → Holds (walk cap ls s)
  unfolding walk
  walk-Holds cap [] s ps h = h
  walk-Holds cap (l ∷ ls) s ps h =
      let next = consume-Holds l s ps.0 h in
      elim (Bool-cases (above_cap cap l.price)) [
        | inl e ↦ rw e h
        | inr e ↦
            rw e (elim (Bool-cases (not (taking l s == 0) && ((consume l s).remaining == 0))) [
              | inl done ↦ rw done next
              | inr more ↦ rw more (walk-Holds cap ls (consume l s) ps.1 next)
            ])
      ]

  sort-All : (ls : List BookLevel) → All (λ l. P l.price) ls → All (λ l. P l.price) (sort_levels ls)
  unfolding sort_levels
  sort-All [] h = tt
  sort-All (l ∷ ls) h = insert-All (λ m. P m.price) l (sort_levels ls) h.0 (sort-All ls h.1)

  pub walk_asks-Holds :
      (levels : List BookLevel) (shares : ℕ) (cap : Option ℕ) {d : DepthCost}
      → walk_asks levels shares cap ≡ some d
      → All (λ l. P l.price) levels
      → All (λ f. P f.price) d.fills × ((w : ℕ) → d.worst_price ≡ some w → P w)
  unfolding walk_asks depth_cost
  walk_asks-Holds levels shares cap {d} made ps = elim (Bool-cases (leb shares 0)) [
    | inl e ↦ cc (rw e at made)
    | inr e ↦
        let s = walk cap (sort_levels levels) (start_walk shares) in
        let same : depth_cost shares s ≡ d = cc (rw e at made) in
        subst
          (λ (c : DepthCost).
            All (λ f. P f.price) c.fills × ((w : ℕ) → c.worst_price ≡ some w → P w))
          same
          (walk-Holds cap (sort_levels levels) (start_walk shares) (sort-All levels ps)
            (tt, λ w none_yet. cc))
  ]

available-none : (ls : List BookLevel) → available none ls ≡ size_of ls
available-none [] = refl
available-none (l ∷ ls) = omega (arith, available-none ls)

filter-All :
    (P : BookLevel → Type 0) (p : BookLevel → Bool) (ls : List BookLevel)
    → ((l : BookLevel) → p l ≡ true → P l)
    → All P (filter p ls)
filter-All P p [] h = tt
filter-All P p (l ∷ ls) h = elim (Bool-cases (p l)) [
  | inl e ↦ rw e (h l e, filter-All P p ls h)
  | inr e ↦ rw e (filter-All P p ls h)
]

entry_levels-IsTouch :
    (book : OrderBook) (cap : ℕ) (allow : Bool)
    → All
        (λ l. IsTouch (best_ask book) (best_bid book) book.tick_size cap allow l.price)
        (entry_levels book cap allow)
unfolding entry_levels marketable_limit_price
entry_levels-IsTouch book cap allow =
    filter-All _ _ book.asks
      (λ l. entry_level-IsTouch cap l (best_ask book) (best_bid book) book.tick_size allow)

-- For a positive request an entry plan is made. It fills the smaller of the request and the
-- shares that it reports as available. Every fill, and the limit price, lies at the lowest ask of
-- an uncrossed book or, only if one tick is allowed, exactly one tick above it, and never above
-- the price cap.
pub plan_hedge_entry-IsTouch :
    (book : OrderBook) (shares cap : ℕ) (allow : Bool)
    → 1 ≤ shares
    → let touch = IsTouch (best_ask book) (best_bid book) book.tick_size cap allow in
      (plan : HedgeEntryPlan) × (plan_hedge_entry book shares cap allow ≡ some plan)
      × (plan.depth.filled_shares ≡ min shares plan.available_shares)
      × All (λ f. touch f.price) plan.depth.fills
      × ((limit : ℕ) → limit_price plan ≡ some limit → touch limit)
unfolding plan_hedge_entry
plan_hedge_entry-IsTouch book shares cap allow h =
    let levels = entry_levels book cap allow in
    let (d, made, depth) = walk_asks-IsDepth levels shares none h in
    let held = walk_asks-Holds _ levels shares none made (entry_levels-IsTouch book cap allow) in
    (
      record {
        price_cap = entry_ceiling (marketable_limit_price book cap) allow book.tick_size cap;
        available_shares = size_of levels;
        depth = d;
      },
      rw made refl,
      omega (arith, depth.filled, available-none levels),
      held.0,
      held.1,
    )
