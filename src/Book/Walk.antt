-- ===== src/Book/Walk.antt =====
-- `walk_asks`.
use poly_zq_trading.Prelude.{
  ℕ, ◌+◌, ◌-◌, ◌*◌, List, [], ◌∷◌, Option, none, some, Bool, false, not, ◌&&◌, min, ltb, leb, ◌==◌,
  if◌then◌else◌,
}
use poly_zq_trading.Book.Types.{BookLevel, DepthCost}

-- `sorted(levels, key=price)`: stable, so a level goes before those of the same price behind it.
unfoldable pub insert_level : BookLevel → List BookLevel → List BookLevel
insert_level l [] = l ∷ []
insert_level l (m ∷ ms) = if leb l.price m.price then l ∷ m ∷ ms else m ∷ insert_level l ms

unfoldable pub sort_levels : List BookLevel → List BookLevel
unfolding insert_level
sort_levels [] = []
sort_levels (l ∷ ls) = insert_level l (sort_levels ls)

-- The variables of the loop.
pub record Walking : Type 0 where
  pub remaining : ℕ
  pub total : ℕ
  pub worst : Option ℕ
  pub fills : List BookLevel

-- `fills[-1]` grows when its price is met again.
unfoldable pub push_fill : ℕ → ℕ → List BookLevel → List BookLevel
push_fill price take [] = (record { price = price; size = take }) ∷ []
push_fill price take (f ∷ []) =
    if f.price == price
    then (record { price = price; size = f.size + take }) ∷ []
    else f ∷ (record { price = price; size = take }) ∷ []
push_fill price take (f ∷ g ∷ fs) = f ∷ push_fill price take (g ∷ fs)

abbrev pub taking : BookLevel → Walking → ℕ
taking l s = min s.remaining l.size

-- One round: a level from which nothing is taken is passed over.
unfoldable pub consume : BookLevel → Walking → Walking
consume l s = if taking l s == 0 then s else record {
  remaining = s.remaining - taking l s;
  total = s.total + taking l s * l.price;
  worst = some l.price;
  fills = push_fill l.price (taking l s) s.fills;
}

abbrev pub above_cap : Option ℕ → ℕ → Bool
above_cap none price = false
above_cap (some cap) price = ltb cap price

unfoldable pub walk : Option ℕ → List BookLevel → Walking → Walking
walk cap [] s = s
walk cap (l ∷ ls) s =
    let rest = walk cap ls (consume l s) in
    if above_cap cap l.price
    then s
    else if not (taking l s == 0) && ((consume l s).remaining == 0)
    then consume l s
    else rest

unfoldable pub depth_cost : ℕ → Walking → DepthCost
depth_cost shares s = record {
  requested_shares = shares;
  filled_shares = shares - s.remaining;
  total_cost = s.total;
  vwap =
      if ltb 0 (shares - s.remaining)
      then some (record { numerator = s.total; denominator = shares - s.remaining })
      else none;
  is_sufficient = s.remaining == 0;
  worst_price = s.worst;
  fills = s.fills;
}

abbrev pub start_walk : ℕ → Walking
start_walk shares = record { remaining = shares; total = 0; worst = none; fills = [] }

-- `none` is the `ValueError` for a request that is not positive.
unfoldable pub walk_asks : List BookLevel → ℕ → Option ℕ → Option DepthCost
walk_asks levels shares cap =
    if leb shares 0
    then none
    else some (depth_cost shares (walk cap (sort_levels levels) (start_walk shares)))
