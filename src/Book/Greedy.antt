-- ===== src/Book/Greedy.antt =====
-- The walk as two plain recursions on the sorted ladder: the shares it takes and what they cost.
use poly_zq_trading.Prelude.{
  ℕ, ◌+◌, ◌-◌, ◌*◌, ◌≡◌, refl, List, [], ◌∷◌, Option, min, if◌then◌else◌, arith,
}
use poly_zq_trading.Book.Types.{BookLevel}
use poly_zq_trading.Book.Walk.{Walking, walk, consume, above_cap}

unfoldable pub greedy_shares : Option ℕ → List BookLevel → ℕ → ℕ
greedy_shares cap [] r = 0
greedy_shares cap (l ∷ ls) r =
    let rest = greedy_shares cap ls (r - min r l.size) in
    if above_cap cap l.price then 0 else min r l.size + rest

unfoldable pub greedy_cost : Option ℕ → List BookLevel → ℕ → ℕ
greedy_cost cap [] r = 0
greedy_cost cap (l ∷ ls) r =
    let rest = greedy_cost cap ls (r - min r l.size) in
    if above_cap cap l.price then 0 else min r l.size * l.price + rest

pub greedy_zero :
    (cap : Option ℕ) (ls : List BookLevel)
    → (greedy_shares cap ls 0 ≡ 0) × (greedy_cost cap ls 0 ≡ 0)
unfolding greedy_shares greedy_cost
greedy_zero cap [] = (refl, refl)
greedy_zero cap (l ∷ ls) = ground (arith, greedy_zero cap ls)

consume_lem :
    (l : BookLevel) (s : Walking)
    → ((consume l s).remaining ≡ s.remaining - min s.remaining l.size)
      × ((consume l s).total ≡ s.total + min s.remaining l.size * l.price)
unfolding consume
consume_lem l s = grind arith

pub walk_greedy :
    (cap : Option ℕ) (ls : List BookLevel) (s : Walking)
    → ((walk cap ls s).remaining ≡ s.remaining - greedy_shares cap ls s.remaining)
      × ((walk cap ls s).total ≡ s.total + greedy_cost cap ls s.remaining)
unfolding walk greedy_shares greedy_cost
walk_greedy cap [] s = omega arith
walk_greedy cap (l ∷ ls) s =
    ground (arith, consume_lem l s, greedy_zero cap ls, walk_greedy cap ls (consume l s))
