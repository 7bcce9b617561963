-- ===== src/Book/Cheapest.antt =====
-- Purchases from a ladder, to compare the walk with.
use poly_zq_trading.Prelude.{
  ℕ, ◌+◌, ◌-◌, ◌*◌, ◌≤◌, ◌≡◌, refl, ap, List, [], ◌∷◌, Option, true, min, All, leb, arith,
  Bool-cases, inl, inr,
}
use native.Mathlib.Decide.{dec_le}
use native.Mathlib.Nat.{mul-le-mul_left, sub_self, zero-add, add-zero, sub-add_cancel}
use poly_zq_trading.Book.Types.{BookLevel}
use poly_zq_trading.Book.Walk.{above_cap, insert_level, sort_levels}
use poly_zq_trading.Book.Greedy.{greedy_shares, greedy_cost, greedy_zero}
use poly_zq_trading.Book.Sorted.{IsSorted, none_behind, greedy_shares-sorted}

-- A purchase of `n` shares at the cost `c`: from each level at most its size, at its price, and
-- nothing above the cap.
abbrev pub Purchase : Option ℕ → List BookLevel → ℕ → ℕ → Type 0
Purchase cap [] n c = (n ≡ 0) × (c ≡ 0)
Purchase cap (l ∷ ls) n c =
    (a : ℕ) × (n' : ℕ) × (c' : ℕ) × (a ≤ l.size)
    × (above_cap cap l.price ≡ true → a ≡ 0)
    × (n ≡ a + n')
    × (c ≡ a * l.price + c')
    × Purchase cap ls n' c'

-- A purchase does not depend on the order of the ladder.
Purchase-insert :
    (cap : Option ℕ) (l : BookLevel) (ls : List BookLevel) (n c : ℕ)
    → Purchase cap (l ∷ ls) n c
    → Purchase cap (insert_level l ls) n c
unfolding insert_level
Purchase-insert cap l [] n c p = p
Purchase-insert cap l (m ∷ ms) n c
      (a, n1, c1, sa, ca, na, cca, (b, n2, c2, sb, cb, nb, ccb, rest)) =
    elim (Bool-cases (leb l.price m.price)) [
      | inl e ↦ rw e (a, n1, c1, sa, ca, na, cca, (b, n2, c2, sb, cb, nb, ccb, rest))
      | inr e ↦ rw e (
        b,
        a + n2,
        a * l.price + c2,
        sb,
        cb,
        omega arith,
        omega arith,
        Purchase-insert cap l ms (a + n2) (a * l.price + c2) (a, n2, c2, sa, ca, refl, refl, rest),
      )
    ]

pub Purchase-sort :
    (cap : Option ℕ) (ls : List BookLevel) (n c : ℕ)
    → Purchase cap ls n c
    → Purchase cap (sort_levels ls) n c
unfolding sort_levels
Purchase-sort cap [] n c p = p
Purchase-sort cap (l ∷ ls) n c (a, n1, c1, sa, ca, na, cca, rest) =
    Purchase-insert cap l (sort_levels ls) n c
      (a, n1, c1, sa, ca, na, cca, Purchase-sort cap ls n1 c1 rest)

across_cost :
    (x d e size y price p g : ℕ)
    → size ≡ x + d
    → y ≡ d + e
    → p ≤ price
    → e * p ≤ g
    → x * price + y * p ≤ size * price + g
across_cost x d e size y price p g hs hy cheap le =
    rw (hs, hy) (omega (arith, mul-le-mul_left d cheap))

-- What is bought at the cheapest level instead of behind it.
level_cost :
    (t a price later later' c1 c : ℕ)
    → a ≤ t
    → c ≡ a * price + c1
    → later + (t - a) * price ≤ later'
    → later' ≤ c1
    → t * price + later ≤ c
level_cost t a price later later' c1 c h hc dearer le =
    omega (arith, ap (λ (x : ℕ). x * price) (sub-add_cancel h))

-- One level of the comparison below: the three ways in which `x` and `x + y` shares end at it.
module _ (gs gc : ℕ → ℕ) (size price p : ℕ) (cheap : p ≤ price) (zero_cost : gc 0 ≡ 0)
    (more : (x y : ℕ) → x + y ≤ gs (x + y) → gc x + y * p ≤ gc (x + y)) where
  from_zero : (e : ℕ) → e ≤ gs e → e * p ≤ gc e
  from_zero e h = let whole = rw zero-add at (more 0 e (rw zero-add h)) in omega (arith, zero_cost)

  level_cost-add :
      (x y : ℕ)
      → x + y ≤ min (x + y) size + gs (x + y - min (x + y) size)
      → min x size * price + gc (x - min x size) + y * p
        ≤ min (x + y) size * price + gc (x + y - min (x + y) size)
  level_cost-add x y fits = elim (dec_le size x) [
    | yes past ↦
        let low : min x size ≡ size = omega arith in
        let high : min (x + y) size ≡ size = omega arith in
        let left : x + y - size ≡ (x - size) + y = omega arith in
        let enough = rw left at (rw high at fits) in
        rw (low, high, left) (omega (arith, more (x - size) y (omega arith)))
    | no before ↦ elim (dec_le (x + y) size) [
      | yes within ↦
          let low : min x size ≡ x = omega arith in
          let high : min (x + y) size ≡ x + y = omega arith in
          rw (low, high) (simp (sub_self, zero_cost) (omega (arith, mul-le-mul_left y cheap)))
      | no across ↦
          let low : min x size ≡ x = omega arith in
          let high : min (x + y) size ≡ size = omega arith in
          let enough = rw high at fits in
          rw (low, high)
            (simp (sub_self, zero_cost, add-zero)
              (across_cost x (size - x) (x + y - size) size y price p _ (omega arith) (omega arith)
                cheap (from_zero (x + y - size) (omega arith))))
    ]
  ]

-- On a ladder whose prices are at least `p`, more shares cost at least `p` each.
greedy_cost-add :
    (cap : Option ℕ) (ls : List BookLevel) (p x y : ℕ)
    → All (λ l. p ≤ l.price) ls
    → x + y ≤ greedy_shares cap ls (x + y)
    → greedy_cost cap ls x + y * p ≤ greedy_cost cap ls (x + y)
unfolding greedy_cost greedy_shares
greedy_cost-add cap [] p x y h fits = grind arith
greedy_cost-add cap (l ∷ ls) p x y h fits = elim (Bool-cases (above_cap cap l.price)) [
  | inl e ↦ rw e (let none_left = rw e at fits in grind arith)
  | inr e ↦ rw e (
      level_cost-add (greedy_shares cap ls) (greedy_cost cap ls) l.size l.price p h.0
        (greedy_zero cap ls).1 (λ x' y'. greedy_cost-add cap ls p x' y' h.1) x y (rw e at fits))
]

pub Purchase-le_greedy :
    (cap : Option ℕ) (ls : List BookLevel) (n c : ℕ)
    → IsSorted ls
    → Purchase cap ls n c
    → (n ≤ greedy_shares cap ls n) × (greedy_cost cap ls n ≤ c)
unfolding greedy_cost greedy_shares
Purchase-le_greedy cap [] n c sorted p = omega arith
Purchase-le_greedy cap (l ∷ ls) n c sorted (a, n1, c1, sa, ca, na, cca, rest) =
    elim (Bool-cases (above_cap cap l.price)) [
      | inl e ↦ rw e (
          omega (
            arith,
            ca e,
            (Purchase-le_greedy cap ls n1 c1 sorted.1 rest).0,
            greedy_shares-sorted cap ls n1 sorted.1,
            none_behind cap l.price ls e sorted.0,
          ))
      | inr e ↦ rw e (
          let t = min n l.size in
          let (enough, le) = Purchase-le_greedy cap ls n1 c1 sorted.1 rest in
          let split : (n - t) + (t - a) ≡ n1 = omega arith in
          let dearer =
            rw split at
              (greedy_cost-add cap ls l.price (n - t) (t - a) sorted.0 (rw split enough)) in
          (
            omega (
              arith,
              greedy_shares-sorted cap ls n1 sorted.1,
              greedy_shares-sorted cap ls (n - t) sorted.1,
            ),
            level_cost t a l.price _ _ _ c (omega arith) cca dearer le,
          ))
    ]
