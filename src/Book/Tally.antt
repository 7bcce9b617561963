-- ===== src/Book/Tally.antt =====
-- The fills of a walk beside its shares, its cost and its prices.
use poly_zq_trading.Prelude.{
  ℕ, ◌+◌, ◌*◌, ◌≤◌, ◌<◌, ◌≡◌, refl, List, [], ◌∷◌, Option, none, some, false, All, not, arith,
  Bool-cases, inl, inr, ◌==◌, ◌&&◌,
}
use native.Mathlib.Nat.{mul-le-mul_left}
use poly_zq_trading.Book.Types.{BookLevel, size_of, cost_of}
use poly_zq_trading.Book.Walk.{Walking, walk, consume, taking, push_fill, above_cap, start_walk}
use poly_zq_trading.Book.Sorted.{IsSorted}

push_fill_sums :
    (price take : ℕ) (fs : List BookLevel)
    → (size_of (push_fill price take fs) ≡ size_of fs + take)
      × (cost_of (push_fill price take fs) ≡ cost_of fs + take * price)
unfolding push_fill
push_fill_sums price take [] = omega arith
push_fill_sums price take (f ∷ []) = grind arith
push_fill_sums price take (f ∷ g ∷ fs) = omega (arith, push_fill_sums price take (g ∷ fs))

push_fill-All :
    (P : ℕ → Type 0) (price take : ℕ) (fs : List BookLevel)
    → P price
    → All (λ f. P f.price) fs
    → All (λ f. P f.price) (push_fill price take fs)
unfolding push_fill
push_fill-All P price take [] p h = (p, tt)
push_fill-All P price take (f ∷ []) p h = elim (Bool-cases (f.price == price)) [
  | inl e ↦ rw e (p, tt)
  | inr e ↦ rw e (h.0, (p, tt))
]
push_fill-All P price take (f ∷ g ∷ fs) p h = (h.0, push_fill-All P price take (g ∷ fs) p h.1)

-- Every fill has a higher price than the one before it.
abbrev pub IsRising : List BookLevel → Type 0
IsRising [] = Unit
IsRising (f ∷ fs) = All (λ g. f.price < g.price) fs × IsRising fs

push_fill-IsRising :
    (price take : ℕ) (fs : List BookLevel)
    → All (λ f. f.price ≤ price) fs
    → IsRising fs
    → IsRising (push_fill price take fs)
unfolding push_fill
push_fill-IsRising price take [] le h = (tt, tt)
push_fill-IsRising price take (f ∷ []) le h = elim (Bool-cases (f.price == price)) [
  | inl e ↦ rw e (tt, tt)
  | inr e ↦ rw e ((ground arith, tt), (tt, tt))
]
push_fill-IsRising price take (f ∷ g ∷ fs) le h = (
  push_fill-All (λ p. f.price < p) price take (g ∷ fs) (omega arith) h.0,
  push_fill-IsRising price take (g ∷ fs) le.1 h.1,
)

-- The worst price so far is no lower.
abbrev pub IsAtMost : ℕ → Option ℕ → Type 0
IsAtMost price none = ⊥
IsAtMost price (some worst) = price ≤ worst

-- The loop's invariant, for a request and a cap.
pub record IsTallied (requested : ℕ) (cap : Option ℕ) (s : Walking) : Type 0 where
  pub shares : s.remaining + size_of s.fills ≡ requested
  pub cost : s.total ≡ cost_of s.fills
  pub capped : All (λ f. above_cap cap f.price ≡ false) s.fills
  pub rising : IsRising s.fills
  pub dearest : All (λ f. IsAtMost f.price s.worst) s.fills

-- No level that is still to come is cheaper than what was taken.
abbrev Behind : List BookLevel → Walking → Type 0
Behind [] s = Unit
Behind (l ∷ ls) s = All (λ f. f.price ≤ l.price) s.fills × Behind ls s

consume-IsTallied :
    (requested : ℕ) (cap : Option ℕ) (l : BookLevel) (s : Walking)
    → above_cap cap l.price ≡ false
    → All (λ f. f.price ≤ l.price) s.fills
    → IsTallied requested cap s
    → IsTallied requested cap (consume l s)
unfolding consume
consume-IsTallied requested cap l s inside le h = elim (Bool-cases (taking l s == 0)) [
  | inl e ↦ rw e h
  | inr e ↦ rw e (
      let sums = push_fill_sums l.price (taking l s) s.fills in
      record {
        shares = omega (arith, h.shares);
        cost = omega (arith, h.cost);
        capped =
            push_fill-All (λ p. above_cap cap p ≡ false) l.price (taking l s) s.fills inside
              h.capped;
        rising = push_fill-IsRising l.price (taking l s) s.fills le h.rising;
        dearest = push_fill-All (λ p. p ≤ l.price) l.price (taking l s) s.fills (omega arith) le;
      })
]

pub consume_fills-All :
    (P : ℕ → Type 0) (l : BookLevel) (s : Walking)
    → P l.price
    → All (λ f. P f.price) s.fills
    → All (λ f. P f.price) (consume l s).fills
unfolding consume
consume_fills-All P l s p h = elim (Bool-cases (taking l s == 0)) [
  | inl e ↦ rw e h
  | inr e ↦ rw e (push_fill-All P l.price (taking l s) s.fills p h)
]

consume-Behind :
    (l : BookLevel) (ls : List BookLevel) (s : Walking)
    → All (λ m. l.price ≤ m.price) ls
    → Behind ls s
    → Behind ls (consume l s)
consume-Behind l [] s le h = tt
consume-Behind l (m ∷ ms) s le h =
    (consume_fills-All (λ p. p ≤ m.price) l s le.0 h.0, consume-Behind l ms s le.1 h.1)

walk-IsTallied :
    (requested : ℕ) (cap : Option ℕ) (ls : List BookLevel) (s : Walking)
    → IsSorted ls
    → Behind ls s
    → IsTallied requested cap s
    → IsTallied requested cap (walk cap ls s)
unfolding walk
walk-IsTallied requested cap [] s sorted b h = h
walk-IsTallied requested cap (l ∷ ls) s sorted b h = elim (Bool-cases (above_cap cap l.price)) [
  | inl e ↦ rw e h
  | inr e ↦ rw e (
      let next = consume-IsTallied requested cap l s e b.0 h in
      elim (Bool-cases (not (taking l s == 0) && ((consume l s).remaining == 0))) [
        | inl done ↦ rw done next
        | inr more ↦ rw more (
            walk-IsTallied requested cap ls (consume l s) sorted.1
              (consume-Behind l ls s sorted.0 b.1) next)
      ])
]

start-Behind : (shares : ℕ) (ls : List BookLevel) → Behind ls (start_walk shares)
start-Behind shares [] = tt
start-Behind shares (l ∷ ls) = (tt, start-Behind shares ls)

pub walk_sorted-IsTallied :
    (shares : ℕ) (cap : Option ℕ) (ls : List BookLevel)
    → IsSorted ls
    → IsTallied shares cap (walk cap ls (start_walk shares))
walk_sorted-IsTallied shares cap ls sorted =
    walk-IsTallied shares cap ls (start_walk shares) sorted (start-Behind shares ls)
      (record { shares = omega arith; cost = refl; capped = tt; rising = tt; dearest = tt })

-- No fill is dearer than the worst price, so neither is their average.
pub cost-le-worst :
    (worst : ℕ) (fs : List BookLevel)
    → All (λ f. f.price ≤ worst) fs
    → cost_of fs ≤ size_of fs * worst
cost-le-worst worst [] h = omega arith
cost-le-worst worst (f ∷ fs) h =
    grind (arith, cost-le-worst worst fs h.1, mul-le-mul_left f.size h.0)
