-- ===== src/Repository/Backing/Legs.antt =====
-- The legs of an execution, each of its own token.
use poly_zq_trading.Prelude.{
  ℕ, ◌≡◌, refl, List, [], ◌∷◌, map, sum_of, All, false, ◌==◌, if◌then◌else◌, arith, Bool-cases, inl,
  inr, ==_iff, subst,
}
use poly_zq_trading.Analytics.Sizing.{round_shares_up, incremental_hedge_shares}
use poly_zq_trading.Repository.Fills.{leg_due}
use poly_zq_trading.Repository.Backing.{saved_ratio_of}

-- The tokens of a list of legs are pairwise distinct.
abbrev pub AreApart : List (ℕ × ℕ) → Type 0
AreApart [] = Unit
AreApart (leg ∷ legs) = All (λ l. (leg.0 == l.0) ≡ false) legs × AreApart legs

abbrev pub amount_on : ℕ → ℕ × ℕ → ℕ
amount_on token leg = if leg.0 == token then leg.1 else 0

amounts-absent :
    (token : ℕ) (legs : List (ℕ × ℕ))
    → All (λ l. (token == l.0) ≡ false) legs
    → sum_of (amount_on token) legs ≡ 0
amounts-absent token [] h = refl
amounts-absent token ((leg, due) ∷ legs) (apart, rest) =
    let zero_rest = amounts-absent token legs rest in
    elim (Bool-cases (leg == token)) [
      | inl e ↦ absurd (ground (arith, apart))
      | inr e ↦ rw e (omega (arith, zero_rest))
    ]

incremental-zero : (filled quantity : ℕ) → incremental_hedge_shares 0 filled quantity ≡ 0
unfolding incremental_hedge_shares round_shares_up
incremental-zero filled quantity = omega arith

map-absent :
    (filled quantity leg : ℕ) (ratios : List (ℕ × ℕ))
    → All (λ l. (leg == l.0) ≡ false) (map (leg_due filled quantity) ratios)
    → sum_of (amount_on leg) (map (leg_due filled quantity) ratios) ≡ 0
map-absent filled quantity leg ratios h =
    amounts-absent leg (map (leg_due filled quantity) ratios) h

-- The legs of one execution owe a token what its ratio asks for.
pub amounts_due :
    (filled quantity token : ℕ) (ratios : List (ℕ × ℕ))
    → AreApart (map (leg_due filled quantity) ratios)
    → sum_of (amount_on token) (map (leg_due filled quantity) ratios)
      ≡ incremental_hedge_shares (saved_ratio_of token ratios) filled quantity
amounts_due filled quantity token [] h = omega (arith, incremental-zero filled quantity)
amounts_due filled quantity token ((leg, ratio) ∷ rest) (apart, others) =
    elim (Bool-cases (leg == token)) [
      | inl e ↦ rw e (
          omega (
            arith,
            subst (λ (t : ℕ). sum_of (amount_on t) (map (leg_due filled quantity) rest) ≡ 0)
                ((==_iff leg token).0 e) (map-absent filled quantity leg rest apart),
          ))
      | inr e ↦ rw e (omega (arith, amounts_due filled quantity token rest others))
    ]
