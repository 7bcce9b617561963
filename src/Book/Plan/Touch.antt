-- ===== src/Book/Plan/Touch.antt =====
-- Where the fills of an entry plan lie.
use poly_zq_trading.Prelude.{
  ℕ, ◌+◌, ◌-◌, ◌%◌, ◌≤◌, ◌<◌, ◌≡◌, refl, Option, none, some, Bool, true, false, ◌⊎◌, inl, inr,
  Bool-cases, arith, ◌==◌,
}
use native.Mathlib.Nat.{mod-eq_of_lt}
use poly_zq_trading.Book.Types.{BookLevel}
use poly_zq_trading.Book.Plan.{entry_ceiling, is_entry_level, lowest_inside}

-- A price at the lowest ask of an uncrossed book, or one tick above it where that is allowed,
-- inside the cap.
pub record IsTouch (ask bid tick : Option ℕ) (cap : ℕ) (allow_one_tick : Bool) (price : ℕ)
    : Type 0 where
  pub lowest : ℕ
  pub is_lowest : ask ≡ some lowest
  pub inside : price ≤ cap
  pub uncrossed : (b : ℕ) → bid ≡ some b → b < lowest
  pub near :
      (price ≡ lowest)
      ⊎ ((allow_one_tick ≡ true) × ((t : ℕ) × (tick ≡ some t) × (price ≡ lowest + t)))

on_tick_near : (d tick : ℕ) → 0 < tick → d ≤ tick → d % tick ≡ 0 → (d ≡ 0) ⊎ (d ≡ tick)
on_tick_near d tick positive le h = grind (arith, mod-eq_of_lt)

module _ (cap : ℕ) (level : BookLevel) where
  uncrossed_of :
      (ask : ℕ) (bid tick ceiling : Option ℕ)
      → is_entry_level (lowest_inside (some ask) cap bid) ceiling tick level ≡ true
      → (b : ℕ) → bid ≡ some b
      → b < ask
  unfolding is_entry_level
  uncrossed_of ask bid tick ceiling h b e = ground arith

  near_of :
      (ask : ℕ) (bid tick : Option ℕ) (allow : Bool)
      → is_entry_level
          (lowest_inside (some ask) cap bid)
          (entry_ceiling (lowest_inside (some ask) cap bid) allow tick cap)
          tick
          level
        ≡ true
      → (level.price ≡ ask)
        ⊎ ((allow ≡ true) × ((t : ℕ) × (tick ≡ some t) × (level.price ≡ ask + t)))
  unfolding entry_ceiling is_entry_level
  near_of ask bid none allow h = inl (ground arith)
  near_of ask bid (some t) false h = inl (ground arith)
  near_of ask bid (some t) true h = elim (Bool-cases (level.price == ask)) [
    | inl e ↦ inl (ground arith)
    | inr e ↦ inr (refl, (t, refl, ground (arith, on_tick_near (level.price - ask) t)))
  ]

  pub entry_level-IsTouch :
      (ask bid tick : Option ℕ) (allow : Bool)
      → is_entry_level
          (lowest_inside ask cap bid)
          (entry_ceiling (lowest_inside ask cap bid) allow tick cap)
          tick
          level
        ≡ true
      → IsTouch ask bid tick cap allow level.price
  unfolding entry_ceiling is_entry_level
  entry_level-IsTouch none bid tick allow h = cc
  entry_level-IsTouch (some ask) bid tick allow h = record {
    lowest = ask;
    is_lowest = refl;
    inside = ground arith;
    uncrossed =
        uncrossed_of ask bid tick (entry_ceiling (lowest_inside (some ask) cap bid) allow tick cap)
          h;
    near = near_of ask bid tick allow h;
  }
