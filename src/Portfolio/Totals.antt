-- ===== src/Portfolio/Totals.antt =====
-- The valuation beside the sum over the positions of what each gains.
use poly_zq_trading.Prelude.{
  List, [], ◌∷◌, Option, none, some, Bool, true, false, ◌&&◌, ◌||◌, not, any, filter, map, ◌≡◌,
  refl, sym, ◌∙◌, ap, if◌then◌else◌, ◌⊎◌, inl, inr, arith, Bool-cases,
}
use poly_zq_trading.Prelude.Int.{ℤ, pos, ◌+ℤ◌, ◌-ℤ◌, ◌*ℤ◌, int_laws, *ℤ_parts, *ℤ-zero, -ℤ-*ℤ}
use poly_zq_trading.Portfolio.Valuation.{
  Venue, Position, Market, mark_of, is_zero, amounts, value_position, is_known, is_missing,
  same_venue, counts_at, or_zero, sum_pnl, venue_total, combine, is_empty, value_strategy_portfolio,
}

-- A share pays 1; a contract pays its multiplier.
abbrev pub pays : Position → ℤ
pays p = elim p.venue [ Venue.ibkr ↦ p.multiplier | Venue.polymarket ↦ pos 1 ]

-- The rise of the price since the entry, times what a unit pays and the quantity.
unfoldable pub gain : Market → Position → ℤ
gain m p =
    (or_zero (mark_of m p.venue p.instrument).price -ℤ or_zero p.average_entry_price)
    *ℤ pays p
    *ℤ p.strategy_quantity

unfoldable pub total_gain : Market → List Position → ℤ
total_gain m [] = pos 0
total_gain m (p ∷ ps) = gain m p +ℤ total_gain m ps

-- The gain at one venue.
unfoldable venue_gain : Market → Venue → List Position → ℤ
venue_gain m v [] = pos 0
venue_gain m v (p ∷ ps) =
    if same_venue p.venue v then gain m p +ℤ venue_gain m v ps else venue_gain m v ps

abbrev missing_at : Market → Venue → Position → Bool
missing_at m v p = same_venue p.venue v && is_missing m p

amounts_known :
    (v : Venue) (q k : ℤ) (average mark : Option ℤ)
    → is_known (amounts v q k average mark).unrealized_pnl ≡ is_known average && is_known mark
unfolding amounts
amounts_known v q k average mark = ground arith

value_position-known :
    (m : Market) (p : Position)
    → (not (is_zero p.strategy_quantity) && not (is_known (value_position m p).unrealized_pnl))
      ≡ is_missing m p
unfolding value_position is_missing
value_position-known m p =
    let known =
      amounts_known p.venue p.strategy_quantity p.multiplier p.average_entry_price
        (mark_of m p.venue p.instrument).price in
    ground (arith, known)

times_one : (a : ℤ) → a *ℤ pos 1 ≡ a
times_one a = omega (int_laws, *ℤ_parts a (pos 1))

amounts_gain :
    (v : Venue) (q k : ℤ) (average mark : Option ℤ)
    → (is_known average && is_known mark) ≡ true
    → or_zero (amounts v q k average mark).unrealized_pnl
      ≡ (or_zero mark -ℤ or_zero average)
        *ℤ (elim v [ Venue.ibkr ↦ k | Venue.polymarket ↦ pos 1 ])
        *ℤ q
unfolding amounts
amounts_gain Venue.ibkr q k (some average) (some mark) h = refl
amounts_gain Venue.polymarket q k (some average) (some mark) h =
    rw (times_one (mark -ℤ average)) (sym (-ℤ-*ℤ mark average q))
amounts_gain v q k none mark h = ground arith
amounts_gain v q k (some average) none h = ground arith

zero_eq : (q : ℤ) → is_zero q ≡ true → q ≡ pos 0
zero_eq q h = ground arith

value_position-gain :
    (m : Market) (p : Position)
    → is_missing m p ≡ false
    → (if is_zero p.strategy_quantity then pos 0 else or_zero (value_position m p).unrealized_pnl)
      ≡ gain m p
unfolding value_position is_missing gain
value_position-gain m p h = elim (Bool-cases (is_zero p.strategy_quantity)) [
  | inl zero_held ↦ rw zero_held (rw (zero_eq p.strategy_quantity zero_held) (sym (*ℤ-zero _)))
  | inr held ↦ rw held (
      amounts_gain p.venue p.strategy_quantity p.multiplier p.average_entry_price
        (mark_of m p.venue p.instrument).price (ground arith))
]

-- The positions that count at a venue, valued.
abbrev counted : Market → Venue → List Position → List Position
counted m v ps = filter (counts_at v) (map (value_position m) ps)

counted-known :
    (m : Market) (v : Venue) (ps : List Position)
    → any (λ p. not (is_known p.unrealized_pnl)) (counted m v ps) ≡ any (missing_at m v) ps
unfolding value_position
counted-known m v [] = refl
counted-known m v (p ∷ ps) =
    let rest = counted-known m v ps in
    let first = value_position-known m p in ground (arith, rest, first)

zero_plus : (g a : ℤ) → pos 0 ≡ g → a ≡ g +ℤ a
zero_plus g a e = rw⁻¹ e (omega int_laws)

plus_eq : {a b c d : ℤ} → a ≡ b → c ≡ d → a +ℤ c ≡ b +ℤ d
plus_eq p q = cc

counted-gain :
    (m : Market) (v : Venue) (ps : List Position)
    → any (missing_at m v) ps ≡ false
    → sum_pnl (counted m v ps) ≡ venue_gain m v ps
unfolding value_position sum_pnl venue_gain
counted-gain m v [] h = refl
counted-gain m v (p ∷ ps) h =
    let rest = counted-gain m v ps (ground arith) in
    elim (Bool-cases (same_venue p.venue v)) [
      | inr elsewhere ↦ rw elsewhere rest
      | inl here ↦
          let value = value_position-gain m p (ground arith) in
          elim (Bool-cases (is_zero p.strategy_quantity)) [
            | inl zero_held ↦ rw here (rw zero_held (rest ∙ zero_plus _ _ (rw zero_held at value)))
            | inr held ↦ rw here (rw held (plus_eq (rw held at value) rest))
          ]
    ]

venue_total-gain :
    (m : Market) (v : Venue) (ps : List Position)
    → venue_total (map (value_position m) ps) v
      ≡ (if any (missing_at m v) ps then none else some (venue_gain m v ps))
unfolding venue_total
venue_total-gain m v ps = rw (counted-known m v ps) (elim (Bool-cases (any (missing_at m v) ps)) [
  | inl some_missing ↦ rw some_missing refl
  | inr none_missing ↦ rw none_missing (ap some (counted-gain m v ps none_missing))
])

any_missing :
    (m : Market) (ps : List Position)
    → any (is_missing m) ps
      ≡ (any (missing_at m Venue.ibkr) ps || any (missing_at m Venue.polymarket) ps)
any_missing m [] = refl
any_missing m (p ∷ ps) = let rest = any_missing m ps in ground (arith, rest)

venue_cases :
    (v : Venue)
    → ((same_venue v Venue.ibkr ≡ true) × (same_venue v Venue.polymarket ≡ false))
      ⊎ ((same_venue v Venue.ibkr ≡ false) × (same_venue v Venue.polymarket ≡ true))
venue_cases v = ground arith

venue_gains :
    (m : Market) (ps : List Position)
    → venue_gain m Venue.ibkr ps +ℤ venue_gain m Venue.polymarket ps ≡ total_gain m ps
unfolding venue_gain total_gain
venue_gains m [] = omega int_laws
venue_gains m (p ∷ ps) = elim (venue_cases p.venue) [
  | inl (here, elsewhere) ↦ rw here (rw elsewhere (rw⁻¹ (venue_gains m ps) (omega int_laws)))
  | inr (elsewhere, here) ↦ rw here (rw elsewhere (rw⁻¹ (venue_gains m ps) (omega int_laws)))
]

labels_none :
    (m : Market) (ps : List Position)
    → is_empty (map (λ p. p.label) (filter (is_missing m) ps)) ≡ not (any (is_missing m) ps)
labels_none m [] = refl
labels_none m (p ∷ ps) = elim (Bool-cases (is_missing m p)) [
  | inl lost ↦ rw lost refl
  | inr known ↦ rw known (labels_none m ps)
]

combined :
    (a b : Bool) (x y z : ℤ)
    → x +ℤ y ≡ z
    → combine (if a then none else some x) (if b then none else some y)
      ≡ (if not (a || b) then some z else none)
combined true b x y z e = refl
combined false true x y z e = refl
combined false false x y z e = ap some e

-- The valuation is complete exactly when no position of a quantity other than 0 lacks its entry
-- price or its mark, and the combined profit is then the sum over all positions of the rise of the
-- price since the entry times what a unit pays and the quantity; otherwise it is not given.
pub value_strategy_portfolio-total_gain :
    (m : Market) (ps : List Position)
    → let view = value_strategy_portfolio m ps in
      (view.valuation_complete ≡ not (any (is_missing m) ps))
      × (view.combined_unrealized_pnl
          ≡ (if view.valuation_complete then some (total_gain m ps) else none))
unfolding value_strategy_portfolio
value_strategy_portfolio-total_gain m ps =
    let zq = venue_total-gain m Venue.ibkr ps in
    let poly = venue_total-gain m Venue.polymarket ps in
    (
      labels_none m ps,
      rw (labels_none m ps) (
          rw (any_missing m ps) (
            rw zq (
              rw poly (
                combined (any (missing_at m Venue.ibkr) ps) (any (missing_at m Venue.polymarket) ps)
                  _ _ _ (venue_gains m ps))))),
    )
