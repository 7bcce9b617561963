-- ===== src/Repository/Sizing.antt =====
-- `saved_hedge_ratios`: the hedge sizing that a batch froze.
pub mod Saved
use poly_zq_trading.Prelude.{
  ℕ, List, [], ◌∷◌, Option, none, some, Bool, false, ◌&&◌, not, any, length, map, ltb, ◌==◌,
  if◌then◌else◌,
}
use poly_zq_trading.Prelude.Int.{pos, pos_part}
use poly_zq_trading.Ledger.Types.{
  Number, finite, not_finite, RawRatio, decimal, no_decimal, RawRatios, table, no_table,
  SizingMethod, cme_rounded_settlement_v1, Result, ok, err, invalid_sizing,
}

-- The empty token is 0.
unfoldable pub is_ratio : ℕ × Number → Bool
is_ratio (token, finite (pos n)) = not (token == 0) && ltb 0 n
is_ratio (token, _) = false

-- `Decimal(str(value))`, or its `InvalidOperation`.
unfoldable pub read_ratios : List (ℕ × RawRatio) → Option (List (ℕ × Number))
read_ratios [] = some []
read_ratios ((token, no_decimal) ∷ rows) = none
read_ratios ((token, decimal n) ∷ rows) = elim (read_ratios rows) [
  | none ↦ none
  | some ratios ↦ some ((token, n) ∷ ratios)
]

abbrev pub units : ℕ × Number → ℕ × ℕ
units (token, finite n) = (token, pos_part n)
units (token, not_finite) = (token, 0)

unfoldable pub valid_ratios : Option (List (ℕ × Number)) → Result (Option (List (ℕ × ℕ)))
valid_ratios none = err invalid_sizing
valid_ratios (some ratios) =
    if any (λ r. not (is_ratio r)) ratios then err invalid_sizing else ok (some (map units ratios))

unfoldable pub table_ratios : RawRatios → Result (Option (List (ℕ × ℕ)))
table_ratios no_table = err invalid_sizing
table_ratios (table rows) =
    if length rows == 2 then valid_ratios (read_ratios rows) else err invalid_sizing

-- No sizing at all is that of a legacy batch.
unfoldable pub saved_hedge_ratios :
    Option RawRatios → Option SizingMethod → Result (Option (List (ℕ × ℕ)))
saved_hedge_ratios none none = ok none
saved_hedge_ratios (some raw) (some cme_rounded_settlement_v1) = table_ratios raw
saved_hedge_ratios _ _ = err invalid_sizing
