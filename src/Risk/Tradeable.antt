-- ===== src/Risk/Tradeable.antt =====
-- When `qualify` lets a batch open.
use poly_zq_trading.Prelude.{
  List, [], ◌∷◌, ◌++◌, true, ◌&&◌, filter, ◌≡◌, ◌↔◌, refl, arith, Bool-cases, inl, inr, ◌∙◌, sym,
}
use poly_zq_trading.Risk.Types.{GateCheck, GateContext, Settings, Opportunity}
use poly_zq_trading.Risk.Checks.{
  venue_checks, eligibility_checks, cross_venue_checks, strategy_checks, depth_checks,
  margin_checks, position_checks, operations_checks, economics_checks,
}
use poly_zq_trading.Risk.Engine.{is_failed, is_empty, all_checks, qualify}
use poly_zq_trading.Risk.Gates.{
  are_clear, VenuesReady, IsEligible, AreSynchronized, IsLongEntry, HasDepth, IsFunded, IsOrderly,
  IsOpen, IsWorthwhile, venue_checks-clear, eligibility_checks-clear, cross_venue_lem,
  strategy_checks-clear, depth_lem, margin_checks-clear, position_checks-clear,
  operations_checks-clear, economics_checks-clear,
}

-- The rules of an entry, all of them.
pub record IsTradeable (s : Settings) (o : Opportunity) (c : GateContext) : Type 0 where
  pub venues : VenuesReady c
  pub eligible : IsEligible c
  pub synchronized : AreSynchronized c.cross_venue_checks c
  pub long_entry : IsLongEntry o c
  pub depth : HasDepth o.gate_checks c
  pub funded : IsFunded s c
  pub orderly : IsOrderly s c
  pub is_open : IsOpen s c
  pub worthwhile : IsWorthwhile s o

failed_none : (checks : List GateCheck) → is_empty (filter is_failed checks) ≡ are_clear checks
failed_none [] = refl
failed_none (check ∷ checks) = elim (Bool-cases (is_failed check)) [
  | inl fails ↦ rw fails refl
  | inr clear ↦ rw clear (failed_none checks)
]

are_clear-append : (xs ys : List GateCheck) → are_clear (xs ++ ys) ≡ are_clear xs && are_clear ys
are_clear-append [] ys = refl
are_clear-append (x ∷ xs) ys = let rest = are_clear-append xs ys in ground (arith, rest)

clear_both :
    {P Q : Type 0} (xs ys : List GateCheck)
    → ((are_clear xs ≡ true) ↔ P)
    → ((are_clear ys ≡ true) ↔ Q)
    → (are_clear (xs ++ ys) ≡ true) ↔ (P × Q)
clear_both xs ys p q = rw (are_clear-append xs ys) (ground (arith, p, q))

-- The rules in the order of the checks.
abbrev Rules : Settings → Opportunity → GateContext → Type 0
Rules s o c =
    VenuesReady c
    × (IsEligible c
        × (AreSynchronized c.cross_venue_checks c
            × (IsLongEntry o c
                × (HasDepth o.gate_checks c
                    × (IsFunded s c × (IsOrderly s c × (IsOpen s c × IsWorthwhile s o)))))))

all_checks-clear :
    (s : Settings) (o : Opportunity) (c : GateContext)
    → (are_clear (all_checks s o c) ≡ true) ↔ Rules s o c
unfolding all_checks
all_checks-clear s o c = clear_both (venue_checks c) _ (venue_checks-clear c) (
    clear_both (eligibility_checks s c) _ (eligibility_checks-clear s c) (
      clear_both (cross_venue_checks c) _ (cross_venue_lem c.cross_venue_checks c refl) (
        clear_both (strategy_checks o c) _ (strategy_checks-clear o c) (
          clear_both (depth_checks o c) _ (depth_lem o.gate_checks o c refl) (
            clear_both (margin_checks s c) _ (margin_checks-clear s c) (
              clear_both (position_checks s c) _ (position_checks-clear s c) (
                clear_both (operations_checks s c) (economics_checks s o)
                  (operations_checks-clear s c) (economics_checks-clear s o))))))))

-- A batch may open exactly when: both venues are connected and the market mapping is verified;
-- the country was looked up and is supported; the market data are synchronized, by flags or by
-- the given checks; it is a BUY of a long opportunity in a verified contract; the hedge has its
-- depth; the margin preview is there and margin, liquidity and cushion are known and reach their
-- bounds; the position is not short and stays in its limit, no batch too many is active, no hedge
-- is unresolved and the venues are reconciled; there is no alert, hold, pause or kill switch and
-- the cutoff has not come; and profit and return are known and reach their bounds in a mode that
-- is not read-only.
pub qualify-tradeable :
    (s : Settings) (o : Opportunity) (c : GateContext)
    → ((qualify s o c).tradeable ≡ true) ↔ IsTradeable s o c
unfolding qualify
qualify-tradeable s o c =
    let rules = all_checks-clear s o c in
    let clear = failed_none (all_checks s o c) in
    (
      λ h.
          let (
            venues,
            (
              eligible,
              (synchronized, (long_entry, (depth, (funded, (orderly, (is_open, worthwhile)))))),
            ),
          ) =
            rules.0 (sym clear ∙ h) in
          record {
            venues = venues;
            eligible = eligible;
            synchronized = synchronized;
            long_entry = long_entry;
            depth = depth;
            funded = funded;
            orderly = orderly;
            is_open = is_open;
            worthwhile = worthwhile;
          },
      λ h.
          clear
          ∙ rules.1 (
            h.venues,
            (
              h.eligible,
              (
                h.synchronized,
                (h.long_entry, (h.depth, (h.funded, (h.orderly, (h.is_open, h.worthwhile))))),
              ),
            ),
          ),
    )
