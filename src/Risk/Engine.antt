-- ===== src/Risk/Engine.antt =====
-- `RiskEngine.qualify`.
use native.Mathlib.Decide.{ℕ_discrete}
use poly_zq_trading.Prelude.{List, [], ◌∷◌, ◌++◌, Bool, true, false, ◌&&◌, not, filter, map}
use poly_zq_trading.Domain.Enums.{GateStatus, passed}
use poly_zq_trading.Risk.Types.{
  Detail, GateCheck, GateContext, Settings, Opportunity, Qualification,
}
use poly_zq_trading.Risk.Checks.{
  venue_checks, eligibility_checks, cross_venue_checks, strategy_checks, depth_checks,
  margin_checks, position_checks, operations_checks, economics_checks,
}

abbrev pub is_passed : GateStatus → Bool
is_passed passed = true
is_passed _ = false

-- A check that keeps a batch from opening.
abbrev pub is_failed : GateCheck → Bool
is_failed check = check.blocking && not (is_passed check.status)

unfoldable pub all_checks : Settings → Opportunity → GateContext → List GateCheck
all_checks s o c =
    venue_checks c
    ++ (eligibility_checks s c
        ++ (cross_venue_checks c
            ++ (strategy_checks o c
                ++ (depth_checks o c
                    ++ (margin_checks s c
                        ++ (position_checks s c
                            ++ (operations_checks s c ++ economics_checks s o)))))))

pub Detail-discrete : Discrete Detail
Detail-discrete = hlevel (ℕ_discrete)

abbrev pub same_detail : Detail → Detail → Bool
same_detail a b = elim (Detail-discrete a b) [ Dec.yes _ ↦ true | Dec.no _ ↦ false ]

-- `dict.fromkeys`: the first of each, in order.
unfoldable pub distinct : List Detail → List Detail
distinct [] = []
distinct (d ∷ ds) = d ∷ filter (λ e. not (same_detail d e)) (distinct ds)

abbrev pub is_empty : List GateCheck → Bool
is_empty [] = true
is_empty (_ ∷ _) = false

unfoldable pub qualify : Settings → Opportunity → GateContext → Qualification
qualify s o c =
    let checks = all_checks s o c in
    let failed = filter is_failed checks in
    record {
      tradeable = is_empty failed;
      reasons = distinct (map (λ check. check.detail) failed);
      checks = checks;
    }
