-- ===== src/Batch/Graph.antt =====
-- The transition diagram of a batch.
use poly_zq_trading.Prelude.{◌≡◌, Bool, true, false, refl}
use poly_zq_trading.Domain.Enums.{
  BatchState, idle, qualified, zq_submitted, zq_partial, cancel_pending, poly_hedge_pending,
  partially_hedged, hedged, complete, recovery, halted, halted_manual,
}
use poly_zq_trading.Batch.Machine.{is_allowed}

-- A chain of allowed transitions.
pub data Leads : BatchState → BatchState → Type 0 where
  here : {s : BatchState} → Leads s s
  then : {s t u : BatchState} → is_allowed s t ≡ true → Leads t u → Leads s u

-- No state is a dead end: the table leads from each state back to `idle`.
pub Leads-idle : (s : BatchState) → Leads s idle
unfolding is_allowed
Leads-idle idle = here
Leads-idle qualified = then {t = idle} refl here
Leads-idle zq_submitted = then {t = complete} refl (then {t = idle} refl here)
Leads-idle zq_partial = then {t = recovery} refl (then {t = idle} refl here)
Leads-idle cancel_pending = then {t = recovery} refl (then {t = idle} refl here)
Leads-idle poly_hedge_pending = then {t = recovery} refl (then {t = idle} refl here)
Leads-idle partially_hedged =
    then {t = hedged} refl (then {t = recovery} refl (then {t = idle} refl here))
Leads-idle hedged = then {t = recovery} refl (then {t = idle} refl here)
Leads-idle complete = then {t = idle} refl here
Leads-idle recovery = then {t = idle} refl here
Leads-idle halted = then {t = recovery} refl (then {t = idle} refl here)
Leads-idle halted_manual = then {t = recovery} refl (then {t = idle} refl here)

-- The states that only a submitted or recovered entry can be in.
abbrev pub has_exposure : BatchState → Bool
has_exposure idle = false
has_exposure qualified = false
has_exposure halted = false
has_exposure _ = true
