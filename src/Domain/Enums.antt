-- ===== src/Domain/Enums.antt =====
-- The enumerations of `src/zq_arb/domain/enums.py` that the modelled components branch on.
use mathlib.Core.Bool.{Bool, true, false}

pub data RunMode : Type 0 where
  read_only paper shadow limited_live live_armed : RunMode

pub data BatchState : Type 0 where
  idle qualified zq_submitted zq_partial cancel_pending poly_hedge_pending partially_hedged hedged
        complete recovery halted halted_manual :
      BatchState

pub data Side : Type 0 where
  buy sell : Side

pub data GateStatus : Type 0 where
  passed failed unavailable not_applicable : GateStatus

pub data ConnectionStatus : Type 0 where
  disconnected connecting connected degraded failed : ConnectionStatus

abbrev pub is_live : RunMode → Bool
is_live RunMode.limited_live = true
is_live RunMode.live_armed = true
is_live _ = false

pub BatchState-discrete : Discrete BatchState
BatchState-discrete = hlevel
