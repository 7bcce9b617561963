-- ===== src/Maintenance/Examples.antt =====
-- A night at 1000: draining from 900, restart at 1060, open again at 1200, given up at 1500.
use poly_zq_trading.Prelude.{ltb, if◌then◌else◌, ◌≡◌, refl, [], ◌∷◌, some, true, false}
use poly_zq_trading.Maintenance.Hold.{
  Zone, Settings, MaintenanceWindow, MaintenanceHold, new_hold, scheduled_window, blocks_entry,
  enter, finish,
}
use poly_zq_trading.Maintenance.Laws.{drain, interrupt, all_happen, enter-once}

abbrev zone : Zone
zone = record {
  close_of = λ now. if ltb now 2000 then 1000 else 3000;
  restart_of = λ now. 1060;
  reopen_of = λ now. 1200;
  weekday = λ now. 2;
  is_after_start = λ now. false;
  is_before_end = λ now. false;
}

abbrev settings : Settings
settings = record {
  ibkr_maintenance_enabled = true;
  ibkr_maintenance_drain_seconds = 100;
  ibkr_maintenance_recovery_seconds = 300;
}

abbrev night : MaintenanceWindow
night = record {
  drain_at = 900;
  close_at = 1000;
  restart_at = 1060;
  reopen_at = 1200;
  deadline = 1500;
}

abbrev held : MaintenanceHold
held = record new_hold { window = some night }

-- It outlasts its day, and its closing time.
enter-once_example :
    (blocks_entry zone settings 2500 (all_happen (drain true ∷ interrupt 1070 ∷ []) held) ≡ true)
    × ((enter zone settings 2500 (all_happen (drain true ∷ interrupt 1070 ∷ []) held)).0 ≡ false)
    × ((enter zone settings 1190 (finish (all_happen (drain true ∷ interrupt 1070 ∷ []) held))).0
        ≡ false)
unfolding enter scheduled_window
enter-once_example =
    enter-once zone settings 950 2500 1190 new_hold held (drain true ∷ interrupt 1070 ∷ []) refl
      refl
