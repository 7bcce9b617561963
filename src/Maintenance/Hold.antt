-- ===== src/Maintenance/Hold.antt =====
-- `MaintenanceWindow` and `MaintenanceHold`.
use poly_zq_trading.Prelude.{
  ℕ, ◌+◌, ◌-◌, Option, none, some, Bool, true, false, ◌&&◌, ◌||◌, not, ltb, leb, ◌==◌,
  if◌then◌else◌,
}

-- `zoneinfo` and `datetime` for the settings' times of day.
pub record Zone : Type 0 where
  pub close_of : ℕ → ℕ
  pub restart_of : ℕ → ℕ
  pub reopen_of : ℕ → ℕ
  pub weekday : ℕ → ℕ
  pub is_after_start : ℕ → Bool
  pub is_before_end : ℕ → Bool

pub record Settings : Type 0 where
  pub ibkr_maintenance_enabled : Bool
  pub ibkr_maintenance_drain_seconds : ℕ
  pub ibkr_maintenance_recovery_seconds : ℕ

pub record MaintenanceWindow : Type 0 where
  pub drain_at : ℕ
  pub close_at : ℕ
  pub restart_at : ℕ
  pub reopen_at : ℕ
  pub deadline : ℕ

pub record MaintenanceHold : Type 0 where
  pub window : Option MaintenanceWindow
  pub finished_window : Option ℕ
  pub drained : Bool
  pub failed : Bool
  pub interruption_at : Option ℕ
  pub recovered : Bool

abbrev pub is_held : Option MaintenanceWindow → Bool
is_held none = false
is_held (some _) = true

abbrev pub is_at : Option ℕ → ℕ → Bool
is_at none n = false
is_at (some m) n = m == n

abbrev pub new_hold : MaintenanceHold
new_hold = record {
  window = none;
  finished_window = none;
  drained = false;
  failed = false;
  interruption_at = none;
  recovered = false;
}

module _ (z : Zone) (s : Settings) where
  unfoldable pub scheduled_window : ℕ → MaintenanceWindow
  scheduled_window now = record {
    drain_at = z.close_of now - s.ibkr_maintenance_drain_seconds;
    close_at = z.close_of now;
    restart_at = z.restart_of now;
    reopen_at = z.reopen_of now;
    deadline = z.reopen_of now + s.ibkr_maintenance_recovery_seconds;
  }

  -- From Friday's start to Sunday's end.
  unfoldable pub weekend_closed : ℕ → Bool
  weekend_closed now =
      ((z.weekday now == 4) && z.is_after_start now)
      || (z.weekday now == 5)
      || ((z.weekday now == 6) && z.is_before_end now)

  abbrev pub is_within : MaintenanceWindow → ℕ → Bool
  is_within w now = leb w.drain_at now && ltb now w.reopen_at

  unfoldable pub blocks_entry : ℕ → MaintenanceHold → Bool
  blocks_entry now h =
      if not s.ibkr_maintenance_enabled
      then false
      else is_held h.window || is_within (scheduled_window now) now || weekend_closed now

  unfoldable pub enter : ℕ → MaintenanceHold → Bool × MaintenanceHold
  enter now h =
      let window = scheduled_window now in
      if not s.ibkr_maintenance_enabled
        || is_held h.window
        || is_at h.finished_window window.close_at
        || not (is_within window now)
      then (false, h)
      else (
        true,
        record h {
          window = some window;
          drained = false;
          failed = false;
          interruption_at = none;
          recovered = false;
        },
      )

abbrev pub is_seen : Option ℕ → Bool
is_seen none = false
is_seen (some _) = true

-- A retry does not move an earlier interruption.
unfoldable pub observe_interruption : ℕ → MaintenanceHold → MaintenanceHold
observe_interruption now h =
    if is_held h.window
      && h.drained
      && not h.failed
      && not h.recovered
      && not (is_seen h.interruption_at)
    then record h { interruption_at = some now }
    else h

-- The interruption came with the restart: from a minute before it to two minutes after.
abbrev pub is_restart : Option MaintenanceWindow → Option ℕ → ℕ → Bool
is_restart (some w) (some at) now =
    leb w.restart_at (at + 60) && leb at (w.restart_at + 120) && ltb now w.deadline
is_restart _ _ now = false

unfoldable pub recovering : ℕ → MaintenanceHold → Bool
recovering now h =
    h.drained && not h.failed && is_restart h.window h.interruption_at now && not h.recovered

unfoldable pub finish : MaintenanceHold → MaintenanceHold
finish h = record h {
  window = none;
  finished_window = elim h.window [ none ↦ h.finished_window | some w ↦ some w.close_at ];
}
