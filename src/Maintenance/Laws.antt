-- ===== src/Maintenance/Laws.antt =====
-- A hold over its life, with what may happen to it.
use poly_zq_trading.Prelude.{
  none, ℕ, List, [], ◌∷◌, some, Bool, true, false, ◌≡◌, ◌∙◌, refl, sym, ==_iff, arith,
}
use poly_zq_trading.Maintenance.Hold.{
  Zone, Settings, MaintenanceWindow, MaintenanceHold, scheduled_window, blocks_entry, enter,
  observe_interruption, finish,
}

-- What happens to a hold between its start and its end.
pub data Event : Type 0 where
  drain : Bool → Event
  fail recover forget : Event
  interrupt : ℕ → Event

-- The coordinator sets the flags, and drops an earlier interruption; the hold itself observes one.
unfoldable pub happen : Event → MaintenanceHold → MaintenanceHold
happen (Event.drain drained) h = record h { drained = drained }
happen Event.fail h = record h { failed = true }
happen Event.recover h = record h { recovered = true }
happen Event.forget h = record h { interruption_at = none }
happen (Event.interrupt now) h = observe_interruption now h

unfoldable pub all_happen : List Event → MaintenanceHold → MaintenanceHold
all_happen [] h = h
all_happen (e ∷ es) h = all_happen es (happen e h)

happen-window : (e : Event) (h : MaintenanceHold) → (happen e h).window ≡ h.window
unfolding happen observe_interruption
happen-window (Event.drain b) h = refl
happen-window Event.fail h = refl
happen-window Event.recover h = refl
happen-window Event.forget h = refl
happen-window (Event.interrupt now) h = ground arith

all_happen-window : (es : List Event) (h : MaintenanceHold) → (all_happen es h).window ≡ h.window
unfolding all_happen
all_happen-window [] h = refl
all_happen-window (e ∷ es) h = all_happen-window es (happen e h) ∙ happen-window e h

entered_window :
    (z : Zone) (s : Settings) (now : ℕ) (h h' : MaintenanceHold)
    → enter z s now h ≡ (true, h')
    → (s.ibkr_maintenance_enabled ≡ true) × (h'.window ≡ some (scheduled_window z s now))
unfolding enter
entered_window z s now h h' entered = ground arith

held_lem :
    (z : Zone) (s : Settings) (later : ℕ) (w : MaintenanceWindow) (g : MaintenanceHold)
    → s.ibkr_maintenance_enabled ≡ true
    → g.window ≡ some w
    → (blocks_entry z s later g ≡ true) × ((enter z s later g).0 ≡ false)
unfolding enter blocks_entry
held_lem z s later w g enabled held = ground arith

finished_lem :
    (z : Zone) (s : Settings) (now later : ℕ) (g : MaintenanceHold)
    → g.window ≡ some (scheduled_window z s now)
    → z.close_of later ≡ z.close_of now
    → (enter z s later (finish g)).0 ≡ false
unfolding enter finish scheduled_window
finished_lem z s now later g held same =
    rw held (ground (arith, (==_iff (z.close_of now) (z.close_of later)).1 (sym same)))

-- A hold that was entered blocks every entry through all that happens to it, at any time, and is
-- not entered again at any time while it lasts; once it is finished it is not entered again at a
-- moment with the same closing time.
pub enter-once :
    (z : Zone) (s : Settings) (now later again : ℕ) (h h' : MaintenanceHold) (es : List Event)
    → enter z s now h ≡ (true, h')
    → z.close_of again ≡ z.close_of now
    → (blocks_entry z s later (all_happen es h') ≡ true)
      × ((enter z s later (all_happen es h')).0 ≡ false)
      × ((enter z s again (finish (all_happen es h'))).0 ≡ false)
enter-once z s now later again h h' es entered same =
    let (enabled, opened) = entered_window z s now h h' entered in
    let held = all_happen-window es h' ∙ opened in
    let (blocked, closed) =
      held_lem z s later (scheduled_window z s now) (all_happen es h') enabled held in
    (blocked, closed, finished_lem z s now again (all_happen es h') held same)
