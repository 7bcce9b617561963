-- ===== src/Api/Limiter.antt =====
-- `LoginRateLimiter` of `src/zq_arb/api/security.py`. Times are ticks of `time.monotonic`, keys
-- are ids of clients.
use poly_zq_trading.Prelude.{
  ℕ, ◌+◌, ◌-◌, List, [], ◌∷◌, ◌++◌, Bool, true, false, length, ltb, leb, ◌==◌, if◌then◌else◌,
}

pub record LoginRateLimiter : Type 0 where
  pub attempts : ℕ
  pub window_seconds : ℕ
  -- The times that a key was let in at, the oldest first; none for an absent key.
  pub history : ℕ → List ℕ

abbrev pub new_limiter : ℕ → ℕ → LoginRateLimiter
new_limiter attempts window_seconds = record {
  attempts = attempts;
  window_seconds = window_seconds;
  history = λ _. [];
}

-- The loop that drops what has left the window from the front.
unfoldable pub drop_old : ℕ → ℕ → List ℕ → List ℕ
drop_old window now [] = []
drop_old window now (t ∷ ts) = if ltb window (now - t) then drop_old window now ts else t ∷ ts

abbrev pub set_history : ℕ → List ℕ → (ℕ → List ℕ) → ℕ → List ℕ
set_history key times history k = if key == k then times else history k

abbrev pub grant : LoginRateLimiter → ℕ → ℕ → List ℕ → LoginRateLimiter × Bool
grant s key now kept =
    if leb s.attempts (length kept)
    then (record s { history = set_history key kept s.history }, false)
    else (record s { history = set_history key (kept ++ now ∷ []) s.history }, true)

unfoldable pub permit : LoginRateLimiter → ℕ → ℕ → LoginRateLimiter × Bool
permit s key now = grant s key now (drop_old s.window_seconds now (s.history key))

unfoldable pub clear : LoginRateLimiter → ℕ → LoginRateLimiter
clear s key = record s { history = set_history key [] s.history }

-- What clients do: one asks to log in, some time after the last event, or one has logged in.
pub data Event : Type 0 where
  attempt : ℕ → ℕ → Event
  logged_in : ℕ → Event

-- The answers to the attempts of a run.
unfoldable pub answers : LoginRateLimiter → ℕ → List Event → List Bool
answers s now [] = []
answers s now (attempt key after ∷ es) =
    let r = permit s key (now + after) in r.1 ∷ answers r.0 (now + after) es
answers s now (logged_in key ∷ es) = answers (clear s key) now es
