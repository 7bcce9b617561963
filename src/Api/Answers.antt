-- ===== src/Api/Answers.antt =====
-- The limiter answers as one that keeps a log of every login it let in and counts.
use poly_zq_trading.Prelude.{
  ℕ, ◌+◌, ◌-◌, ◌≤◌, ◌≡◌, refl, ap, ◌∙◌, List, [], ◌∷◌, ◌++◌, Bool, true, false, length, filter, not,
  ltb, leb, ◌==◌, ==_iff, if◌then◌else◌, arith, Bool-cases, inl, inr, ◌&&◌, subst,
}
use poly_zq_trading.Api.Limiter.{
  LoginRateLimiter, new_limiter, drop_old, set_history, permit, clear, Event, attempt, logged_in,
  answers,
}
use poly_zq_trading.Api.Windows.{
  count_within, AreUpTo, count_append, drop_old-count, drop_old-length, drop_old-AreUpTo,
  AreUpTo-later, AreUpTo-append,
}

-- The logins of a key within a window before `now`.
abbrev pub recent : ℕ → ℕ → ℕ → List (ℕ × ℕ) → ℕ
recent window key now log = length (filter (λ g. (g.0 == key) && not (ltb window (now - g.1))) log)

abbrev pub without : ℕ → List (ℕ × ℕ) → List (ℕ × ℕ)
without key log = filter (λ g. not (g.0 == key)) log

-- The answers of a limiter that forgets nothing before a key has logged in.
abbrev pub log_answers : ℕ → ℕ → ℕ → List (ℕ × ℕ) → List Event → List Bool
log_answers most window now log [] = []
log_answers most window now log (attempt key after ∷ es) =
    let ok = ltb (recent window key (now + after) log) most in
    ok ∷ log_answers most window (now + after) (if ok then (key, now + after) ∷ log else log) es
log_answers most window now log (logged_in key ∷ es) =
    log_answers most window now (without key log) es

abbrev Agrees : ℕ → (ℕ → List ℕ) → List (ℕ × ℕ) → ℕ → Type 0
Agrees window history log last =
    (key : ℕ)
    → AreUpTo last (history key)
      × ((later : ℕ)
          → last ≤ later
          → count_within window later (history key) ≡ recent window key later log)

later_Agrees :
    (window : ℕ) (h : ℕ → List ℕ) (log : List (ℕ × ℕ)) (last now : ℕ)
    → last ≤ now
    → Agrees window h log last
    → Agrees window h log now
later_Agrees window h log last now le agrees k =
    (AreUpTo-later last now le (h k) (agrees k).0, λ later l. (agrees k).1 later (omega arith))

set_Agrees :
    (window : ℕ) (h : ℕ → List ℕ) (log log' : List (ℕ × ℕ)) (now key : ℕ) (times : List ℕ)
    → AreUpTo now times
    → ((later : ℕ) → now ≤ later → count_within window later times ≡ recent window key later log')
    → ((k later : ℕ) → (key == k) ≡ false → recent window k later log ≡ recent window k later log')
    → Agrees window h log now
    → Agrees window (set_history key times h) log' now
set_Agrees window h log log' now key times ordered own others agrees k =
    elim (Bool-cases (key == k)) [
      | inl same ↦ rw same (
        ordered,
        λ later le.
            subst (λ j. count_within window later times ≡ recent window j later log')
              ((==_iff key k).0 same) (own later le),
      )
      | inr apart ↦
          rw apart ((agrees k).0, λ later le. (agrees k).1 later le ∙ others k later apart)
    ]

kept_count :
    (window : ℕ) (h : ℕ → List ℕ) (log : List (ℕ × ℕ)) (now key : ℕ)
    → Agrees window h log now
    → (later : ℕ) → now ≤ later
    → count_within window later (drop_old window now (h key)) ≡ recent window key later log
kept_count window h log now key agrees later le =
    drop_old-count window now later le (h key) ∙ (agrees key).1 later le

refused_Agrees :
    (window : ℕ) (h : ℕ → List ℕ) (log : List (ℕ × ℕ)) (now key : ℕ)
    → Agrees window h log now
    → Agrees window (set_history key (drop_old window now (h key)) h) log now
refused_Agrees window h log now key agrees =
    set_Agrees window h log log now key (drop_old window now (h key))
      (drop_old-AreUpTo window now now (h key) (agrees key).0)
      (kept_count window h log now key agrees) (λ k later apart. refl) agrees

recent_own :
    (window now later key : ℕ) (log : List (ℕ × ℕ))
    → count_within window later (now ∷ []) + recent window key later log
      ≡ recent window key later ((key, now) ∷ log)
recent_own window now later key log = ground arith

granted_count :
    (window now later key : ℕ) (log : List (ℕ × ℕ)) (kept : List ℕ)
    → count_within window later kept ≡ recent window key later log
    → count_within window later (kept ++ now ∷ []) ≡ recent window key later ((key, now) ∷ log)
granted_count window now later key log kept h =
    let one_more = count_append window later now kept in
    let logged = recent_own window now later key log in omega arith

recent_other :
    (window now later key k : ℕ) (log : List (ℕ × ℕ))
    → (key == k) ≡ false
    → recent window k later log ≡ recent window k later ((key, now) ∷ log)
recent_other window now later key k log h = rw h refl

granted_Agrees :
    (window : ℕ) (h : ℕ → List ℕ) (log : List (ℕ × ℕ)) (now key : ℕ)
    → Agrees window h log now
    → Agrees window
        (set_history key (drop_old window now (h key) ++ now ∷ []) h)
        ((key, now) ∷ log)
        now
granted_Agrees window h log now key agrees =
    let kept = drop_old window now (h key) in
    set_Agrees window h log ((key, now) ∷ log) now key (kept ++ now ∷ [])
      (AreUpTo-append now kept (drop_old-AreUpTo window now now (h key) (agrees key).0))
      (λ later le.
        granted_count window now later key log kept
          (kept_count window h log now key agrees later le))
      (λ k later apart. recent_other window now later key k log apart) agrees

recent-without-same :
    (window key later : ℕ) (log : List (ℕ × ℕ)) → 0 ≡ recent window key later (without key log)
recent-without-same window key later [] = refl
recent-without-same window key later ((k, t) ∷ log) =
    ground (arith, recent-without-same window key later log)

recent-without-apart :
    (window key k later : ℕ)
    → (key == k) ≡ false
    → (log : List (ℕ × ℕ)) → recent window k later log ≡ recent window k later (without key log)
recent-without-apart window key k later h [] = refl
recent-without-apart window key k later h ((j, t) ∷ log) =
    ground (arith, recent-without-apart window key k later h log)

cleared_Agrees :
    (window : ℕ) (h : ℕ → List ℕ) (log : List (ℕ × ℕ)) (now key : ℕ)
    → Agrees window h log now
    → Agrees window (set_history key [] h) (without key log) now
cleared_Agrees window h log now key agrees =
    set_Agrees window h log (without key log) now key [] tt
      (λ later le. recent-without-same window key later log)
      (λ k later apart. recent-without-apart window key k later apart log) agrees

-- The two answers to one attempt are opposite tests of the same number.
kept_length :
    (window : ℕ) (h : ℕ → List ℕ) (log : List (ℕ × ℕ)) (now key : ℕ)
    → Agrees window h log now
    → length (drop_old window now (h key)) ≡ recent window key now log
kept_length window h log now key agrees =
    drop_old-length window now now (h key) (agrees key).0 ∙ (agrees key).1 now (omega arith)

abbrev limiter : ℕ → ℕ → (ℕ → List ℕ) → LoginRateLimiter
limiter most window h = record { attempts = most; window_seconds = window; history = h }

from_Agrees :
    (most window : ℕ) (es : List Event) (h : ℕ → List ℕ) (now : ℕ) (log : List (ℕ × ℕ))
    → Agrees window h log now
    → answers (limiter most window h) now es ≡ log_answers most window now log es
unfolding answers permit clear
from_Agrees most window [] h now log agrees = refl
from_Agrees most window (attempt key after ∷ es) h now log agrees =
    let t = now + after in
    let here = later_Agrees window h log now t (omega arith) agrees in
    let same = kept_length window h log t key here in
    elim (Bool-cases (leb most (recent window key t log))) [
      | inl full ↦
          let no : ltb (recent window key t log) most ≡ false = ground arith in
          rw (same, full, no)
            (ap (λ bs. false ∷ bs)
              (from_Agrees most window es _ t log (refused_Agrees window h log t key here)))
      | inr free ↦
          let yes : ltb (recent window key t log) most ≡ true = ground arith in
          rw (same, free, yes)
            (ap (λ bs. true ∷ bs)
              (from_Agrees most window es _ t ((key, t) ∷ log)
                (granted_Agrees window h log t key here)))
    ]
from_Agrees most window (logged_in key ∷ es) h now log agrees =
    from_Agrees most window es _ now (without key log) (cleared_Agrees window h log now key agrees)

-- In any run of a new limiter, an attempt is let in just when fewer attempts of its client than
-- `attempts` were let in within the window before it, counted since that client last logged in.
pub answers-log_answers :
    (most window start : ℕ) (es : List Event)
    → answers (new_limiter most window) start es ≡ log_answers most window start [] es
answers-log_answers most window start es =
    from_Agrees most window es (λ key. []) start [] (λ key. (tt, λ later le. refl))
