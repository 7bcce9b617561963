-- ===== src/Store/Held.antt =====
-- What the alerts of a store always satisfy.
use poly_zq_trading.Prelude.{
  ℕ, zero, suc, ◌≤◌, ◌≡◌, refl, sym, subst, ap, ◌∙◌, List, [], ◌∷◌, Bool, false, ◌&&◌, ◌||◌, not,
  All, length, filter, map, arith, Bool-cases, inl, inr,
}
use poly_zq_trading.Store.Alerts.{
  AlertView, AlertSeverity, same_code, take, new_alert, add_alert, resolve, resolve_alerts,
  acknowledge_matching, acknowledge_alert, AlertCall, added, resolved_under, acknowledged_one,
  run_alerts,
}

-- No two alerts have the same code.
abbrev pub AreApart : List AlertView → Type 0
AreApart [] = Unit
AreApart (a ∷ rest) = All (λ b. same_code b.code a.code ≡ false) rest × AreApart rest

-- An alert that is resolved or acknowledged does not flash.
abbrev pub IsQuiet : AlertView → Type 0
IsQuiet a = ((a.resolved || a.acknowledged) && a.flashing) ≡ false

abbrev pub AreHeld : List AlertView → Type 0
AreHeld alerts = (length alerts ≤ 100) × AreApart alerts × All IsQuiet alerts

length-take : (n : ℕ) (xs : List AlertView) → length (take n xs) ≤ n
unfolding take
length-take n [] = omega arith
length-take zero (a ∷ rest) = omega arith
length-take (suc n) (a ∷ rest) = let ih = length-take n rest in omega arith

take-All : (P : AlertView → Type 0) (n : ℕ) (xs : List AlertView) → All P xs → All P (take n xs)
unfolding take
take-All P n [] hs = tt
take-All P zero (a ∷ rest) hs = tt
take-All P (suc n) (a ∷ rest) (h, hs) = (h, take-All P n rest hs)

take-AreApart : (n : ℕ) (xs : List AlertView) → AreApart xs → AreApart (take n xs)
unfolding take
take-AreApart n [] hs = tt
take-AreApart zero (a ∷ rest) hs = tt
take-AreApart (suc n) (a ∷ rest) (h, hs) = (take-All _ n rest h, take-AreApart n rest hs)

filter-All :
    (P : AlertView → Type 0) (p : AlertView → Bool) (xs : List AlertView)
    → All P xs
    → All P (filter p xs)
filter-All P p [] hs = tt
filter-All P p (a ∷ rest) (h, hs) = elim (Bool-cases (p a)) [
  | inl kept ↦ rw kept (h, filter-All P p rest hs)
  | inr dropped ↦ rw dropped (filter-All P p rest hs)
]

filter-AreApart :
    (p : AlertView → Bool) (xs : List AlertView) → AreApart xs → AreApart (filter p xs)
filter-AreApart p [] hs = tt
filter-AreApart p (a ∷ rest) (h, hs) = elim (Bool-cases (p a)) [
  | inl kept ↦ rw kept (filter-All _ p rest h, filter-AreApart p rest hs)
  | inr dropped ↦ rw dropped (filter-AreApart p rest hs)
]

-- The code of a new alert is taken off the others.
taken_off :
    (code : List ℕ) (xs : List AlertView)
    → All (λ b. same_code b.code code ≡ false) (filter (λ a. not (same_code a.code code)) xs)
taken_off code [] = tt
taken_off code (a ∷ rest) = elim (Bool-cases (same_code a.code code)) [
  | inl same ↦ rw same (taken_off code rest)
  | inr apart ↦ rw apart (apart, taken_off code rest)
]

-- A change of each alert by itself, which keeps its code and lets none flash that should not.
module _ (f : AlertView → AlertView) (same : (a : AlertView) → (f a).code ≡ a.code)
    (quiet : (a : AlertView) → IsQuiet a → IsQuiet (f a)) where
  map-codes :
      (code : List ℕ) (xs : List AlertView)
      → All (λ b. same_code b.code code ≡ false) xs
      → All (λ b. same_code b.code code ≡ false) (map f xs)
  map-codes code [] hs = tt
  map-codes code (a ∷ rest) (h, hs) =
      (ap (λ c. same_code c code) (same a) ∙ h, map-codes code rest hs)

  map-AreApart : (xs : List AlertView) → AreApart xs → AreApart (map f xs)
  map-AreApart [] hs = tt
  map-AreApart (a ∷ rest) (h, hs) = (
    subst (λ c. All (λ b. same_code b.code c ≡ false) (map f rest)) (sym (same a))
        (map-codes a.code rest h),
    map-AreApart rest hs,
  )

  map-IsQuiet : (xs : List AlertView) → All IsQuiet xs → All IsQuiet (map f xs)
  map-IsQuiet [] hs = tt
  map-IsQuiet (a ∷ rest) (h, hs) = (quiet a h, map-IsQuiet rest hs)

  map-length : (xs : List AlertView) → length (map f xs) ≡ length xs
  map-length [] = refl
  map-length (a ∷ rest) = ap suc (map-length rest)

  map-AreHeld : (xs : List AlertView) → AreHeld xs → AreHeld (map f xs)
  map-AreHeld xs (len, apart, hs) =
      (subst (λ n. n ≤ 100) (sym (map-length xs)) len, map-AreApart xs apart, map-IsQuiet xs hs)

add_alert-AreHeld :
    (now alert_id : ℕ) (severity : AlertSeverity) (code : List ℕ) (message : ℕ) (flashing : Bool)
    (xs : List AlertView)
    → AreHeld xs
    → AreHeld (add_alert now alert_id severity code message flashing xs)
unfolding add_alert
add_alert-AreHeld now alert_id severity code message flashing xs (len, apart, hs) =
    let others = filter (λ a. not (same_code a.code code)) xs in
    let all = new_alert now alert_id severity code message flashing ∷ others in
    (
      length-take 100 all,
      take-AreApart 100 all (taken_off code xs, filter-AreApart _ xs apart),
      take-All IsQuiet 100 all (refl, filter-All IsQuiet _ xs hs),
    )

resolve-code : (now : ℕ) (prefix : List ℕ) (a : AlertView) → (resolve now prefix a).code ≡ a.code
resolve-code now prefix a = ground arith

resolve-IsQuiet :
    (now : ℕ) (prefix : List ℕ) (a : AlertView) → IsQuiet a → IsQuiet (resolve now prefix a)
resolve-IsQuiet now prefix a h = ground arith

acknowledge_matching-code :
    (alert_id : ℕ) (a : AlertView) → (acknowledge_matching alert_id a).code ≡ a.code
acknowledge_matching-code alert_id a = ground arith

acknowledge_matching-IsQuiet :
    (alert_id : ℕ) (a : AlertView) → IsQuiet a → IsQuiet (acknowledge_matching alert_id a)
acknowledge_matching-IsQuiet alert_id a h = ground arith

-- Whatever is added, resolved and acknowledged, a store that starts so holds at most 100 alerts, no
-- two of one code, and none that is resolved or acknowledged flashes.
pub run_alerts-AreHeld :
    (calls : List AlertCall) (alerts : List AlertView)
    → AreHeld alerts
    → AreHeld (run_alerts calls alerts)
unfolding run_alerts resolve_alerts acknowledge_alert
run_alerts-AreHeld [] alerts held = held
run_alerts-AreHeld (added now alert_id severity code message flashing ∷ calls) alerts held =
    run_alerts-AreHeld calls _
      (add_alert-AreHeld now alert_id severity code message flashing alerts held)
run_alerts-AreHeld (resolved_under now prefix ∷ calls) alerts held = run_alerts-AreHeld calls _ (
    map-AreHeld (resolve now prefix) (resolve-code now prefix) (resolve-IsQuiet now prefix) alerts
      held)
run_alerts-AreHeld (acknowledged_one alert_id ∷ calls) alerts held = run_alerts-AreHeld calls _ (
    map-AreHeld (acknowledge_matching alert_id) (acknowledge_matching-code alert_id)
      (acknowledge_matching-IsQuiet alert_id) alerts held)
