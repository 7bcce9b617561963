-- ===== src/Api/Examples.antt =====
-- Two logins in 300 seconds are let in, a third is not; the window passes, or the client logs in.
use poly_zq_trading.Prelude.{◌≡◌, refl, List, [], ◌∷◌, true, false}
use poly_zq_trading.Api.Limiter.{
  new_limiter, drop_old, permit, clear, Event, attempt, logged_in, answers,
}
use poly_zq_trading.Api.Answers.{log_answers, answers-log_answers}

abbrev visits : List Event
visits =
    attempt 1 0
    ∷ attempt 1 10
    ∷ attempt 1 10
    ∷ attempt 2 0
    ∷ attempt 1 285
    ∷ attempt 1 0
    ∷ logged_in 1
    ∷ attempt 1 0
    ∷ []

visits_test :
    answers (new_limiter 2 300) 0 visits ≡ (true ∷ true ∷ false ∷ true ∷ true ∷ false ∷ true ∷ [])
unfolding answers drop_old permit clear
visits_test = refl

answers-log_answers_example : answers (new_limiter 2 300) 0 visits ≡ log_answers 2 300 0 [] visits
answers-log_answers_example = answers-log_answers 2 300 0 visits
