-- ===== src/Batch/Executions.antt =====
-- `record_zq_execution` branch by branch.
use poly_zq_trading.Prelude.{
  ℕ, ◌+◌, ◌*◌, ◌≤◌, ◌≡◌, refl, sym, ap, subst, ◌∙◌, List, [], ◌∷◌, true, false, All, contains, ltb,
  if◌then◌else◌, arith, Bool-cases, inl, inr,
}
use native.Mathlib.Nat.{add-sub_cancel, add-zero, zero-add}
use poly_zq_trading.Prelude.Int.{ℤ, pos, pos_part, leb_ℤ}
use poly_zq_trading.Domain.Enums.{zq_submitted, zq_partial}
use poly_zq_trading.Analytics.Units.{one_share}
use poly_zq_trading.Analytics.Sizing.{round_shares_up, incremental_hedge_shares}
use poly_zq_trading.Analytics.Sizing.Laws.{incremental_hedge_shares_lem}
use poly_zq_trading.Batch.Types.{
  TokenCode, inc25, inc50plus, HedgeObligation, execution, Machine, Result, ok, err, Error,
  same_state,
}
use poly_zq_trading.Batch.Machine.{
  is_allowed, ratio_of, new_obligation, add_obligations, book_fill, transition, record_zq_execution,
}
use poly_zq_trading.Batch.Hedges.{
  IsValid, due_total, due_on, known_weaken, add_obligations_due, add_obligations-known,
}

-- The machine once the fill is booked: a submitted order becomes a partial one.
abbrev pub booked : ℕ → ℕ → Machine → Machine
booked exec_id delta m =
    if same_state m.state zq_submitted
    then record m {
      seen_exec_ids = exec_id ∷ m.seen_exec_ids;
      filled_quantity = m.filled_quantity + delta;
      state = zq_partial;
      transition_history =
          (record { previous = m.state; next = zq_partial; reason = execution exec_id })
          ∷ m.transition_history;
    }
    else record m {
      seen_exec_ids = exec_id ∷ m.seen_exec_ids;
      filled_quantity = m.filled_quantity + delta;
    }

-- Booking never raises.
pub book_fill_lem :
    (exec_id delta : ℕ) (m : Machine) → book_fill exec_id delta m ≡ (ok tt, booked exec_id delta m)
unfolding book_fill transition is_allowed
book_fill_lem exec_id delta m = ground arith

booked_fields :
    (exec_id delta : ℕ) (m : Machine)
    → let b = booked exec_id delta m in
      (b.obligations ≡ m.obligations)
      × (b.seen_exec_ids ≡ exec_id ∷ m.seen_exec_ids)
      × (b.filled_quantity ≡ m.filled_quantity + delta)
      × (b.original_quantity ≡ m.original_quantity)
      × (b.calendar ≡ m.calendar)
      × (b.pre_meeting_effr ≡ m.pre_meeting_effr)
booked_fields exec_id delta m = ground arith

-- The four ways in which a call can end.
pub data Outcome (exec_id : ℕ) (delta : ℤ) (m : Machine)
    : Result (List HedgeObligation) × Machine → Type 0 where
  refused : (e : Error) → Outcome exec_id delta m (err e, m)
  repeated : contains exec_id m.seen_exec_ids ≡ true → Outcome exec_id delta m (ok [], m)
  filled :
      contains exec_id m.seen_exec_ids ≡ false
      → m.filled_quantity + pos_part delta ≤ m.original_quantity * one_share
      → Outcome exec_id delta m (
          let (created, m') =
            add_obligations exec_id (pos_part delta) (booked exec_id (pos_part delta) m) in
          (ok created, m'))

pub record_zq_execution-Outcome :
    (exec_id : ℕ) (delta : ℤ) (m : Machine)
    → Outcome exec_id delta m (record_zq_execution exec_id delta m)
unfolding record_zq_execution
record_zq_execution-Outcome exec_id delta m = elim (Bool-cases (leb_ℤ delta (pos 0))) [
  | inl low ↦ rw low (refused _)
  | inr high ↦ rw high (elim (Bool-cases (contains exec_id m.seen_exec_ids)) [
    | inl old ↦ rw old (repeated old)
    | inr new ↦
        rw new
          (elim (Bool-cases
            (ltb (m.original_quantity * one_share) (m.filled_quantity + pos_part delta))) [
              | inl over ↦ rw over (refused _)
              | inr fits ↦ rw fits (rw book_fill_lem (filled new (ground arith)))
            ])
  ])
]

-- The obligations of a fill, added to a machine that has booked it.
module _ (exec_id delta before : ℕ) (b : Machine) (seen : List ℕ) where
  leg_due :
      (token : TokenCode)
      → b.filled_quantity ≡ before + delta
      → due_on token (new_obligation exec_id delta inc25 b)
          + due_on token (new_obligation exec_id delta inc50plus b)
        ≡ incremental_hedge_shares (ratio_of token b) before delta
  unfolding new_obligation
  leg_due inc25 h = rw (h, add-sub_cancel, add-zero)
  leg_due inc50plus h = rw (h, add-sub_cancel, zero-add)

  module _ (grown : b.filled_quantity ≡ before + delta) (new : contains exec_id seen ≡ false)
      (known : All (λ o. contains o.exec_id seen ≡ true) b.obligations) where
    total_due :
        (token : TokenCode)
        → due_total token b.obligations ≡ round_shares_up (ratio_of token b * before)
        → due_total token (add_obligations exec_id delta b).1.obligations
          ≡ round_shares_up (ratio_of token b * b.filled_quantity)
    total_due token due =
        let sum : due_total token (add_obligations exec_id delta b).1.obligations
            ≡ round_shares_up (ratio_of token b * (before + delta)) =
          omega (
            arith,
            add_obligations_due exec_id delta b seen new known token,
            leg_due token grown,
            incremental_hedge_shares_lem (ratio_of token b) before delta,
            due,
          ) in
        sum ∙ ap (λ t. round_shares_up (ratio_of token b * t)) (sym grown)

    add_obligations-IsValid :
        b.filled_quantity ≤ b.original_quantity * one_share
        → b.seen_exec_ids ≡ exec_id ∷ seen
        → ((token : TokenCode)
            → due_total token b.obligations ≡ round_shares_up (ratio_of token b * before))
        → IsValid (add_obligations exec_id delta b).1
    add_obligations-IsValid fits noted due = record {
      within = unfold add_obligations in fits;
      due = λ token. unfold add_obligations in total_due token (due token);
      known =
          unfold add_obligations in
          subst
            (λ s.
              All (λ p. contains p.exec_id s ≡ true)
                (add_obligations exec_id delta b).1.obligations)
            (sym noted)
            (add_obligations-known exec_id delta b seen (known_weaken exec_id seen _ known));
    }

-- A call keeps a machine valid: after any execution, refused, repeated or booked, each leg is due
-- the hedge of exactly the filled quantity, rounded once.
pub record_zq_execution-IsValid :
    (exec_id : ℕ) (delta : ℤ) (m : Machine)
    → IsValid m
    → IsValid (record_zq_execution exec_id delta m).1
record_zq_execution-IsValid exec_id delta m valid =
    keep (record_zq_execution exec_id delta m) (record_zq_execution-Outcome exec_id delta m)
  where
    keep : (r : Result (List HedgeObligation) × Machine) → Outcome exec_id delta m r → IsValid r.1
    keep r (refused e) = valid
    keep r (repeated old) = valid
    keep r (filled new fits) = elim (Bool-cases (same_state m.state zq_submitted)) [
      | inl submitted ↦ rw submitted (
          add_obligations-IsValid exec_id (pos_part delta) m.filled_quantity _ m.seen_exec_ids refl
            new valid.known fits refl valid.due)
      | inr other ↦ rw other (
          add_obligations-IsValid exec_id (pos_part delta) m.filled_quantity _ m.seen_exec_ids refl
            new valid.known fits refl valid.due)
    ]
