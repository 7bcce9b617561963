-- ===== src/Ledger/Refresh/Completion.antt =====
-- When a refreshed batch counts as complete.
use poly_zq_trading.Prelude.{
  ℕ, ◌≤◌, List, [], ◌∷◌, Option, none, some, Bool, true, false, ◌&&◌, ◌||◌, Bool-cases, all, ◌==◌,
  leb, ◌≡◌, ◌≢◌, ◌↔◌, ◌⊎◌, refl, All, arith, inl, inr,
}
use poly_zq_trading.Domain.Enums.{BatchState}
use poly_zq_trading.Ledger.Types.{Order, Obligation, Batch}
use poly_zq_trading.Ledger.Queries.{order_resolved}
use poly_zq_trading.Ledger.Refresh.{
  is_hedged, is_terminal_zq, is_caught_up, has_no_fill, refresh_batch,
}

-- There are obligations, each met, with nothing in excess or unsettled.
abbrev pub AllMet : List Obligation → Type 0
AllMet obs =
    (obs ≢ [])
    × All
        (λ ob.
          (ob.due_shares ≤ ob.confirmed_shares) × (ob.excess_shares ≡ 0) × (ob.pending_shares ≡ 0))
        obs

-- The reported fills have all been booked, and there are none or their hedges are met.
abbrev pub IsBooked : Option ℕ → ℕ → List Obligation → Type 0
IsBooked none filled obs = ⊥
IsBooked (some reported) filled obs =
    (reported ≤ filled) × (((reported ≡ 0) × (filled ≡ 0)) ⊎ AllMet obs)

pub record IsFinished (obs : List Obligation) (orders : List Order) (b : Batch) : Type 0 where
  pub over : is_terminal_zq b.zq_order_status ≡ true
  pub booked : IsBooked b.reported_filled_quantity b.filled_quantity obs
  pub settled : All (λ o. order_resolved o ≡ true) orders

met_lem :
    (obs : List Obligation)
    → (all
          (λ ob.
            leb ob.due_shares ob.confirmed_shares
            && (ob.excess_shares == 0)
            && (ob.pending_shares == 0))
          obs
        ≡ true)
      ↔ All
          (λ ob.
            (ob.due_shares ≤ ob.confirmed_shares)
            × (ob.excess_shares ≡ 0)
            × (ob.pending_shares ≡ 0))
          obs
met_lem [] = ground arith
met_lem (ob ∷ obs) = let rest = met_lem obs in ground (arith, rest)

is_hedged-AllMet : (obs : List Obligation) → (is_hedged obs ≡ true) ↔ AllMet obs
unfolding is_hedged
is_hedged-AllMet [] = ground arith
is_hedged-AllMet (ob ∷ obs) =
    let met = met_lem (ob ∷ obs) in (λ h. (λ e. ground arith, met.0 h), λ h. met.1 h.1)

resolved_lem :
    (os : List Order) → (all order_resolved os ≡ true) ↔ All (λ o. order_resolved o ≡ true) os
resolved_lem [] = ground arith
resolved_lem (o ∷ os) = let rest = resolved_lem os in ground (arith, rest)

booked_lem :
    (reported : Option ℕ) (filled : ℕ) (obs : List Obligation)
    → (is_caught_up reported filled && (has_no_fill reported filled || is_hedged obs) ≡ true)
      ↔ IsBooked reported filled obs
booked_lem none filled obs = ground arith
booked_lem (some reported) filled obs = let met = is_hedged-AllMet obs in ground (arith, met)

unfoldable is_complete : List Obligation → List Order → Batch → Bool
is_complete obs orders b =
    is_terminal_zq b.zq_order_status
    && is_caught_up b.reported_filled_quantity b.filled_quantity
    && (has_no_fill b.reported_filled_quantity b.filled_quantity || is_hedged obs)
    && all order_resolved orders

not_complete :
    (obs : List Obligation) (orders : List Order) (b : Batch)
    → is_complete obs orders b ≡ false
    → (refresh_batch obs orders b).state ≡ BatchState.complete
    → b.state ≡ BatchState.complete
unfolding refresh_batch is_complete
not_complete [] orders b going h = ground arith
not_complete (ob ∷ obs) orders b going h = ground arith

-- A batch that was not complete becomes complete exactly when its ZQ order is over, the fills that
-- were reported of it are all booked, and they are none or every obligation is met with nothing
-- in excess or pending, and every Polymarket order of the batch is resolved.
pub refresh_batch-complete :
    (obs : List Obligation) (orders : List Order) (b : Batch)
    → b.state ≢ BatchState.complete
    → ((refresh_batch obs orders b).state ≡ BatchState.complete) ↔ IsFinished obs orders b
unfolding refresh_batch is_complete
refresh_batch-complete obs orders b fresh =
    let booked = booked_lem b.reported_filled_quantity b.filled_quantity obs in
    let settled = resolved_lem orders in
    let parts : (is_complete obs orders b ≡ true) ↔ IsFinished obs orders b = (
      λ h. record {
        over = ground arith;
        booked = booked.0 (ground arith);
        settled = settled.0 (ground arith);
      },
      λ h. ground (arith, h.over, booked.1 h.booked, settled.1 h.settled),
    ) in
    elim (Bool-cases (is_complete obs orders b)) [
      | inl over ↦ (λ _. parts.0 over, λ _. rw (refresh_batch, over) refl)
      | inr going ↦ (
        λ h. absurd (fresh (not_complete obs orders b going h)),
        λ h. absurd (ground (arith, parts.1 h)),
      )
    ]
