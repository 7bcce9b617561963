-- ===== src/Batch/Hedges.antt =====
-- The sums of the obligations of a batch, and what a valid machine is.
use poly_zq_trading.Prelude.{
  ℕ, ◌+◌, ◌*◌, ◌≤◌, ◌≡◌, refl, List, [], ◌∷◌, true, false, ◌&&◌, All, contains, contains_apart,
  sum_of, ◌==◌, if◌then◌else◌, arith, Bool-cases, inl, inr,
}
use poly_zq_trading.Analytics.Units.{one_share}
use poly_zq_trading.Analytics.Sizing.{round_shares_up}
use poly_zq_trading.Batch.Types.{TokenCode, inc25, inc50plus, HedgeObligation, Machine, same_token}
use poly_zq_trading.Batch.Machine.{ratio_of, put_obligation, new_obligation, add_obligations}

-- The shares due on one leg.
abbrev pub due_on : TokenCode → HedgeObligation → ℕ
due_on token o = if same_token token o.token_code then o.due_shares else 0

abbrev pub due_total : TokenCode → List HedgeObligation → ℕ
due_total token = sum_of (due_on token)

-- No obligation of the list has the key of `o`.
abbrev Absent : HedgeObligation → List HedgeObligation → Type 0
Absent o = All (λ p. ((o.exec_id == p.exec_id) && same_token o.token_code p.token_code) ≡ false)

due_total-put :
    (token : TokenCode) (o : HedgeObligation) (ps : List HedgeObligation)
    → Absent o ps
    → due_total token (put_obligation o ps) ≡ due_total token ps + due_on token o
unfolding put_obligation
due_total-put token o [] h = omega arith
due_total-put token o (p ∷ ps) h = rw h.0 (omega (arith, due_total-put token o ps h.1))

put-All :
    (P : HedgeObligation → Type 0) (o : HedgeObligation) (ps : List HedgeObligation)
    → P o
    → All P ps
    → All P (put_obligation o ps)
unfolding put_obligation
put-All P o [] p h = (p, tt)
put-All P o (q ∷ ps) p h =
    elim (Bool-cases ((o.exec_id == q.exec_id) && same_token o.token_code q.token_code)) [
      | inl e ↦ rw e (p, h.1)
      | inr e ↦ rw e (h.0, put-All P o ps p h.1)
    ]

-- What holds of a machine between two calls: the fills fit the order, every obligation comes from
-- an execution that was seen, and each leg is due the hedge of all that is filled.
pub record IsValid (m : Machine) : Type 0 where
  pub within : m.filled_quantity ≤ m.original_quantity * one_share
  pub due :
      (token : TokenCode)
      → due_total token m.obligations ≡ round_shares_up (ratio_of token m * m.filled_quantity)
  pub known : All (λ o. contains o.exec_id m.seen_exec_ids ≡ true) m.obligations

Absent-of_unseen :
    (o : HedgeObligation) (seen : List ℕ) (ps : List HedgeObligation)
    → contains o.exec_id seen ≡ false
    → All (λ p. contains p.exec_id seen ≡ true) ps
    → Absent o ps
Absent-of_unseen o seen [] new known = tt
Absent-of_unseen o seen (p ∷ ps) new known = (
  rw (contains_apart o.exec_id p.exec_id seen new known.0),
  Absent-of_unseen o seen ps new known.1,
)

pub known_weaken :
    (x : ℕ) (seen : List ℕ) (ps : List HedgeObligation)
    → All (λ p. contains p.exec_id seen ≡ true) ps
    → All (λ p. contains p.exec_id (x ∷ seen) ≡ true) ps
known_weaken x seen [] h = tt
known_weaken x seen (p ∷ ps) h = (ground (arith, h.0), known_weaken x seen ps h.1)

module _ (exec_id delta : ℕ) (m : Machine) (seen : List ℕ) where
  abbrev pub leg : TokenCode → HedgeObligation
  leg token = new_obligation exec_id delta token m

  module _ (new : contains exec_id seen ≡ false)
      (known : All (λ p. contains p.exec_id seen ≡ true) m.obligations) where
    leg-Absent : (token : TokenCode) → Absent (leg token) m.obligations
    unfolding new_obligation
    leg-Absent token = Absent-of_unseen (leg token) seen m.obligations new known

    second-Absent : Absent (leg inc50plus) (put_obligation (leg inc25) m.obligations)
    unfolding new_obligation
    second-Absent = put-All _ (leg inc25) m.obligations (ground arith) (leg-Absent inc50plus)

    -- Both legs of a new execution are appended.
    pub add_obligations_due :
        (token : TokenCode)
        → due_total token (add_obligations exec_id delta m).1.obligations
          ≡ due_total token m.obligations + due_on token (leg inc25) + due_on token (leg inc50plus)
    unfolding add_obligations
    add_obligations_due token =
        rw (due_total-put token (leg inc50plus) _ second-Absent)
          (rw (due_total-put token (leg inc25) m.obligations (leg-Absent inc25)) refl)

  pub add_obligations-known :
      All (λ p. contains p.exec_id (exec_id ∷ seen) ≡ true) m.obligations
      → All
          (λ p. contains p.exec_id (exec_id ∷ seen) ≡ true)
          (add_obligations exec_id delta m).1.obligations
  unfolding add_obligations new_obligation
  add_obligations-known known =
      put-All _ (leg inc50plus) _ (ground arith)
        (put-All _ (leg inc25) m.obligations (ground arith) known)
