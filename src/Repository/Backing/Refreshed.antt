-- ===== src/Repository/Backing/Refreshed.antt =====
-- The refresh of a hedge keeps every batch backed.
use poly_zq_trading.Prelude.{
  ℕ, ◌+◌, ◌≡◌, refl, ap, sym, subst, ◌∙◌, List, [], ◌∷◌, Option, none, some, ◌&&◌, ◌==◌,
  if◌then◌else◌, arith, Bool-cases, Option-cases, inl, inr,
}
use poly_zq_trading.Ledger.Types.{OrderId, Execution, Obligation, Tables}
use poly_zq_trading.Ledger.Queries.{find_obligation, find_batch, write, is_execution_of}
use poly_zq_trading.Ledger.Refresh.{
  settle, refresh_obligation, refresh_with, refresh_hedge, is_confirmed, is_pending,
}
use poly_zq_trading.Ledger.Refresh.Accounted.{order_ids}
use poly_zq_trading.Ledger.Intents.{refresh_named}
use poly_zq_trading.Repository.Backing.{zq_filled, due_total, IsBackedBy, IsBacked, IsBackedAfter}
use poly_zq_trading.Repository.Backing.Filled.{same_sums-IsBackedBy}
use poly_zq_trading.Repository.Backing.Steps.{itself, refresh_batch_state-IsBacked}

zq_filled-settle :
    (id due : ℕ) (ids : List OrderId) (c p : ℕ) (es : List Execution)
    → zq_filled id (settle due ids c p es).0 ≡ zq_filled id es
unfolding settle
zq_filled-settle id due ids c p [] = refl
zq_filled-settle id due ids c p (e ∷ es) =
    let mine = is_execution_of ids e in
    let credited = if mine && is_confirmed e.status then c + e.quantity else c in
    let held = if mine && is_pending e.status then p + e.quantity else p in
    omega (arith, zq_filled-settle id due ids credited held es)

find_obligation-id :
    (k : ℕ) (ob : Obligation) (obs : List Obligation)
    → find_obligation k obs ≡ some ob
    → ob.obligation_id ≡ k
find_obligation-id k ob [] h = absurd (ground arith)
find_obligation-id k ob (o ∷ os) h = elim (Bool-cases (o.obligation_id == k)) [
  | inl e ↦ ground (arith, e)
  | inr e ↦ find_obligation-id k ob os (ground (arith, e))
]

-- The token and the shares that a row owes.
abbrev pub owed : Obligation → ℕ × ℕ × ℕ
owed ob = (ob.batch_id, ob.token_id, ob.due_shares)

pub due_total-write :
    (id token k : ℕ) (ob ob' : Obligation) (obs : List Obligation)
    → find_obligation k obs ≡ some ob
    → owed ob' ≡ owed ob
    → due_total id token (write (λ o. o.obligation_id == k) ob' obs) ≡ due_total id token obs
unfolding write
due_total-write id token k ob ob' [] found same = refl
due_total-write id token k ob ob' (o ∷ os) found same = elim (Bool-cases (o.obligation_id == k)) [
  | inl e ↦
      let row : o ≡ ob = ground (arith, e) in
      rw e (
        ap
          (λ (w : ℕ × ℕ × ℕ).
            (if (w.0 == id) && (w.1 == token) then w.2 else 0) + due_total id token os)
          (same ∙ ap owed (sym row)))
  | inr e ↦ rw e (omega (arith, due_total-write id token k ob ob' os (ground (arith, e)) same))
]

-- Rows rewritten with what they owe, and executions of other venues.
pub rewritten_rows-IsBacked :
    (id k : ℕ) (ob ob' : Obligation) (es : List Execution) (t : Tables)
    → find_obligation k t.obligations ≡ some ob
    → owed ob' ≡ owed ob
    → zq_filled id es ≡ zq_filled id t.executions
    → IsBacked id t
    → IsBackedBy
        (find_batch id t.batches)
        id
        es
        (write (λ o. o.obligation_id == k) ob' t.obligations)
rewritten_rows-IsBacked id k ob ob' es t found same filled backed =
    same_sums-IsBackedBy (find_batch id t.batches) id t.executions es t.obligations _ filled
      (λ token. due_total-write id token k ob ob' t.obligations found same) backed

module _ (id : ℕ) where
  refresh_with-IsBacked :
      (ob : Obligation) (t : Tables)
      → find_obligation ob.obligation_id t.obligations ≡ some ob
      → IsBacked id t
      → IsBacked id (refresh_with ob t)
  unfolding refresh_with refresh_obligation
  refresh_with-IsBacked ob t found backed = refresh_batch_state-IsBacked id ob.batch_id _ (
      rewritten_rows-IsBacked id ob.obligation_id ob _ _ t found refl
        (zq_filled-settle id ob.due_shares (order_ids ob t.orders) 0 0 t.executions) backed)

  refresh_hedge-IsBackedAfter :
      (k : ℕ) (t : Tables) → IsBacked id t → IsBackedAfter id (itself id) (refresh_hedge k t)
  unfolding refresh_hedge
  refresh_hedge-IsBackedAfter k t backed = elim (Option-cases (find_obligation k t.obligations)) [
    | inl missing ↦ rw (refresh_hedge, missing) tt
    | inr (ob, found) ↦
        rw (refresh_hedge, found)
          (refresh_with-IsBacked ob t
            (subst (λ i. find_obligation i t.obligations ≡ some ob)
              (sym (find_obligation-id k ob t.obligations found)) found)
            backed)
  ]

  pub refresh_named-IsBackedAfter :
      (o : Option ℕ) (t : Tables) → IsBacked id t → IsBackedAfter id (itself id) (refresh_named o t)
  refresh_named-IsBackedAfter none t backed = tt
  refresh_named-IsBackedAfter (some k) t backed = refresh_hedge-IsBackedAfter k t backed
