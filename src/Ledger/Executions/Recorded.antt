-- ===== src/Ledger/Executions/Recorded.antt =====
-- `record_polymarket_execution` and the refresh, seen from the executions.
use poly_zq_trading.Prelude.{
  ℕ, List, [], ◌∷◌, Option, none, some, Bool, false, ◌||◌, ◌==◌, not, ◌&&◌, ◌≡◌, refl, inl, inr,
  Bool-cases, Option-cases, subst, ltb,
}
use poly_zq_trading.Ledger.Types.{Order, Execution, Obligation, Tables, Result, ok, err}
use poly_zq_trading.Ledger.Queries.{
  find_polymarket_order, find_obligation, trade_rank, same_status, same_id,
}
use poly_zq_trading.Ledger.Refresh.{refresh_with, refresh_hedge}
use poly_zq_trading.Ledger.Refresh.Accounted.{order_ids, refresh_batch_state-executions}
use poly_zq_trading.Ledger.Intents.{refresh_named, same_flag}
use poly_zq_trading.Ledger.Executions.{
  record_numbers, confirm, is_row, Fill, positive, not_negative, status_of, find_execution,
  contradicts, is_conflict, new_execution, settle_status, mark_conflict, add_execution,
  update_execution, record_valid, record_polymarket_execution,
}
use poly_zq_trading.Ledger.Executions.Evolution.{
  IsSameFill, Evolves, status_advances, Evolves-trans, Evolves-append, Evolves-write,
  Evolves-settle, Evolves-refl,
}

-- The executions after a call evolve from those given.
abbrev pub EvolvesTo {ℓ} : {A : Type ℓ} → List Execution → (A → Tables) → Result A → Type 0
EvolvesTo es f (ok a) = Evolves es (f a).executions
EvolvesTo es f (err e) = Unit

refresh_with-Evolves :
    (ob : Obligation) (t : Tables) → Evolves t.executions (refresh_with ob t).executions
unfolding refresh_with
refresh_with-Evolves ob t =
    rw (refresh_batch_state-executions ob.batch_id _)
      (Evolves-settle ob.due_shares (order_ids ob t.orders) 0 0 t.executions)

pub refresh_named-Evolves :
    (o : Option ℕ) (t : Tables) → EvolvesTo t.executions (λ (s : Tables). s) (refresh_named o t)
unfolding refresh_hedge
refresh_named-Evolves none t = tt
refresh_named-Evolves (some id) t = elim (Option-cases (find_obligation id t.obligations)) [
  | inl missing ↦ rw (refresh_hedge, missing) tt
  | inr (ob, found) ↦ rw (refresh_hedge, found) (refresh_with-Evolves ob t)
]

-- What a call answers for a tested flag.
abbrev flag_tables : Tables × Bool → Tables
flag_tables p = p.0

settle_status-IsSameFill :
    (f : Fill) (o : Order) (e : Execution)
    → (is_conflict e.status || contradicts e.status (status_of f)) ≡ false
    → (same_status e.status (status_of f) || ltb (trade_rank (status_of f)) (trade_rank e.status))
      ≡ false
    → IsSameFill e (settle_status f o e)
unfolding settle_status
settle_status-IsSameFill f o e a b = record {
  venue = refl;
  execution_id = refl;
  venue_order_id = refl;
  quantity = refl;
  price = refl;
  executed_at = refl;
  status = status_advances e.status (status_of f) a b;
}

mark_conflict-IsSameFill : (f : Fill) (e : Execution) → IsSameFill e (mark_conflict f e)
unfolding mark_conflict
mark_conflict-IsSameFill f e = record {
  venue = refl;
  execution_id = refl;
  venue_order_id = refl;
  quantity = refl;
  price = refl;
  executed_at = refl;
  status = inr (inl refl);
}

EvolvesTo-confirm :
    (xs ys : List Execution) (r : Result Tables)
    → Evolves xs ys
    → EvolvesTo ys (λ (s : Tables). s) r
    → EvolvesTo xs flag_tables (confirm r)
EvolvesTo-confirm xs ys (ok t) p q = Evolves-trans xs ys t.executions p q
EvolvesTo-confirm xs ys (err e) p q = tt

-- A call that refreshes from tables that have evolved.
confirm-Evolves :
    (es : List Execution) (o : Option ℕ) (t : Tables)
    → Evolves es t.executions
    → EvolvesTo es flag_tables (confirm (refresh_named o t))
confirm-Evolves es o t h =
    EvolvesTo-confirm es t.executions (refresh_named o t) h (refresh_named-Evolves o t)

update_execution-Evolves :
    (f : Fill) (quantity price : ℕ) (o : Order) (e : Execution) (t : Tables)
    → find_execution f.execution_id t.executions ≡ some e
    → EvolvesTo t.executions flag_tables (update_execution f quantity price o e t)
unfolding update_execution
update_execution-Evolves f quantity price o e t found =
    let payload =
      same_id e.venue_order_id f.order_id && (e.quantity == quantity) && (e.price == price) in
    let conflict = is_conflict e.status || contradicts e.status (status_of f) in
    let stale =
      same_status e.status (status_of f) || ltb (trade_rank (status_of f)) (trade_rank e.status) in
    let written = λ (e' : Execution) (s : IsSameFill e e').
      Evolves-write (is_row f.execution_id) e e' t.executions found s in
    elim (Bool-cases payload) [
      | inr differs ↦ rw (update_execution, differs) tt
      | inl same ↦ elim (Bool-cases conflict) [
        | inl clash ↦
            rw (update_execution, same)
              (rw clash (
                confirm-Evolves t.executions o.obligation_id _
                  (written (mark_conflict f e) (mark_conflict-IsSameFill f e))))
        | inr fine ↦ elim (Bool-cases stale) [
          | inl old ↦ rw (update_execution, same) (rw fine (rw old (Evolves-refl t.executions)))
          | inr new ↦
              rw (update_execution, same)
                (rw fine (
                  rw new (
                    confirm-Evolves t.executions o.obligation_id _
                      (written (settle_status f o e) (settle_status-IsSameFill f o e fine new)))))
        ]
      ]
    ]

record_valid-Evolves :
    (f : Fill) (quantity price : ℕ) (t : Tables)
    → EvolvesTo t.executions flag_tables (record_valid f quantity price t)
unfolding record_valid add_execution
record_valid-Evolves f quantity price t =
    elim (Bool-cases (not (same_flag f.simulated t.simulate_polymarket_fills))) [
      | inl wrong ↦ rw (record_valid, wrong) tt
      | inr fine ↦ elim (Option-cases (find_polymarket_order f.order_id t.orders)) [
        | inl foreign ↦ rw (record_valid, fine) (rw foreign (Evolves-refl t.executions))
        | inr (o, known) ↦ elim (Option-cases (find_execution f.execution_id t.executions)) [
          | inl new ↦
              rw (record_valid, fine)
                (rw known (
                  rw new (
                    confirm-Evolves t.executions o.obligation_id _ (
                      Evolves-append t.executions
                        (settle_status f o (new_execution f quantity price o) ∷ [])))))
          | inr (e, found) ↦
              rw (record_valid, fine)
                (rw known (rw found (update_execution-Evolves f quantity price o e t found)))
        ]
      ]
    ]

record_numbers-Evolves :
    (quantity price : Option ℕ) (f : Fill) (t : Tables)
    → EvolvesTo t.executions flag_tables (record_numbers quantity price f t)
record_numbers-Evolves (some quantity) (some price) f t = record_valid-Evolves f quantity price t
record_numbers-Evolves none price f t = tt
record_numbers-Evolves (some quantity) none f t = tt

-- A fill that is recorded leaves every row of the executions in its place with its venue, ids,
-- quantity, price and time, adds rows at the end alone, and takes a status only into conflict or
-- on to one of no lower rank, the latter from a status that is not CONFIRMED, FAILED or CONFLICT.
pub record_polymarket_execution-Evolves :
    (f : Fill) (t t' : Tables) (b : Bool)
    → record_polymarket_execution f t ≡ ok (t', b)
    → Evolves t.executions t'.executions
unfolding record_polymarket_execution
record_polymarket_execution-Evolves f t t' b h =
    subst (EvolvesTo t.executions flag_tables) h
      (record_numbers-Evolves (positive f.quantity) (not_negative f.price) f t)
