-- ===== src/Repository/Backing/Steps.antt =====
-- The other calls on the ZQ side keep every batch backed.
use poly_zq_trading.Prelude.{
  ℕ, ◌≡◌, refl, sym, subst, ◌∙◌, List, [], ◌∷◌, ◌++◌, Option, none, some, ◌&&◌, not, ◌==◌, ==_iff,
  if◌then◌else◌, arith, Bool-cases, Option-cases, inl, inr,
}
use poly_zq_trading.Analytics.Sizing.Laws.{round_shares_up-zero}
use poly_zq_trading.Ledger.Types.{Obligation, Order, Batch, Tables, Result, ok, err}
use poly_zq_trading.Ledger.Queries.{find_batch, write}
use poly_zq_trading.Ledger.Refresh.{refresh_batch, refresh_batch_state}
use poly_zq_trading.Repository.Sizing.{saved_hedge_ratios}
use poly_zq_trading.Repository.Entry.{
  Entry, new_batch, new_zq_order, is_fresh_zq_order, add_batch, create_zq_batch_intent, write_entry,
  abandon_zq_intent, mark_zq_submitted, find_batch_order, is_intent, saved_ratios, saved_method,
}
use poly_zq_trading.Repository.Fills.{find_zq_order}
use poly_zq_trading.Repository.Status.{
  StatusReport, Residual, report_batch, apply_report, update_zq_order_status, cancel_batch,
  set_batch_cancel_pending, is_cancel_pending, refresh_batches, normalize_active_batch_state,
  is_final,
}
use poly_zq_trading.Repository.Backing.{
  saved_ratio_of, due_total, IsSized, IsBackedBy, IsBacked, IsBackedAfter,
}
use poly_zq_trading.Repository.Backing.Frame.{HasSameCore, write-IsBackedBy}
use poly_zq_trading.Repository.Backing.Recorded.{Result-cases}

unsized :
    (r : Result (Option (List (ℕ × ℕ)))) (id : ℕ) (obs : List Obligation)
    → ((token : ℕ) → due_total id token obs ≡ 0)
    → IsSized r 0 id obs
unsized (ok (some ratios)) id obs h =
    λ token. h token ∙ sym (round_shares_up-zero (saved_ratio_of token ratios))
unsized (ok none) id obs h = tt
unsized (err x) id obs h = tt

pub find_batch-append :
    (id : ℕ) (b : Batch) (bs : List Batch)
    → find_batch b.batch_id bs ≡ none
    → find_batch id (bs ++ (b ∷ [])) ≡ (if b.batch_id == id then some b else find_batch id bs)
find_batch-append id b [] h = refl
find_batch-append id b (c ∷ cs) h = elim (Bool-cases (c.batch_id == b.batch_id)) [
  | inl e ↦ absurd (ground (arith, e))
  | inr e ↦ ground (arith, e, find_batch-append id b cs (ground (arith, e)))
]

module _ (id : ℕ) where
  abbrev pub itself : Tables → Tables
  itself t = t

  pub create-IsBackedAfter :
      (key : ℕ) (e : Entry) (t : Tables)
      → IsBacked id t
      → IsBackedAfter id itself (create_zq_batch_intent key e t)
  unfolding create_zq_batch_intent add_batch new_batch
  create-IsBackedAfter key e t backed =
      elim (Result-cases
        (saved_hedge_ratios (saved_ratios e.hedge_ratios) (saved_method e.hedge_ratios))) [
          | inl (x, bad) ↦ rw (create_zq_batch_intent, bad) tt
          | inr (sizing, good) ↦ elim (Option-cases (find_batch e.batch_id t.batches)) [
            | inr (b, old) ↦ rw (create_zq_batch_intent, good) (rw old backed)
            | inl new ↦ elim (Bool-cases (is_fresh_zq_order (new_zq_order key e) t.orders)) [
              | inr clash ↦ rw (create_zq_batch_intent, good) (rw new (rw (add_batch, clash) tt))
              | inl fresh ↦
                  rw (create_zq_batch_intent, good)
                    (rw new (
                      rw (add_batch, fresh)
                        (rw (find_batch-append id (new_batch e) t.batches new)
                          (elim (Bool-cases (e.batch_id == id)) [
                            | inr other ↦ rw other backed
                            | inl own ↦
                                let (filled, due) =
                                  subst (λ o. IsBackedBy o id t.executions t.obligations)
                                    (subst (λ i. find_batch i t.batches ≡ none)
                                      ((==_iff e.batch_id id).0 own) new)
                                    backed in
                                rw own (filled, omega arith, unsized _ id t.obligations due)
                          ]))))
            ]
          ]
        ]

  -- A batch written back with what backs it.
  rewritten-IsBacked :
      (k : ℕ) (b b' : Batch) (t : Tables)
      → find_batch k t.batches ≡ some b
      → HasSameCore b b'
      → IsBacked id t
      → IsBacked id (record t { batches = write (λ c. c.batch_id == k) b' t.batches })
  rewritten-IsBacked k b b' t found same backed =
      write-IsBackedBy id t.executions t.obligations k b b' t.batches found same backed

  refresh_batch-HasSameCore :
      (obs : List Obligation) (orders : List Order) (b : Batch)
      → HasSameCore b (refresh_batch obs orders b)
  unfolding refresh_batch
  refresh_batch-HasSameCore obs orders b = ground arith

  pub refresh_batch_state-IsBacked :
      (k : ℕ) (t : Tables) → IsBacked id t → IsBacked id (refresh_batch_state k t)
  unfolding refresh_batch_state
  refresh_batch_state-IsBacked k t backed = elim (Option-cases (find_batch k t.batches)) [
    | inl missing ↦ rw (refresh_batch_state, missing) backed
    | inr (b, found) ↦
        rw (refresh_batch_state, found)
          (rewritten-IsBacked k b _ t found (refresh_batch-HasSameCore _ _ b) backed)
  ]

  pub abandon-IsBackedAfter :
      (k reason : ℕ) (t : Tables)
      → IsBacked id t
      → IsBackedAfter id itself (abandon_zq_intent k reason t)
  unfolding abandon_zq_intent write_entry
  abandon-IsBackedAfter k reason t backed = elim (Option-cases (find_batch k t.batches)) [
    | inl missing ↦ rw (abandon_zq_intent, missing) tt
    | inr (b, found) ↦ elim (Option-cases (find_batch_order k t.orders)) [
      | inl absent ↦ rw (abandon_zq_intent, found) (rw absent tt)
      | inr (o, known) ↦ elim (Bool-cases (is_intent o.state)) [
        | inr sent ↦ rw (abandon_zq_intent, found) (rw known (rw sent tt))
        | inl unsent ↦
            rw (abandon_zq_intent, found)
              (rw known (rw unsent (rewritten-IsBacked k b _ t found refl backed)))
      ]
    ]
  ]

  pub mark-IsBackedAfter :
      (k : ℕ) (t : Tables) → IsBacked id t → IsBackedAfter id itself (mark_zq_submitted k t)
  unfolding mark_zq_submitted write_entry
  mark-IsBackedAfter k t backed = elim (Option-cases (find_batch k t.batches)) [
    | inl missing ↦ rw (mark_zq_submitted, missing) tt
    | inr (b, found) ↦ elim (Option-cases (find_batch_order k t.orders)) [
      | inl absent ↦ rw (mark_zq_submitted, found) (rw absent tt)
      | inr (o, known) ↦
          rw (mark_zq_submitted, found) (rw known (rewritten-IsBacked k b _ t found refl backed))
    ]
  ]

  pub apply_report-IsBacked :
      (s : StatusReport) (o : Order) (t : Tables) → IsBacked id t → IsBacked id (apply_report s o t)
  unfolding apply_report report_batch
  apply_report-IsBacked s o t backed = elim (Option-cases (find_batch o.batch_id t.batches)) [
    | inl missing ↦ rw (apply_report, missing) backed
    | inr (b, found) ↦
        rw (apply_report, found)
          (refresh_batch_state-IsBacked b.batch_id _
            (rewritten-IsBacked o.batch_id b _ t found refl backed))
  ]

  pub update-IsBacked :
      (s : StatusReport) (t : Tables) → IsBacked id t → IsBacked id (update_zq_order_status s t).0
  unfolding update_zq_order_status
  update-IsBacked s t backed = elim (Option-cases (find_zq_order s.order_id t.orders)) [
    | inl foreign ↦ rw (update_zq_order_status, foreign) backed
    | inr (o, known) ↦ elim (Bool-cases (is_final o.state && not (is_final s.status))) [
      | inl over ↦ rw (update_zq_order_status, known) (rw over backed)
      | inr open_order ↦
          rw (update_zq_order_status, known) (rw open_order (apply_report-IsBacked s o t backed))
    ]
  ]

  pub cancel-IsBacked :
      (r : Residual) (t : Tables) → IsBacked id t → IsBacked id (set_batch_cancel_pending r t).0
  unfolding set_batch_cancel_pending cancel_batch
  cancel-IsBacked r t backed = elim (Option-cases (find_batch r.batch_id t.batches)) [
    | inl missing ↦ rw (set_batch_cancel_pending, missing) backed
    | inr (b, found) ↦ elim (Bool-cases (is_cancel_pending b.state)) [
      | inl old ↦ rw (set_batch_cancel_pending, found) (rw old backed)
      | inr new ↦
          rw (set_batch_cancel_pending, found)
            (rw new (rewritten-IsBacked r.batch_id b _ t found refl backed))
    ]
  ]

  refresh_batches-IsBacked :
      (bs : List Batch) (t : Tables) → IsBacked id t → IsBacked id (refresh_batches bs t)
  unfolding refresh_batches
  refresh_batches-IsBacked [] t backed = backed
  refresh_batches-IsBacked (b ∷ bs) t backed =
      refresh_batches-IsBacked bs _ (refresh_batch_state-IsBacked b.batch_id t backed)

  pub normalize-IsBacked :
      (t : Tables) → IsBacked id t → IsBacked id (normalize_active_batch_state t)
  unfolding normalize_active_batch_state
  normalize-IsBacked t backed = refresh_batches-IsBacked t.batches t backed
