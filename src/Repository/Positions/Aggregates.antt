-- ===== src/Repository/Positions/Aggregates.antt =====
-- The table of aggregates, seen from the quantity that it holds under a key.
use poly_zq_trading.Prelude.{
  ℕ, ◌+◌, ◌≡◌, refl, ap, subst, sym, List, [], ◌∷◌, Option, none, some, Bool, true, ◌&&◌, map,
  filter, find, sum_of, ltb, ◌==◌, ==_iff, if◌then◌else◌, arith, Bool-cases, Option-cases, inl, inr,
}
use poly_zq_trading.Ledger.Types.{Venue, ibkr, polymarket, Execution, Tables}
use poly_zq_trading.Ledger.Refresh.Accounted.{find-true}
use poly_zq_trading.Repository.Positions.{
  empty_aggregate, Aggregate, StrategyPosition, same_venue, has_instrument, put_aggregate,
  instrument_of, aggregate_of, add_to_aggregate, add_to_aggregates, aggregate_executions,
  position_of, precedes, insert_sorted, sort_aggregates,
}

same_venue_eq : (v w : Venue) → same_venue v w ≡ true → v ≡ w
same_venue_eq ibkr ibkr h = refl
same_venue_eq polymarket polymarket h = refl
same_venue_eq ibkr polymarket h = absurd (ground arith)
same_venue_eq polymarket ibkr h = absurd (ground arith)

pub keyed :
    (v : Venue) (i : ℕ) (a : Aggregate)
    → has_instrument v i a ≡ true
    → (a.venue ≡ v) × (a.instrument ≡ i)
keyed v i a h = (same_venue_eq a.venue v (ground arith), (==_iff a.instrument i).0 (ground arith))

module _ (venue : Venue) (instrument : ℕ) where
  -- What an aggregate holds of the key.
  abbrev pub held : Aggregate → ℕ
  held a = if has_instrument venue instrument a then a.quantity else 0

  put-present :
      (a b : Aggregate) (rows : List Aggregate)
      → find (has_instrument a.venue a.instrument) rows ≡ some b
      → sum_of held (put_aggregate a rows) + held b ≡ sum_of held rows + held a
  unfolding put_aggregate
  put-present a b [] h = absurd (ground arith)
  put-present a b (c ∷ cs) h = elim (Bool-cases (has_instrument a.venue a.instrument c)) [
    | inl e ↦ let row : c ≡ b = ground (arith, e) in rw e (omega (arith, ap held row))
    | inr e ↦ rw e (omega (arith, put-present a b cs (ground (arith, e))))
  ]

  pub put-absent :
      (a : Aggregate) (rows : List Aggregate)
      → find (has_instrument a.venue a.instrument) rows ≡ none
      → sum_of held (put_aggregate a rows) ≡ sum_of held rows + held a
  unfolding put_aggregate
  put-absent a [] h = omega arith
  put-absent a (c ∷ cs) h = elim (Bool-cases (has_instrument a.venue a.instrument c)) [
    | inl e ↦ absurd (ground (arith, e))
    | inr e ↦ rw e (omega (arith, put-absent a cs (ground (arith, e))))
  ]

  -- What an execution adds under the key.
  abbrev pub added : Execution → Option (ℕ × Bool) → ℕ
  added e none = 0
  added e (some (i, simulated)) =
      if same_venue e.venue venue && (i == instrument) then e.quantity else 0

  held_more :
      (e : Execution) (i : ℕ) (simulated : Bool) (b : Aggregate)
      → b.venue ≡ e.venue
      → b.instrument ≡ i
      → held (add_to_aggregate e simulated b) ≡ held b + added e (some (i, simulated))
  unfolding add_to_aggregate
  held_more e i simulated b same_v same_i = rw same_v (rw same_i (ground arith))

  held_empty : (v : Venue) (i : ℕ) → held (empty_aggregate v i) ≡ 0
  held_empty v i = ground arith

  add_to_aggregates-held :
      (e : Execution) (i : Option (ℕ × Bool)) (rows : List Aggregate)
      → sum_of held (add_to_aggregates e i rows) ≡ sum_of held rows + added e i
  unfolding add_to_aggregate aggregate_of
  add_to_aggregates-held e none rows = omega arith
  add_to_aggregates-held e (some (i, simulated)) rows =
      elim (Option-cases (find (has_instrument e.venue i) rows)) [
        | inl missing ↦
            rw (aggregate_of, missing)
              (omega (
                arith,
                put-absent (add_to_aggregate e simulated (empty_aggregate e.venue i)) rows missing,
                held_more e i simulated (empty_aggregate e.venue i) refl refl,
                held_empty e.venue i,
              ))
        | inr (b, found) ↦
            let (same_v, same_i) =
              keyed e.venue i b (find-true (has_instrument e.venue i) b rows found) in
            let found' : find (has_instrument b.venue b.instrument) rows ≡ some b =
              subst (λ v. find (has_instrument v b.instrument) rows ≡ some b) (sym same_v)
                (subst (λ (j : ℕ). find (has_instrument e.venue j) rows ≡ some b) (sym same_i)
                  found) in
            rw (aggregate_of, found)
              (omega (
                arith,
                put-present (add_to_aggregate e simulated b) b rows found',
                held_more e i simulated b same_v same_i,
              ))
      ]

  pub aggregate_executions-held :
      (t : Tables) (es : List Execution) (rows : List Aggregate)
      → sum_of held (aggregate_executions t es rows)
        ≡ sum_of held rows + sum_of (λ e. added e (instrument_of t e)) es
  unfolding aggregate_executions
  aggregate_executions-held t [] rows = omega arith
  aggregate_executions-held t (e ∷ es) rows = omega (
    arith,
    aggregate_executions-held t es (add_to_aggregates e (instrument_of t e) rows),
    add_to_aggregates-held e (instrument_of t e) rows,
  )

  insert_sorted-held :
      (a : Aggregate) (rows : List Aggregate)
      → sum_of held (insert_sorted a rows) ≡ held a + sum_of held rows
  unfolding insert_sorted
  insert_sorted-held a [] = refl
  insert_sorted-held a (b ∷ bs) = elim (Bool-cases (precedes b a)) [
    | inl e ↦ rw e (omega (arith, insert_sorted-held a bs))
    | inr e ↦ rw e refl
  ]

  pub sort_aggregates-held :
      (rows : List Aggregate) → sum_of held (sort_aggregates rows) ≡ sum_of held rows
  unfolding sort_aggregates
  sort_aggregates-held [] = refl
  sort_aggregates-held (a ∷ rows) =
      omega (arith, insert_sorted-held a (sort_aggregates rows), sort_aggregates-held rows)

  -- What a position holds of the key.
  abbrev pub position_held : StrategyPosition → ℕ
  position_held p =
      if same_venue p.venue venue && (p.instrument == instrument) then p.strategy_quantity else 0

  -- An aggregate that holds nothing gives no position.
  pub positions-held :
      (rows : List Aggregate)
      → sum_of position_held (map position_of (filter (λ a. ltb 0 a.quantity) rows))
        ≡ sum_of held rows
  unfolding position_of
  positions-held [] = refl
  positions-held (a ∷ rows) = elim (Bool-cases (ltb 0 a.quantity)) [
    | inl e ↦ rw e (omega (arith, positions-held rows))
    | inr e ↦ rw e (ground (arith, positions-held rows))
  ]
