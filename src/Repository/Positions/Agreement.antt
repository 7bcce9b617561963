-- ===== src/Repository/Positions/Agreement.antt =====
-- The ZQ quantity of the strategy, counted in two ways.
use poly_zq_trading.Prelude.{
  ℕ, ◌+◌, ◌≡◌, refl, subst, List, [], ◌∷◌, Option, none, some, Bool, false, ◌&&◌, contains, find,
  sum_of, ◌==◌, ==_iff, if◌then◌else◌, arith, Bool-cases, Option-cases, inl, inr, All,
}
use poly_zq_trading.Ledger.Types.{Venue, ibkr, Execution, Batch, Tables}
use poly_zq_trading.Ledger.Queries.{equals_some, find_batch}
use poly_zq_trading.Repository.Entry.{is_ibkr}
use poly_zq_trading.Repository.Positions.{
  OpeningPosition, Opening, Aggregate, same_venue, has_instrument, put_aggregate, open_aggregate,
  open_aggregates, initial_quantity, instrument_of, batch_ids, is_zq_of, executed_quantity,
  with_executions, strategy_zq_quantity, aggregate_executions, sort_aggregates,
  strategy_portfolio_positions,
}
use poly_zq_trading.Repository.Positions.Aggregates.{
  held, put-absent, added, aggregate_executions-held, sort_aggregates-held, position_held,
  positions-held,
}

-- No two rows have the same batch id.
abbrev pub HaveOwnIds : List Batch → Type 0
HaveOwnIds [] = Unit
HaveOwnIds (b ∷ bs) = (find_batch b.batch_id bs ≡ none) × HaveOwnIds bs

-- No two positions of the opening snapshot have the same venue and instrument.
abbrev pub HaveOwnKeys : Opening → Type 0
HaveOwnKeys [] = Unit
HaveOwnKeys (p ∷ ps) =
    All (λ q. (same_venue p.venue q.venue && (p.instrument == q.instrument)) ≡ false) ps
    × HaveOwnKeys ps

abbrev month_is : ℕ → Option Batch → Bool
month_is month none = false
month_is month (some b) = equals_some b.contract_month month

batch_ids-missing :
    (month id : ℕ) (bs : List Batch)
    → find_batch id bs ≡ none
    → contains id (batch_ids month bs) ≡ false
unfolding batch_ids
batch_ids-missing month id [] h = refl
batch_ids-missing month id (b ∷ bs) h = ground (arith, batch_ids-missing month id bs (ground arith))

batch_ids-found :
    (month id : ℕ) (bs : List Batch)
    → HaveOwnIds bs
    → contains id (batch_ids month bs) ≡ month_is month (find_batch id bs)
unfolding batch_ids
batch_ids-found month id [] own = refl
batch_ids-found month id (b ∷ bs) (new, rest) = elim (Bool-cases (b.batch_id == id)) [
  | inl e ↦
      let absent : contains id (batch_ids month bs) ≡ false =
        subst (λ (i : ℕ). contains i (batch_ids month bs) ≡ false) ((==_iff b.batch_id id).0 e)
          (batch_ids-missing month b.batch_id bs new) in
      rw e (ground (arith, e, absent))
  | inr e ↦ rw e (ground (arith, e, batch_ids-found month id bs rest))
]

-- What an execution adds to the month, counted in either way.
added-executed :
    (month : ℕ) (t : Tables) (e : Execution)
    → HaveOwnIds t.batches
    → (is_ibkr e.venue && e.terminal_failed) ≡ false
    → added ibkr month e (instrument_of t e)
      ≡ (if is_zq_of (batch_ids month t.batches) e then e.quantity else 0)
unfolding instrument_of
added-executed month t e own fine =
    let counted = batch_ids-found month e.batch_id t.batches own in
    elim (Bool-cases (is_ibkr e.venue)) [
      | inr foreign ↦ ground (arith, counted)
      | inl zq ↦ elim (Option-cases (find_batch e.batch_id t.batches)) [
        | inl missing ↦ ground (arith, counted)
        | inr (b, found) ↦ ground (arith, counted)
      ]
    ]

executions-executed :
    (month : ℕ) (t : Tables) (es : List Execution)
    → HaveOwnIds t.batches
    → All (λ e. (is_ibkr e.venue && e.terminal_failed) ≡ false) es
    → sum_of (λ e. added ibkr month e (instrument_of t e)) es
      ≡ executed_quantity (batch_ids month t.batches) es
unfolding executed_quantity
executions-executed month t [] own fine = refl
executions-executed month t (e ∷ es) own (one, rest) =
    omega (arith, added-executed month t e own one, executions-executed month t es own rest)

find-put :
    (v : Venue) (i : ℕ) (a : Aggregate) (rows : List Aggregate)
    → find (has_instrument v i) rows ≡ none
    → has_instrument v i a ≡ false
    → find (has_instrument v i) (put_aggregate a rows) ≡ none
unfolding put_aggregate
find-put v i a [] missing other = rw other refl
find-put v i a (b ∷ bs) missing other =
    let rest = find-put v i a bs in
    elim (Bool-cases (has_instrument v i b)) [
      | inl e ↦ absurd (ground (arith, e))
      | inr e ↦ elim (Bool-cases (has_instrument a.venue a.instrument b)) [
        | inl own ↦ rw own (rw other (ground (arith, e)))
        | inr apart ↦ rw apart (rw e (rest (ground (arith, e)) other))
      ]
    ]

-- No position of the list has an aggregate yet.
abbrev AreNew : Opening → List Aggregate → Type 0
AreNew ps rows = All (λ q. find (has_instrument q.venue q.instrument) rows ≡ none) ps

opened-AreNew :
    (p : OpeningPosition) (ps : Opening) (rows : List Aggregate)
    → All (λ q. (same_venue p.venue q.venue && (p.instrument == q.instrument)) ≡ false) ps
    → AreNew ps rows
    → AreNew ps (put_aggregate (open_aggregate p) rows)
unfolding open_aggregate
opened-AreNew p [] rows apart new = tt
opened-AreNew p (q ∷ qs) rows (one, others) (missing, rest) = (
  find-put q.venue q.instrument (open_aggregate p) rows missing one,
  opened-AreNew p qs rows others rest,
)

open_aggregates-held :
    (month : ℕ) (ps : Opening) (rows : List Aggregate)
    → HaveOwnKeys ps
    → AreNew ps rows
    → sum_of (held ibkr month) (open_aggregates ps rows)
      ≡ sum_of (held ibkr month) rows + initial_quantity month ps
unfolding open_aggregates open_aggregate initial_quantity
open_aggregates-held month [] rows own new = omega arith
open_aggregates-held month (p ∷ ps) rows (apart, own) (missing, new) =
    let opened = put-absent ibkr month (open_aggregate p) rows missing in
    let rest =
      open_aggregates-held month ps (put_aggregate (open_aggregate p) rows) own
        (opened-AreNew p ps rows apart new) in
    let first : held ibkr month (open_aggregate p)
        ≡ (if is_ibkr p.venue && (p.instrument == month) then p.quantity else 0) =
      ground arith in
    omega (arith, opened, rest, first)

all_new : (ps : Opening) → AreNew ps []
all_new [] = tt
all_new (p ∷ ps) = (refl, all_new ps)

executed_quantity-none : (es : List Execution) → executed_quantity [] es ≡ 0
unfolding executed_quantity
executed_quantity-none [] = refl
executed_quantity-none (e ∷ es) = ground (arith, executed_quantity-none es)

with_executions_sum :
    (ids : List ℕ) (initial : ℕ) (es : List Execution)
    → with_executions ids initial es ≡ initial + executed_quantity ids es
with_executions_sum [] initial es = omega (arith, executed_quantity-none es)
with_executions_sum (i ∷ is) initial es = refl

-- With batches of distinct ids, an opening snapshot with one position for an instrument, and no
-- ZQ execution marked as failed, the ZQ positions of a month in the portfolio hold exactly the
-- strategy's quantity for that month.
pub strategy_portfolio_positions-strategy_zq_quantity :
    (month : ℕ) (opening : Opening) (t : Tables)
    → HaveOwnIds t.batches
    → HaveOwnKeys opening
    → All (λ e. (is_ibkr e.venue && e.terminal_failed) ≡ false) t.executions
    → sum_of (position_held ibkr month) (strategy_portfolio_positions opening t)
      ≡ strategy_zq_quantity month opening t
unfolding strategy_portfolio_positions strategy_zq_quantity
strategy_portfolio_positions-strategy_zq_quantity month opening t ids keys fine =
    let opened = open_aggregates opening [] in
    let rows = aggregate_executions t t.executions opened in
    omega (
      arith,
      positions-held ibkr month (sort_aggregates rows),
      sort_aggregates-held ibkr month rows,
      aggregate_executions-held ibkr month t t.executions opened,
      executions-executed month t t.executions ids fine,
      open_aggregates-held month opening [] keys (all_new opening),
      with_executions_sum (batch_ids month t.batches) (initial_quantity month opening) t.executions,
    )
