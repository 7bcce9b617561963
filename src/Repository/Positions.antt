-- ===== src/Repository/Positions.antt =====
-- `strategy_zq_quantity` and `strategy_portfolio_positions`: what the durable executions, with the
-- opening inventory, add up to.
-- Quantities are counts of `Units.one_share`; a weighted price counts 10^-18. Instruments are numbered
-- in the order of their texts; labels are left out.
pub mod Aggregates
pub mod Agreement
use poly_zq_trading.Prelude.{
  ℕ, ◌+◌, ◌*◌, List, [], ◌∷◌, ◌++◌, Option, none, some, Bool, true, false, ◌&&◌, any, all, filter,
  find, contains, map, sum_of, ltb, ◌==◌, if◌then◌else◌,
}
use poly_zq_trading.Ledger.Types.{Venue, ibkr, polymarket, Execution, Batch, Tables}
use poly_zq_trading.Ledger.Queries.{is_polymarket, equals_some, find_batch, find_polymarket_order}
use poly_zq_trading.Repository.Entry.{is_ibkr}

-- A position of the opening snapshot.
pub record OpeningPosition : Type 0 where
  pub venue : Venue
  pub instrument : ℕ
  pub quantity : ℕ
  pub average_price : ℕ

-- The opening snapshot, with no positions where there is none.
abbrev pub Opening : Type 0
Opening = List OpeningPosition

unfoldable pub initial_quantity : ℕ → Opening → ℕ
initial_quantity month =
    sum_of (λ p. if is_ibkr p.venue && (p.instrument == month) then p.quantity else 0)

-- The ids of the batches of a month.
unfoldable pub batch_ids : ℕ → List Batch → List ℕ
batch_ids month bs = map (λ b. b.batch_id) (filter (λ b. equals_some b.contract_month month) bs)

abbrev pub is_zq_of : List ℕ → Execution → Bool
is_zq_of ids e = is_ibkr e.venue && contains e.batch_id ids

unfoldable pub executed_quantity : List ℕ → List Execution → ℕ
executed_quantity ids = sum_of (λ e. if is_zq_of ids e then e.quantity else 0)

-- `if not batch_ids: return initial`, and the sum otherwise.
abbrev pub with_executions : List ℕ → ℕ → List Execution → ℕ
with_executions [] initial es = initial
with_executions (i ∷ is) initial es = initial + executed_quantity (i ∷ is) es

unfoldable pub strategy_zq_quantity : ℕ → Opening → Tables → ℕ
strategy_zq_quantity month opening t =
    with_executions (batch_ids month t.batches) (initial_quantity month opening) t.executions

pub record Aggregate : Type 0 where
  pub venue : Venue
  pub instrument : ℕ
  pub quantity : ℕ
  pub weighted_price : ℕ
  pub simulated_flags : List Bool

abbrev pub same_venue : Venue → Venue → Bool
same_venue ibkr ibkr = true
same_venue polymarket polymarket = true
same_venue _ _ = false

abbrev pub has_instrument : Venue → ℕ → Aggregate → Bool
has_instrument venue instrument a = same_venue a.venue venue && (a.instrument == instrument)

-- A dictionary entry set by its key, in the order of insertion.
unfoldable pub put_aggregate : Aggregate → List Aggregate → List Aggregate
put_aggregate a [] = a ∷ []
put_aggregate a (b ∷ bs) =
    if has_instrument a.venue a.instrument b then a ∷ bs else b ∷ put_aggregate a bs

unfoldable pub open_aggregate : OpeningPosition → Aggregate
open_aggregate p = record {
  venue = p.venue;
  instrument = p.instrument;
  quantity = p.quantity;
  weighted_price = p.quantity * p.average_price;
  simulated_flags = if is_polymarket p.venue then false ∷ [] else [];
}

unfoldable pub open_aggregates : Opening → List Aggregate → List Aggregate
open_aggregates [] rows = rows
open_aggregates (p ∷ ps) rows = open_aggregates ps (put_aggregate (open_aggregate p) rows)

-- The instrument of an execution and whether its order is simulated; `none` skips it.
unfoldable pub instrument_of : Tables → Execution → Option (ℕ × Bool)
instrument_of t e =
    if e.terminal_failed
    then none
    else if is_ibkr e.venue
    then elim (find_batch e.batch_id t.batches) [
      | none ↦ none
      | some b ↦ elim b.contract_month [ none ↦ none | some month ↦ some (month, false) ]
    ]
    else elim (find_polymarket_order e.venue_order_id t.orders) [
      | none ↦ none
      | some o ↦ if o.token_id == 0 then none else some (o.token_id, o.simulated)
    ]

abbrev pub empty_aggregate : Venue → ℕ → Aggregate
empty_aggregate venue instrument = record {
  venue = venue;
  instrument = instrument;
  quantity = 0;
  weighted_price = 0;
  simulated_flags = [];
}

-- `aggregates.setdefault`.
unfoldable pub aggregate_of : Venue → ℕ → List Aggregate → Aggregate
aggregate_of venue instrument rows = elim (find (has_instrument venue instrument) rows) [
  | none ↦ empty_aggregate venue instrument
  | some a ↦ a
]

unfoldable pub add_to_aggregate : Execution → Bool → Aggregate → Aggregate
add_to_aggregate e simulated a = record a {
  quantity = a.quantity + e.quantity;
  weighted_price = a.weighted_price + e.quantity * e.price;
  simulated_flags =
      if is_polymarket e.venue then a.simulated_flags ++ (simulated ∷ []) else a.simulated_flags;
}

abbrev pub add_to_aggregates : Execution → Option (ℕ × Bool) → List Aggregate → List Aggregate
add_to_aggregates e none rows = rows
add_to_aggregates e (some (instrument, simulated)) rows =
    put_aggregate (add_to_aggregate e simulated (aggregate_of e.venue instrument rows)) rows

-- The loop over the executions.
unfoldable pub aggregate_executions : Tables → List Execution → List Aggregate → List Aggregate
aggregate_executions t [] rows = rows
aggregate_executions t (e ∷ es) rows =
    aggregate_executions t es (add_to_aggregates e (instrument_of t e) rows)

pub record StrategyPosition : Type 0 where
  pub venue : Venue
  pub instrument : ℕ
  pub strategy_quantity : ℕ
  pub weighted_price : ℕ
  pub multiplier : ℕ
  pub simulated : Bool

abbrev pub multiplier_of : Venue → ℕ
multiplier_of ibkr = 4167
multiplier_of polymarket = 1

-- The average entry price is the weighted price over the quantity, which is kept as the pair.
unfoldable pub position_of : Aggregate → StrategyPosition
position_of a = record {
  venue = a.venue;
  instrument = a.instrument;
  strategy_quantity = a.quantity;
  weighted_price = a.weighted_price;
  multiplier = multiplier_of a.venue;
  simulated = any (λ _. true) a.simulated_flags && all (λ s. s) a.simulated_flags;
}

-- The order of Python's `sorted` on the keys: the venue's name, then the instrument's.
abbrev pub precedes : Aggregate → Aggregate → Bool
precedes a b = elim a.venue [
  | ibkr ↦ elim b.venue [ ibkr ↦ ltb a.instrument b.instrument | polymarket ↦ true ]
  | polymarket ↦ elim b.venue [ ibkr ↦ false | polymarket ↦ ltb a.instrument b.instrument ]
]

unfoldable pub insert_sorted : Aggregate → List Aggregate → List Aggregate
insert_sorted a [] = a ∷ []
insert_sorted a (b ∷ bs) = if precedes b a then b ∷ insert_sorted a bs else a ∷ b ∷ bs

unfoldable pub sort_aggregates : List Aggregate → List Aggregate
sort_aggregates [] = []
sort_aggregates (a ∷ rows) = insert_sorted a (sort_aggregates rows)

unfoldable pub strategy_portfolio_positions : Opening → Tables → List StrategyPosition
strategy_portfolio_positions opening t = map position_of (
    filter (λ a. ltb 0 a.quantity)
      (sort_aggregates (aggregate_executions t t.executions (open_aggregates opening []))))
