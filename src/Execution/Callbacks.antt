-- ===== src/Execution/Callbacks.antt =====
-- `_classify_ibkr_callbacks`: the differences that a gap in the broker's callbacks explains.
use poly_zq_trading.Prelude.{
  ℕ, ◌+◌, ◌-◌, List, [], ◌∷◌, Option, none, some, Bool, true, false, ◌&&◌, ◌||◌, not, any, filter,
  map, contains, ltb, leb, ◌==◌, if◌then◌else◌,
}
use poly_zq_trading.Prelude.Int.{ℤ, pos, ◌+ℤ◌, ◌-ℤ◌, sub_ℕ, ltb_ℤ, leb_ℤ, pos_part, neg_part}
use poly_zq_trading.Ledger.Types.{OrderId, venue_id, Tables}
use poly_zq_trading.Ledger.Queries.{equals_some}
use poly_zq_trading.Ledger.Receipts.{VenueEvent, is_some}
use poly_zq_trading.Repository.Entry.{is_intent}
use poly_zq_trading.Repository.Status.{is_final, ZqOrderProgress, ibkr_order_progress}
use poly_zq_trading.Repository.Positions.{Opening, strategy_zq_quantity}
use poly_zq_trading.Execution.Types.{IbkrAccount, Gap, Coordinator, all_complete, gap_started}
use poly_zq_trading.Execution.Differences.{
  zq_position_mismatch, ibkr_unrecorded_fills, ibkr_unconfirmed_completion, ibkr_terminal_conflicts,
  VenueDifferences, Keys, no_keys, has, has_any, ibkr_keys, is_set,
}
use poly_zq_trading.Execution.Safety.{emit, expire_ibkr_gap, finish_ibkr_gap, is_due}

pub record ReconcileSettings : Type 0 where
  pub ibkr_zq_contract_month : ℕ
  pub simulate_polymarket_fills : Bool
  pub ibkr_callback_settle_seconds : ℕ
  pub ibkr_account_refresh_timeout_seconds : ℕ
  pub reconciliation_max_age_seconds : ℕ

-- The loop's clock and the wall clock.
pub record Clocks : Type 0 where
  pub loop_time : ℕ
  pub now : ℕ

-- What the repository answers from.
pub record LedgerStore : Type 0 where
  pub tables : Tables
  pub events : List VenueEvent
  pub opening : Opening

-- `int(venue_order_id)`
abbrev pub number_of : OrderId → ℕ
number_of (venue_id n) = n
number_of _ = 0

-- `sum(positions.values(), Decimal("0"))`
unfoldable pub total : List (ℕ × ℤ) → ℤ
total [] = pos 0
total ((_, n) ∷ rest) = n +ℤ total rest

abbrev pub observed_zq_position : IbkrAccount → ℤ
observed_zq_position a = total a.positions

-- The position of a complete read; or else, after a clean reconciliation, that of the live stream.
unfoldable pub observed_by_callbacks : IbkrAccount → Option ℤ
observed_by_callbacks a =
    if all_complete a.complete then some (observed_zq_position a) else elim a.matched_zq [
      | none ↦ none
      | some _ ↦ elim a.callback_positions [ none ↦ none | some ps ↦ some (total ps) ]
    ]

abbrev pub is_outstanding : ZqOrderProgress → Bool
is_outstanding p = ltb p.executed p.reported

abbrev pub is_incomplete : ZqOrderProgress → Bool
is_incomplete p = (p.executed == p.quantity) && not (is_final p.state)

unfoldable pub same_ℤ : ℤ → ℤ → Bool
same_ℤ a b = pos_part a + neg_part b == pos_part b + neg_part a

-- The differences with the evidence of the callbacks.
unfoldable pub callback_differences :
    List ZqOrderProgress → IbkrAccount → ℕ → ℤ → VenueDifferences → VenueDifferences
callback_differences progress a expected observed d = record d {
  unrecorded_fills =
      map (λ p. (number_of p.order_id, p.reported - p.executed)) (filter is_outstanding progress);
  unconfirmed_completion = map (λ p. number_of p.order_id) (filter is_incomplete progress);
  terminal_conflicts = a.terminal_conflicts;
  zq_position = if same_ℤ observed (pos expected) then d.zq_position else some (expected, observed);
}

-- The anchor moves with a position that agrees while no fill is outstanding.
unfoldable pub move_anchor : List ZqOrderProgress → ℕ → ℤ → IbkrAccount → IbkrAccount
move_anchor progress expected observed a =
    if is_set a.matched_zq && same_ℤ observed (pos expected) && not (any is_outstanding progress)
    then record a { matched_zq = some expected }
    else a

abbrev pub is_working : ZqOrderProgress → Bool
is_working p = not (is_final p.state || is_intent p.state) || is_outstanding p

-- What the known orders may still fill.
unfoldable pub capacity : List ZqOrderProgress → ℤ
capacity [] = pos 0
capacity (p ∷ ps) =
    let rest = capacity ps in if is_working p then sub_ℕ p.quantity p.executed +ℤ rest else rest

-- The observed position lies above the ledger's by no more than the orders may fill, or between
-- the anchor and the ledger's.
unfoldable pub is_explained : Option ℕ → ℕ → ℤ → ℤ → Bool
is_explained none expected observed room = false
is_explained (some matched) expected observed room =
    (ltb_ℤ (pos 0) (observed -ℤ pos expected)
      && leb_ℤ (observed -ℤ pos expected) room
      && leb matched expected)
    || (leb_ℤ (pos matched) observed && ltb_ℤ observed (pos expected))

unfoldable pub candidates : IbkrAccount → Bool → VenueDifferences → Keys
candidates a explained d ibkr_unrecorded_fills = has d ibkr_unrecorded_fills
candidates a explained d ibkr_unconfirmed_completion = has d ibkr_unconfirmed_completion
candidates a explained d ibkr_terminal_conflicts =
    has d ibkr_terminal_conflicts
    && not (is_some a.refresh_conflicts && not a.reconciliation_in_progress)
candidates a explained d zq_position_mismatch = explained
candidates a explained d _ = false

abbrev pub is_gap_order : List ℕ → ZqOrderProgress → Bool
is_gap_order conflicts p =
    not (is_final p.state) || is_outstanding p || contains (number_of p.order_id) conflicts

unfoldable pub open_gap :
    ReconcileSettings → Clocks → List ZqOrderProgress → ℕ → ℤ → Coordinator → Coordinator
open_gap s t progress expected observed c = emit gap_started (record c {
  gap = record c.gap {
    gap = some (record {
      expected = expected;
      observed = observed;
      order_ids =
          map (λ p. number_of p.order_id)
            (filter (is_gap_order c.ibkr.terminal_conflicts) progress);
      first_seen_at = t.now;
      refresh_serial = c.ibkr.completed_refresh_serial;
    });
    deadline = some (t.loop_time + s.ibkr_callback_settle_seconds);
  };
  ibkr = record c.ibkr { refresh_requested = true };
})

-- A gap starts at the first candidate after a clean reconciliation.
unfoldable pub start_gap :
    ReconcileSettings → Clocks → List ZqOrderProgress → ℕ → ℤ → Bool → Coordinator → Coordinator
start_gap s t progress expected observed found c =
    if found && is_set c.ibkr.matched_zq && not (is_set c.gap.gap)
    then open_gap s t progress expected observed c
    else c

-- The candidates, while the gap is open, in time, and not contradicted by a later complete read.
abbrev pub allowed_in : Option Gap → Bool → ℕ → Keys → Keys
allowed_in none expired serial keys = no_keys
allowed_in (some g) expired serial keys =
    if expired then no_keys else if ltb g.refresh_serial serial then no_keys else keys

unfoldable pub allowed : Coordinator → Keys → Keys
allowed c = allowed_in c.gap.gap c.gap.expired c.ibkr.completed_refresh_serial

pub record Classified : Type 0 where
  pub transient : Keys
  pub differences : VenueDifferences
  pub after : Coordinator

abbrev pub any_key : Keys → Bool
any_key keys = any keys ibkr_keys

abbrev pub with_gap : Keys → VenueDifferences → Coordinator → Classified
with_gap keys d c = record { transient = allowed c keys; differences = d; after = c }

-- The end of the gap where no difference is left, or its start where there are candidates.
abbrev pub settle_gap_left :
    Bool
    → ReconcileSettings
    → Clocks
    → List ZqOrderProgress
    → ℕ
    → ℤ
    → Keys
    → VenueDifferences
    → Coordinator
    → Classified
settle_gap_left false s t progress expected observed keys d c = record {
  transient = no_keys;
  differences = d;
  after = finish_ibkr_gap c;
}
settle_gap_left true s t progress expected observed keys d c =
    with_gap keys d (start_gap s t progress expected observed (any_key keys) c)

unfoldable pub settle_gap :
    ReconcileSettings
    → Clocks
    → List ZqOrderProgress
    → ℕ
    → ℤ
    → Keys
    → VenueDifferences
    → Coordinator
    → Classified
settle_gap s t progress expected observed keys d c =
    settle_gap_left (has_any ibkr_keys no_keys d) s t progress expected observed keys d c

-- The orders of the month.
unfoldable pub month_progress : ReconcileSettings → LedgerStore → List ZqOrderProgress
month_progress s store =
    filter (λ p. equals_some p.contract_month s.ibkr_zq_contract_month)
      (ibkr_order_progress store.tables)

abbrev pub expected_zq : ReconcileSettings → LedgerStore → ℕ
expected_zq s store = strategy_zq_quantity s.ibkr_zq_contract_month store.opening store.tables

-- With the evidence, once an observed position is known.
unfoldable pub classify :
    ReconcileSettings → Clocks → LedgerStore → ℤ → VenueDifferences → Coordinator → Classified
classify s t store observed d c =
    let progress = month_progress s store in
    let expected = expected_zq s store in
    let d' = callback_differences progress c.ibkr expected observed d in
    let c' = record c { ibkr = move_anchor progress expected observed c.ibkr } in
    let explained = is_explained c'.ibkr.matched_zq expected observed (capacity progress) in
    settle_gap s t progress expected observed (candidates c'.ibkr explained d') d' c'

abbrev pub classify_observed :
    ReconcileSettings
    → Clocks
    → LedgerStore
    → Option ℤ
    → VenueDifferences
    → Coordinator
    → Classified
classify_observed s t store none d c = record { transient = no_keys; differences = d; after = c }
classify_observed s t store (some observed) d c = classify s t store observed d c

abbrev pub expire_due : Clocks → Coordinator → Coordinator
expire_due t c = if is_due c.gap.deadline t.loop_time then expire_ibkr_gap c else c

unfoldable pub classify_ibkr_callbacks :
    ReconcileSettings → Clocks → LedgerStore → VenueDifferences → Coordinator → Classified
classify_ibkr_callbacks s t store d c =
    let c' = expire_due t c in classify_observed s t store (observed_by_callbacks c'.ibkr) d c'
