-- ===== src/Portfolio/Valuation.antt =====
-- `value_strategy_portfolio` and `_venue_total`.
use poly_zq_trading.Prelude.{
  ℕ, List, [], ◌∷◌, Option, none, some, Bool, true, false, ◌&&◌, not, any, filter, find, map, ◌==◌,
  if◌then◌else◌,
}
use poly_zq_trading.Prelude.Int.{ℤ, pos, negsuc, ◌+ℤ◌, ◌-ℤ◌, ◌*ℤ◌}

pub data Venue : Type 0 where
  ibkr polymarket : Venue

pub data MarkSource : Type 0 where
  unavailable ibkr_live ibkr_unqualified polymarket_live polymarket_unsynchronized : MarkSource

pub record Position : Type 0 where
  pub venue : Venue
  pub instrument : ℕ
  pub label : ℕ
  pub strategy_quantity : ℤ
  pub average_entry_price : Option ℤ
  pub multiplier : ℤ
  pub mark_price : Option ℤ
  pub mark_source : MarkSource
  pub cost_basis : Option ℤ
  pub market_value : Option ℤ
  pub unrealized_pnl : Option ℤ
  pub mark_updated_at : Option ℕ

pub record Quote : Type 0 where
  pub instrument : ℕ
  pub bid : Option ℤ
  pub received_at : ℕ
  pub market_data_type : Option ℕ
  pub pretrade_qualified : Bool

pub record Book : Type 0 where
  pub token_id : ℕ
  pub best_bid : Option ℤ
  pub received_at : ℕ
  pub stream_synchronized : Bool

-- What the valuation reads of a snapshot.
pub record Market : Type 0 where
  pub quotes : List Quote
  pub books : List Book

pub record Mark : Type 0 where
  pub price : Option ℤ
  pub source : MarkSource
  pub updated_at : Option ℕ

abbrev pub no_mark : Mark
no_mark = record { price = none; source = MarkSource.unavailable; updated_at = none }

abbrev pub is_live_type : Option ℕ → Bool
is_live_type none = false
is_live_type (some n) = n == 1

abbrev pub mark_of_quote : Option Quote → Mark
mark_of_quote none = no_mark
mark_of_quote (some q) = elim q.bid [
  | none ↦ no_mark
  | some bid ↦ record {
    price = some bid;
    source =
        if is_live_type q.market_data_type && q.pretrade_qualified
        then MarkSource.ibkr_live
        else MarkSource.ibkr_unqualified;
    updated_at = some q.received_at;
  }
]

abbrev pub mark_of_book : Option Book → Mark
mark_of_book none = no_mark
mark_of_book (some b) = elim b.best_bid [
  | none ↦ no_mark
  | some bid ↦ record {
    price = some bid;
    source =
        if b.stream_synchronized
        then MarkSource.polymarket_live
        else MarkSource.polymarket_unsynchronized;
    updated_at = some b.received_at;
  }
]

-- The best bid of the position's instrument at its venue.
unfoldable pub mark_of : Market → Venue → ℕ → Mark
mark_of m Venue.ibkr instrument = mark_of_quote (find (λ q. q.instrument == instrument) m.quotes)
mark_of m Venue.polymarket instrument = mark_of_book (find (λ b. b.token_id == instrument) m.books)

abbrev pub is_zero : ℤ → Bool
is_zero (pos n) = n == 0
is_zero (negsuc n) = false

-- Cost basis, market value and profit; a position at IBKR has only the last.
pub record Amounts : Type 0 where
  pub cost_basis : Option ℤ
  pub market_value : Option ℤ
  pub unrealized_pnl : Option ℤ

abbrev pub no_amounts : Amounts
no_amounts = record { cost_basis = none; market_value = none; unrealized_pnl = none }

unfoldable pub amounts : Venue → ℤ → ℤ → Option ℤ → Option ℤ → Amounts
amounts Venue.ibkr quantity multiplier (some average) (some mark) = record no_amounts {
  unrealized_pnl = some ((mark -ℤ average) *ℤ multiplier *ℤ quantity);
}
amounts Venue.polymarket quantity multiplier (some average) (some mark) = record {
  cost_basis = some (average *ℤ quantity);
  market_value = some (mark *ℤ quantity);
  unrealized_pnl = some (mark *ℤ quantity -ℤ average *ℤ quantity);
}
amounts _ _ _ _ _ = no_amounts

unfoldable pub value_position : Market → Position → Position
value_position m p =
    let mark = mark_of m p.venue p.instrument in
    let known =
      if is_zero p.strategy_quantity
      then no_amounts
      else amounts p.venue p.strategy_quantity p.multiplier p.average_entry_price mark.price in
    record p {
      mark_price = mark.price;
      mark_source = mark.source;
      cost_basis = known.cost_basis;
      market_value = known.market_value;
      unrealized_pnl = known.unrealized_pnl;
      mark_updated_at = mark.updated_at;
    }

abbrev pub is_known : Option ℤ → Bool
is_known none = false
is_known (some _) = true

-- A position that counts and has no entry price or no mark.
unfoldable pub is_missing : Market → Position → Bool
is_missing m p =
    not (is_zero p.strategy_quantity)
    && not (is_known p.average_entry_price && is_known (mark_of m p.venue p.instrument).price)

abbrev pub same_venue : Venue → Venue → Bool
same_venue Venue.ibkr Venue.ibkr = true
same_venue Venue.polymarket Venue.polymarket = true
same_venue _ _ = false

abbrev pub counts_at : Venue → Position → Bool
counts_at v p = same_venue p.venue v && not (is_zero p.strategy_quantity)

abbrev pub or_zero : Option ℤ → ℤ
or_zero none = pos 0
or_zero (some a) = a

unfoldable pub sum_pnl : List Position → ℤ
sum_pnl [] = pos 0
sum_pnl (p ∷ ps) = or_zero p.unrealized_pnl +ℤ sum_pnl ps

unfoldable pub venue_total : List Position → Venue → Option ℤ
venue_total ps v =
    let relevant = filter (counts_at v) ps in
    if any (λ p. not (is_known p.unrealized_pnl)) relevant then none else some (sum_pnl relevant)

pub data Reason : Type 0 where
  no_positions none_attributed all_marked : Reason
  missing_marks : List ℕ → Reason

unfoldable pub reason_of : List Position → List ℕ → Reason
reason_of [] labels = no_positions
reason_of (p ∷ ps) labels = elim (filter (λ q. not (is_zero q.strategy_quantity)) (p ∷ ps)) [
  | [] ↦ none_attributed
  | _ ∷ _ ↦ elim labels [ [] ↦ all_marked | label ∷ rest ↦ missing_marks (label ∷ rest) ]
]

pub record PortfolioView : Type 0 where
  pub positions : List Position
  pub zq_unrealized_pnl : Option ℤ
  pub polymarket_unrealized_pnl : Option ℤ
  pub combined_unrealized_pnl : Option ℤ
  pub valuation_complete : Bool
  pub valuation_reason : Reason

abbrev pub combine : Option ℤ → Option ℤ → Option ℤ
combine (some a) (some b) = some (a +ℤ b)
combine _ _ = none

abbrev pub is_empty : List ℕ → Bool
is_empty [] = true
is_empty (_ ∷ _) = false

unfoldable pub value_strategy_portfolio : Market → List Position → PortfolioView
value_strategy_portfolio m source =
    let positions = map (value_position m) source in
    let labels = map (λ p. p.label) (filter (is_missing m) source) in
    let zq = venue_total positions Venue.ibkr in
    let poly = venue_total positions Venue.polymarket in
    record {
      positions = positions;
      zq_unrealized_pnl = zq;
      polymarket_unrealized_pnl = poly;
      combined_unrealized_pnl = combine zq poly;
      valuation_complete = is_empty labels;
      valuation_reason = reason_of positions labels;
    }
