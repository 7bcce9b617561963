-- ===== src/Stream/Examples.antt =====
-- A message that crosses the book halfway and leaves it uncrossed.
use poly_zq_trading.Prelude.{◌≡◌, refl, List, [], ◌∷◌, none, some, true, All}
use poly_zq_trading.Prelude.Int.{pos}
use poly_zq_trading.Domain.Enums.{buy, sell}
use poly_zq_trading.Ledger.Types.{finite}
use poly_zq_trading.Book.Types.{best_bid_of, best_ask_of}
use poly_zq_trading.Book.Walk.{insert_level, sort_levels}
use poly_zq_trading.Stream.Types.{rest, StreamBook, RawChange, change, Payload, StreamEvent}
use poly_zq_trading.Stream.Snapshots.{validate_book, insert_falling, sort_falling}
use poly_zq_trading.Stream.Update.{
  update_books_from_stream_event, update_prices, apply_changes, apply_change, write_change,
  put_table, put_hash, table_of, table_from, put_level, commit_books, changed_book,
}
use poly_zq_trading.Stream.Ladders.Committed.{IsQuoted, update_books_from_stream_event-IsQuoted}

-- 0.30 bid and 0.32 offered.
abbrev current : StreamBook
current = record {
  token_id = 6;
  market = some 1;
  bids = (record { price = 3000000000; size = 500 }) ∷ [];
  asks = (record { price = 3200000000; size = 700 }) ∷ [];
  tick_size = some (pos 100000000);
  min_order_size = none;
  negative_risk = none;
  book_hash = none;
  source = rest;
  stream_synchronized = true;
  source_timestamp = none;
  last_reconciled_at = none;
  received_at = 0;
}

-- A bid at 0.33 comes before the offer at 0.32 goes.
abbrev changes : List RawChange
changes =
    change (record {
      token_id = 6;
      price = some (finite (pos 3300000000));
      size = some (finite (pos 40));
      side = some buy;
      hash = none;
    })
    ∷ change (record {
      token_id = 6;
      price = some (finite (pos 3200000000));
      size = some (finite (pos 0));
      side = some sell;
      hash = some 9;
    })
    ∷ []

abbrev event : StreamEvent
event = record {
  payload = Payload.price_change (some changes);
  source_timestamp = some 4;
  received_at = 5;
}

updated : (out : List StreamBook) × (update_books_from_stream_event (current ∷ []) event ≡ some out)
unfolding update_books_from_stream_event update_prices apply_changes apply_change write_change
    put_table put_hash table_of table_from put_level commit_books changed_book validate_book
    best_bid_of best_ask_of insert_falling sort_falling insert_level sort_levels
updated = (_, refl)

update_books_from_stream_event-IsQuoted_example : All (IsQuoted (current ∷ []) changes) updated.0
update_books_from_stream_event-IsQuoted_example =
    update_books_from_stream_event-IsQuoted (current ∷ []) event changes updated.0
      (((refl, tt), (refl, tt)), tt) refl updated.1
