-- ===== src/Stream/Snapshots.antt =====
-- A snapshot of a book, with the check that every book passes; `none` is a `PolymarketProtocolError`.
use poly_zq_trading.Prelude.{
  ℕ, List, [], ◌∷◌, Option, none, some, Bool, true, false, ◌&&◌, ◌||◌, not, all, find, ltb, leb,
  ◌==◌, if◌then◌else◌,
}
use poly_zq_trading.Prelude.Int.{pos}
use poly_zq_trading.Analytics.Units.{one}
use poly_zq_trading.Book.Types.{BookLevel, best_bid_of, best_ask_of}
use poly_zq_trading.Book.Walk.{sort_levels}
use poly_zq_trading.Stream.Types.{websocket, StreamBook, RawLevel, level, BookSnapshot, StreamEvent}

-- `_levels`, before its sort: entries without a positive price and size are passed over.
unfoldable pub read_levels : List RawLevel → List BookLevel
read_levels [] = []
read_levels (level (pos price) (pos size) ∷ ls) =
    let rest = read_levels ls in
    if (price == 0) || (size == 0) then rest else (record { price = price; size = size }) ∷ rest
read_levels (_ ∷ ls) = read_levels ls

-- The stable sort with `reverse=True`.
unfoldable pub insert_falling : BookLevel → List BookLevel → List BookLevel
insert_falling l [] = l ∷ []
insert_falling l (m ∷ ms) = if leb m.price l.price then l ∷ m ∷ ms else m ∷ insert_falling l ms

unfoldable pub sort_falling : List BookLevel → List BookLevel
sort_falling [] = []
sort_falling (l ∷ ls) = insert_falling l (sort_falling ls)

abbrev pub find_book : ℕ → List StreamBook → Option StreamBook
find_book token = find (λ b. b.token_id == token)

abbrev pub is_price : BookLevel → Bool
is_price l = ltb 0 l.price && ltb l.price one && ltb 0 l.size

abbrev pub crosses : Option ℕ → Option ℕ → Bool
crosses (some bid) (some ask) = leb ask bid
crosses _ _ = false

-- `_validate_book`
unfoldable pub validate_book : StreamBook → Option StreamBook
validate_book b =
    if not (all is_price b.bids && all is_price b.asks)
    then none
    else if crosses (best_bid_of b.bids) (best_ask_of b.asks)
    then none
    else some b

abbrev pub or_existing {ℓ} :
    {A : Type ℓ} → Option A → (StreamBook → Option A) → Option StreamBook → Option A
or_existing (some a) field existing = some a
or_existing none field none = none
or_existing none field (some b) = field b

-- The market of the book that is there wins.
abbrev pub market_of : Option ℕ → Option StreamBook → Option ℕ
market_of given none = given
market_of given (some b) = b.market

abbrev pub reconciled_at : Option StreamBook → Option ℕ
reconciled_at none = none
reconciled_at (some b) = b.last_reconciled_at

unfoldable pub snapshot_book : StreamEvent → BookSnapshot → Option StreamBook → StreamBook
snapshot_book e s existing = record {
  token_id = s.token_id;
  market = market_of s.market existing;
  bids = sort_falling (read_levels s.bids);
  asks = sort_levels (read_levels s.asks);
  tick_size = or_existing s.tick_size (λ b. b.tick_size) existing;
  min_order_size = or_existing s.min_order_size (λ b. b.min_order_size) existing;
  negative_risk = or_existing s.neg_risk (λ b. b.negative_risk) existing;
  book_hash = s.hash;
  source = websocket;
  stream_synchronized = true;
  source_timestamp = e.source_timestamp;
  last_reconciled_at = reconciled_at existing;
  received_at = e.received_at;
}

abbrev pub single : Option StreamBook → Option (List StreamBook)
single none = none
single (some b) = some (b ∷ [])
