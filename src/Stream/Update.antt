-- ===== src/Stream/Update.antt =====
-- The update; `none` is a `PolymarketProtocolError`.
use poly_zq_trading.Stream.Snapshots.{sort_falling, find_book, validate_book, snapshot_book, single}
use poly_zq_trading.Prelude.{
  ℕ, List, [], ◌∷◌, Option, none, some, Bool, true, false, ◌&&◌, ◌||◌, not, filter, find, ltb, ◌==◌,
  ◌>>=◌, if◌then◌else◌,
}
use poly_zq_trading.Prelude.Int.{ℤ, pos, leb_ℤ}
use poly_zq_trading.Domain.Enums.{Side, buy, sell}
use poly_zq_trading.Ledger.Types.{Number, finite}
use poly_zq_trading.Analytics.Units.{one}
use poly_zq_trading.Book.Types.{BookLevel}
use poly_zq_trading.Book.Walk.{sort_levels}
use poly_zq_trading.Stream.Types.{
  websocket, StreamBook, Change, RawChange, change, no_object, Payload, StreamEvent,
}

-- A dictionary of levels by price.
unfoldable pub put_level : BookLevel → List BookLevel → List BookLevel
put_level l [] = l ∷ []
put_level l (m ∷ ms) = if m.price == l.price then l ∷ ms else m ∷ put_level l ms

unfoldable pub table_from : List BookLevel → List BookLevel → List BookLevel
table_from [] table = table
table_from (l ∷ ls) table = table_from ls (put_level l table)

abbrev pub set_level : ℕ → ℕ → List BookLevel → List BookLevel
set_level price size table =
    if size == 0
    then filter (λ l. not (l.price == price)) table
    else put_level (record { price = price; size = size }) table

pub record SideTable : Type 0 where
  pub token_id : ℕ
  pub side : Side
  pub levels : List BookLevel

abbrev pub same_side : Side → Side → Bool
same_side buy buy = true
same_side sell sell = true
same_side _ _ = false

abbrev pub is_key : ℕ → Side → SideTable → Bool
is_key token side t = (t.token_id == token) && same_side t.side side

abbrev pub ladder : Side → StreamBook → List BookLevel
ladder buy b = b.bids
ladder sell b = b.asks

-- The table of a side: as changed so far, or that of the current book.
unfoldable pub table_of : ℕ → Side → List SideTable → StreamBook → List BookLevel
table_of token side tables current = elim (find (is_key token side) tables) [
  | some t ↦ t.levels
  | none ↦ table_from (ladder side current) []
]

unfoldable pub put_table : SideTable → List SideTable → List SideTable
put_table t [] = t ∷ []
put_table t (u ∷ us) = if is_key t.token_id t.side u then t ∷ us else u ∷ put_table t us

unfoldable pub put_hash : ℕ → Option ℕ → List (ℕ × Option ℕ) → List (ℕ × Option ℕ)
put_hash token hash [] = (token, hash) ∷ []
put_hash token hash ((t, h) ∷ rest) =
    if t == token then (token, hash) ∷ rest else (t, h) ∷ put_hash token hash rest

-- The price and the size of a change that is valid.
abbrev pub valid_price : Option Number → Option ℕ
valid_price (some (finite (pos p))) = if ltb 0 p && ltb p one then some p else none
valid_price _ = none

abbrev pub valid_size : Option Number → Option ℕ
valid_size (some (finite (pos n))) = some n
valid_size _ = none

pub record Changing : Type 0 where
  pub tables : List SideTable
  pub hashes : List (ℕ × Option ℕ)

abbrev pub hash_or : Option ℕ → Option ℕ → Option ℕ
hash_or (some h) old = some h
hash_or none old = old

unfoldable pub write_change : Change → StreamBook → ℕ → ℕ → Side → Changing → Changing
write_change c current price size side s = record {
  tables =
      put_table
        (record {
          token_id = c.token_id;
          side = side;
          levels = set_level price size (table_of c.token_id side s.tables current);
        })
        s.tables;
  hashes = put_hash c.token_id (hash_or c.hash current.book_hash) s.hashes;
}

-- A change needs a complete and synchronized book.
abbrev pub synchronized : ℕ → Option StreamBook → Option StreamBook
synchronized token none = none
synchronized token (some b) = if (token == 0) || not b.stream_synchronized then none else some b

unfoldable pub apply_change : List StreamBook → RawChange → Changing → Option Changing
apply_change books no_object s = none
apply_change books (change c) s = do
  current ← synchronized c.token_id (find_book c.token_id books)
  price ← valid_price c.price
  size ← valid_size c.size
  side ← c.side
  some (write_change c current price size side s)

unfoldable pub apply_changes : List StreamBook → List RawChange → Changing → Option Changing
apply_changes books [] s = some s
apply_changes books (c ∷ cs) s = apply_change books c s >>= apply_changes books cs

-- The sides that changed, sorted; another side stays as it was.
abbrev pub sorted_side : ℕ → Side → List SideTable → StreamBook → List BookLevel
sorted_side token buy tables b = elim (find (is_key token buy) tables) [
  | some t ↦ sort_falling t.levels
  | none ↦ b.bids
]
sorted_side token sell tables b = elim (find (is_key token sell) tables) [
  | some t ↦ sort_levels t.levels
  | none ↦ b.asks
]

unfoldable pub changed_book : StreamEvent → ℕ → Option ℕ → List SideTable → StreamBook → StreamBook
changed_book e token hash tables b = record b {
  bids = sorted_side token buy tables b;
  asks = sorted_side token sell tables b;
  book_hash = hash;
  source = websocket;
  source_timestamp = e.source_timestamp;
  received_at = e.received_at;
}

-- The commit, book by book.
unfoldable pub commit_books :
    StreamEvent → List StreamBook → List SideTable → List (ℕ × Option ℕ) → Option (List StreamBook)
commit_books e books tables [] = some []
commit_books e books tables ((token, hash) ∷ rest) = do
  current ← find_book token books
  updated ← validate_book (changed_book e token hash tables current)
  others ← commit_books e books tables rest
  some (updated ∷ others)

abbrev pub no_changes : Changing
no_changes = record { tables = []; hashes = [] }

unfoldable pub update_prices :
    List StreamBook → StreamEvent → List RawChange → Option (List StreamBook)
update_prices books e cs = do
  s ← apply_changes books cs no_changes
  commit_books e books s.tables s.hashes

abbrev pub positive_tick : Option ℤ → Option ℤ
positive_tick none = none
positive_tick (some t) = if leb_ℤ t (pos 0) then none else some t

unfoldable pub update_tick : List StreamBook → StreamEvent → ℕ → Option ℤ → Option (List StreamBook)
update_tick books e token tick = do
  current ← find_book token books
  t ← positive_tick tick
  some (
      (record current {
        tick_size = some t;
        source = websocket;
        source_timestamp = e.source_timestamp;
        received_at = e.received_at;
      })
      ∷ [])

abbrev pub update_payload : Payload → List StreamBook → StreamEvent → Option (List StreamBook)
update_payload (Payload.book s) books e =
    if s.token_id == 0
    then none
    else single (validate_book (snapshot_book e s (find_book s.token_id books)))
update_payload (Payload.price_change none) books e = none
update_payload (Payload.price_change (some cs)) books e = update_prices books e cs
update_payload (Payload.tick_size_change token tick) books e = update_tick books e token tick
update_payload Payload.other books e = some []

unfoldable pub update_books_from_stream_event :
    List StreamBook → StreamEvent → Option (List StreamBook)
update_books_from_stream_event books e = update_payload e.payload books e
