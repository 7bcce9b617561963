-- ===== src/Stream/Types.antt =====
-- The books, and the events of the market stream with their fields read.
-- Texts that are only compared are numbers; a missing token is 0. Sizes count `Units.one_share`,
-- prices and ticks 10^-10.
use poly_zq_trading.Prelude.{ℕ, List, Option, Bool}
use poly_zq_trading.Prelude.Int.{ℤ}
use poly_zq_trading.Domain.Enums.{Side}
use poly_zq_trading.Ledger.Types.{Number}
use poly_zq_trading.Book.Types.{BookLevel}

pub data Source : Type 0 where
  rest websocket : Source

pub record StreamBook : Type 0 where
  pub token_id : ℕ
  pub market : Option ℕ
  pub bids : List BookLevel
  pub asks : List BookLevel
  pub tick_size : Option ℤ
  pub min_order_size : Option ℤ
  pub negative_risk : Option Bool
  pub book_hash : Option ℕ
  pub source : Source
  pub stream_synchronized : Bool
  pub source_timestamp : Option ℕ
  pub last_reconciled_at : Option ℕ
  pub received_at : ℕ

-- An entry of a ladder: its price and size where they are numbers, or something else. A number of
-- a ladder is finite here.
pub data RawLevel : Type 0 where
  level : ℤ → ℤ → RawLevel
  no_level : RawLevel

pub record BookSnapshot : Type 0 where
  pub token_id : ℕ
  pub market : Option ℕ
  pub bids : List RawLevel
  pub asks : List RawLevel
  pub tick_size : Option ℤ
  pub min_order_size : Option ℤ
  pub neg_risk : Option Bool
  pub hash : Option ℕ

pub record Change : Type 0 where
  pub token_id : ℕ
  pub price : Option Number
  pub size : Option Number
  pub side : Option Side
  pub hash : Option ℕ

-- An element of `price_changes`.
pub data RawChange : Type 0 where
  change : Change → RawChange
  no_object : RawChange

pub data Payload : Type 0 where
  book : BookSnapshot → Payload
  price_change : Option (List RawChange) → Payload
  tick_size_change : ℕ → Option ℤ → Payload
  other : Payload

pub record StreamEvent : Type 0 where
  pub payload : Payload
  pub source_timestamp : Option ℕ
  pub received_at : ℕ
