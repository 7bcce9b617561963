-- ===== src/Stream/Ladders/Committed.antt =====
-- The books that a message of price changes commits.
use poly_zq_trading.Prelude.{
  ℕ, ◌≡◌, sym, ap, subst, ◌∙◌, List, [], ◌∷◌, Option, some, true, false, ◌&&◌, All, all, ◌==◌,
  ==_iff, arith, Bool-cases, Option-cases, inl, inr,
}
use poly_zq_trading.Domain.Enums.{Side, buy, sell}
use poly_zq_trading.Book.Types.{best_bid_of, best_ask_of}
use poly_zq_trading.Stream.Types.{StreamBook, RawChange, StreamEvent, Payload}
use poly_zq_trading.Stream.Snapshots.{find_book, is_price, validate_book, crosses}
use poly_zq_trading.Stream.Update.{
  ladder, Changing, apply_changes, changed_book, commit_books, no_changes, update_prices,
  update_payload, update_books_from_stream_event,
}
use poly_zq_trading.Stream.Ladders.{level_at, AreDistinct}
use poly_zq_trading.Stream.Ladders.Quoted.{quoted, changed-at}
use poly_zq_trading.Ledger.Refresh.Accounted.{find-true}

-- Each ladder of the books has a price once.
abbrev pub HaveDistinctLadders : List StreamBook → Type 0
HaveDistinctLadders = All (λ b. AreDistinct b.bids × AreDistinct b.asks)

-- A committed book: its current book, changed at each price of each side as the message says,
-- with prices inside (0, 1), positive sizes, and the best bid under the best ask.
pub record IsQuoted (books : List StreamBook) (cs : List RawChange) (b : StreamBook) : Type 0 where
  pub current : StreamBook
  pub found : find_book b.token_id books ≡ some current
  pub offers :
      (side : Side) (p : ℕ)
      → level_at p (ladder side b) ≡ quoted b.token_id side p cs (level_at p (ladder side current))
  pub priced : (all is_price b.bids && all is_price b.asks) ≡ true
  pub uncrossed : crosses (best_bid_of b.bids) (best_ask_of b.asks) ≡ false

found-distinct :
    (token : ℕ) (b : StreamBook) (books : List StreamBook)
    → find_book token books ≡ some b
    → HaveDistinctLadders books
    → AreDistinct b.bids × AreDistinct b.asks
found-distinct token b [] h own = absurd (ground arith)
found-distinct token b (c ∷ cs) h (first, rest) = elim (Bool-cases (c.token_id == token)) [
  | inl e ↦
      let row : c ≡ b = ground (arith, e) in
      subst (λ (r : StreamBook). AreDistinct r.bids × AreDistinct r.asks) row first
  | inr e ↦ found-distinct token b cs (ground (arith, e)) rest
]

validated :
    (b b' : StreamBook)
    → validate_book b ≡ some b'
    → (b ≡ b')
      × ((all is_price b.bids && all is_price b.asks) ≡ true)
      × (crosses (best_bid_of b.bids) (best_ask_of b.asks) ≡ false)
unfolding validate_book
validated b b' h = (ground arith, ground arith, ground arith)

module _ (books : List StreamBook) (e : StreamEvent) (cs : List RawChange) (s : Changing)
    (applied : apply_changes books cs no_changes ≡ some s) (own : HaveDistinctLadders books) where
  changed-IsQuoted :
      (token : ℕ) (hash : Option ℕ) (current b : StreamBook)
      → find_book token books ≡ some current
      → validate_book (changed_book e token hash s.tables current) ≡ some b
      → IsQuoted books cs b
  unfolding changed_book
  changed-IsQuoted token hash current b found valid =
      let (same, priced, uncrossed) =
        validated (changed_book e token hash s.tables current) b valid in
      let row = find-true (λ (r : StreamBook). r.token_id == token) current books found in
      let named : current.token_id ≡ token = (==_iff current.token_id token).0 row in
      subst (IsQuoted books cs) same (record {
        current = current;
        found = subst (λ (k : ℕ). find_book k books ≡ some current) (sym named) found;
        offers = λ side p.
            subst
              (λ (k : ℕ).
                level_at p (ladder side (changed_book e token hash s.tables current))
                ≡ quoted k side p cs (level_at p (ladder side current)))
              (sym named) (offers_lem side p (found-distinct token current books found own));
        priced = priced;
        uncrossed = uncrossed;
      })
    where
      offers_lem :
          (side : Side) (p : ℕ)
          → AreDistinct current.bids × AreDistinct current.asks
          → level_at p (ladder side (changed_book e token hash s.tables current))
            ≡ quoted token side p cs (level_at p (ladder side current))
      offers_lem buy p (bids, asks) = changed-at books token buy p current found cs s applied bids
      offers_lem sell p (bids, asks) = changed-at books token sell p current found cs s applied asks

  committed-IsQuoted :
      (hashes : List (ℕ × Option ℕ)) (out : List StreamBook)
      → commit_books e books s.tables hashes ≡ some out
      → All (IsQuoted books cs) out
  unfolding commit_books
  committed-IsQuoted [] out h =
      let none_left : [] ≡ out = ground arith in subst (All (IsQuoted books cs)) none_left tt
  committed-IsQuoted ((token, hash) ∷ rest) out h = elim (Option-cases (find_book token books)) [
    | inl missing ↦ absurd (ground (arith, missing))
    | inr (current, found) ↦
        elim (Option-cases (validate_book (changed_book e token hash s.tables current))) [
          | inl bad ↦ absurd (ground (arith, found, bad))
          | inr (b, valid) ↦ elim (Option-cases (commit_books e books s.tables rest)) [
            | inl bad ↦ absurd (ground (arith, found, valid, bad))
            | inr (others, done) ↦
                let all_out : (b ∷ others) ≡ out = ground (arith, found, valid, done) in
                subst (All (IsQuoted books cs)) all_out (
                  changed-IsQuoted token hash current b found valid,
                  committed-IsQuoted rest others done,
                )
          ]
        ]
  ]

update_prices-IsQuoted :
    (books : List StreamBook) (e : StreamEvent) (cs : List RawChange) (out : List StreamBook)
    → HaveDistinctLadders books
    → update_prices books e cs ≡ some out
    → All (IsQuoted books cs) out
unfolding update_prices
update_prices-IsQuoted books e cs out own h =
    elim (Option-cases (apply_changes books cs no_changes)) [
      | inl bad ↦ absurd (ground (arith, bad))
      | inr (s, applied) ↦
          committed-IsQuoted books e cs s applied own s.hashes out (ground (arith, applied))
    ]

-- A message of price changes, on books whose ladders have each price once, commits books that
-- offer at each price of each side what the changes of the message, applied one after the other,
-- leave there: the size of the last change at that price, and what the current book offers where
-- the message has none. Their prices lie inside (0, 1), their sizes are positive and their best
-- bid is under their best ask, also where the message crosses the book halfway.
pub update_books_from_stream_event-IsQuoted :
    (books : List StreamBook) (e : StreamEvent) (cs : List RawChange) (out : List StreamBook)
    → HaveDistinctLadders books
    → e.payload ≡ Payload.price_change (some cs)
    → update_books_from_stream_event books e ≡ some out
    → All (IsQuoted books cs) out
unfolding update_books_from_stream_event
update_books_from_stream_event-IsQuoted books e cs out own message h =
    update_prices-IsQuoted books e cs out own
      (ap (λ (m : Payload). update_payload m books e) (sym message) ∙ h)
