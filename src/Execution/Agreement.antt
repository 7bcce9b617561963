-- ===== src/Execution/Agreement.antt =====
-- What a clean reconciliation means, and that the differences are empty just then.
use poly_zq_trading.Prelude.{
  ℕ, ◌≤◌, List, [], ◌∷◌, ◌++◌, none, true, false, not, filter, map, contains, length, ltb, ◌==◌,
  ==_iff, All, ◌≡◌, ◌↔◌, ◌⊎◌, refl, sym, subst, ◌∙◌, inl, inr, arith, Bool-cases,
}
use poly_zq_trading.Prelude.Int.{ℤ, pos, eq_of_parts}
use poly_zq_trading.Ledger.Types.{OrderId, Obligation}
use poly_zq_trading.Ledger.Queries.{has_id, is_polymarket}
use poly_zq_trading.Ledger.Receipts.{is_empty, is_some}
use poly_zq_trading.Ledger.Safety.{IsSettled}
use poly_zq_trading.Repository.Status.{is_final, ZqOrderProgress}
use poly_zq_trading.Repository.Positions.{StrategyPosition, strategy_portfolio_positions}
use poly_zq_trading.Execution.Types.{Coordinator}
use poly_zq_trading.Execution.Differences.{VenueDifferences, is_different, has}
use poly_zq_trading.Execution.Callbacks.{
  ReconcileSettings, LedgerStore, month_progress, expected_zq, same_ℤ, observed_zq_position,
  is_outstanding, is_incomplete,
}
use poly_zq_trading.Execution.Comparison.{
  less, less_ids, expected_ibkr, expected_polymarket, expected_position, observed_position,
  position_mismatches, tokens_of,
}

-- Every list of the differences is empty.
pub record IsNone (d : VenueDifferences) : Type 0 where
  pub ledger : is_empty d.ledger ≡ true
  pub clients : is_some d.clients ≡ false
  pub unexpected_ibkr : is_some d.unexpected_ibkr ≡ false
  pub missing_ibkr : is_some d.missing_ibkr ≡ false
  pub unexpected_polymarket : is_some d.unexpected_polymarket ≡ false
  pub missing_polymarket : is_some d.missing_polymarket ≡ false
  pub identity_conflicts : is_some d.identity_conflicts ≡ false
  pub terminal_conflicts : is_some d.terminal_conflicts ≡ false
  pub unrecorded_fills : is_some d.unrecorded_fills ≡ false
  pub unconfirmed_completion : is_some d.unconfirmed_completion ≡ false
  pub zq_position : d.zq_position ≡ none
  pub polymarket_positions : is_some d.polymarket_positions ≡ false
  pub unresolved_obligations : d.unresolved_obligations ≡ 0

pub is_different-IsNone : (d : VenueDifferences) → is_different d ≡ false → IsNone d
unfolding is_different has
is_different-IsNone d h = ground arith

pub IsNone-is_different : (d : VenueDifferences) → IsNone d → is_different d ≡ false
unfolding is_different has
IsNone-is_different d h = ground arith

pub same_ℤ_iff : (a b : ℤ) → (same_ℤ a b ≡ true) ↔ (a ≡ b)
unfolding same_ℤ
same_ℤ_iff a b = (λ h. eq_of_parts a b (ground arith), λ e. rw e (ground arith))

-- Nothing of the first list is missing in the second.
pub less_iff :
    (xs ys : List ℕ) → (is_some (less xs ys) ≡ false) ↔ All (λ x. contains x ys ≡ true) xs
less_iff [] ys = ground arith
less_iff (x ∷ xs) ys = let rest = less_iff xs ys in ground (arith, rest)

pub less_ids_iff :
    (xs ys : List OrderId) → (is_some (less_ids xs ys) ≡ false) ↔ All (λ x. has_id x ys ≡ true) xs
less_ids_iff [] ys = ground arith
less_ids_iff (x ∷ xs) ys = let rest = less_ids_iff xs ys in ground (arith, rest)

pub outstanding_iff :
    (ps : List ZqOrderProgress)
    → (is_some (filter is_outstanding ps) ≡ false) ↔ All (λ p. p.reported ≤ p.executed) ps
outstanding_iff [] = ground arith
outstanding_iff (p ∷ ps) = let rest = outstanding_iff ps in ground (arith, rest)

pub incomplete_iff :
    (ps : List ZqOrderProgress)
    → (is_some (filter is_incomplete ps) ≡ false)
      ↔ All (λ p. p.executed ≡ p.quantity → is_final p.state ≡ true) ps
incomplete_iff [] = ground arith
incomplete_iff (p ∷ ps) =
    let rest = incomplete_iff ps in ground (arith, rest, ==_iff p.executed p.quantity)

pub is_some-map {ℓ κ} :
    {A : Type ℓ} {B : Type κ} (f : A → B) (xs : List A) → is_some (map f xs) ≡ is_some xs
is_some-map f [] = refl
is_some-map f (x ∷ xs) = refl

pub deficits_iff :
    (obs : List Obligation)
    → (length (filter (λ ob. ltb ob.confirmed_shares ob.due_shares) obs) ≡ 0)
      ↔ All (λ ob. ob.due_shares ≤ ob.confirmed_shares) obs
deficits_iff [] = ground arith
deficits_iff (ob ∷ obs) = let rest = deficits_iff obs in ground (arith, rest)

mismatches_iff :
    (f g : ℕ → ℤ) (tokens : List ℕ)
    → (is_some (filter (λ k. not (same_ℤ (f k) (g k))) tokens) ≡ false)
      ↔ All (λ k. f k ≡ g k) tokens
mismatches_iff f g [] = ground arith
mismatches_iff f g (k ∷ tokens) =
    let rest = mismatches_iff f g tokens in
    let here = same_ℤ_iff (f k) (g k) in ground (arith, rest, here)

-- A token of neither side has no position on either.
unheld :
    (token : ℕ) (ps : List (ℕ × ℤ)) (P : ℕ → Type 0)
    → All P (map (λ p. p.0) ps)
    → P token ⊎ (observed_position token ps ≡ pos 0)
unfolding observed_position
unheld token [] P h = inr refl
unheld token ((k, n) ∷ ps) P (h, hs) = elim (Bool-cases (k == token)) [
  | inl same ↦ inl (subst P ((==_iff k token).0 same) h)
  | inr apart ↦ rw apart (unheld token ps P hs)
]

-- The tokens of the strategy's own positions.
abbrev own_tokens : List StrategyPosition → List ℕ
own_tokens ps = map (λ p. p.instrument) (filter (λ p. is_polymarket p.venue) ps)

unexpected :
    (token : ℕ) (ps : List StrategyPosition) (P : ℕ → Type 0)
    → All P (own_tokens ps)
    → P token ⊎ (expected_position token ps ≡ pos 0)
unfolding expected_position
unexpected token [] P h = inr refl
unexpected token (p ∷ ps) P h = elim (Bool-cases (is_polymarket p.venue)) [
  | inl ours ↦
      let h' : P p.instrument × All P (own_tokens ps) = rw ours at h in
      elim (Bool-cases (p.instrument == token)) [
        | inl same ↦ inl (subst P ((==_iff p.instrument token).0 same) h'.0)
        | inr apart ↦ rw (ours, apart) (unexpected token ps P h'.1)
      ]
  | inr theirs ↦
      let h' : All P (own_tokens ps) = rw theirs at h in rw theirs (unexpected token ps P h')
]

All-append-left : (P : ℕ → Type 0) (xs ys : List ℕ) → All P (xs ++ ys) → All P xs × All P ys
All-append-left P [] ys h = (tt, h)
All-append-left P (x ∷ xs) ys (h, hs) =
    let rest = All-append-left P xs ys hs in ((h, rest.0), rest.1)

All-all : (P : ℕ → Type 0) → ((k : ℕ) → P k) → (xs : List ℕ) → All P xs
All-all P h [] = tt
All-all P h (x ∷ xs) = (h x, All-all P h xs)

pub positions_iff :
    (ps : List StrategyPosition) (observed : List (ℕ × ℤ))
    → (is_some (position_mismatches ps observed) ≡ false)
      ↔ ((token : ℕ) → expected_position token ps ≡ observed_position token observed)
unfolding position_mismatches
positions_iff ps observed =
    let same = λ (k : ℕ). expected_position k ps ≡ observed_position k observed in
    let tokens =
      mismatches_iff (λ k. expected_position k ps) (λ k. observed_position k observed)
        (tokens_of ps observed) in
    (
      λ h token.
          let (own, seen) =
            All-append-left same (own_tokens ps) (map (λ p. p.0) observed) (tokens.0 h) in
          elim (unexpected token ps same own) [
            | inl e ↦ e
            | inr nothing ↦ elim (unheld token observed same seen) [
              | inl e ↦ e
              | inr none_held ↦ nothing ∙ sym none_held
            ]
          ],
      λ h. tokens.1 (All-all same h (tokens_of ps observed)),
    )

-- The ledger and the venues agree on the strategy's orders and positions, and nothing is left to
-- hedge, to settle or to explain.
pub record Agrees (s : ReconcileSettings) (store : LedgerStore) (c : Coordinator) : Type 0 where
  pub settled : IsSettled store.tables store.events
  pub no_foreign_orders : c.ibkr.foreign_orders ≡ []
  pub no_unknown_orders : c.ibkr.unknown_orders ≡ []
  pub no_identity_conflicts : c.ibkr.identity_conflicts ≡ []
  pub no_terminal_conflicts : c.ibkr.terminal_conflicts ≡ []
  pub fills_recorded : All (λ p. p.reported ≤ p.executed) (month_progress s store)
  pub completions_confirmed :
      All (λ p. p.executed ≡ p.quantity → is_final p.state ≡ true) (month_progress s store)
  pub zq_position : observed_zq_position c.ibkr ≡ pos (expected_zq s store)
  pub ibkr_open :
      All (λ o. contains o c.ibkr.open_order_ids ≡ true) (expected_ibkr store.tables.orders)
  pub ibkr_ours :
      All (λ o. contains o (expected_ibkr store.tables.orders) ≡ true) c.ibkr.open_order_ids
  pub polymarket_open :
      s.simulate_polymarket_fills ≡ false
      → All
          (λ o. has_id o c.polymarket.open_order_ids ≡ true)
          (expected_polymarket store.tables.orders)
  pub polymarket_ours :
      s.simulate_polymarket_fills ≡ false
      → All
          (λ o. has_id o (expected_polymarket store.tables.orders) ≡ true)
          c.polymarket.open_order_ids
  pub polymarket_positions :
      s.simulate_polymarket_fills ≡ false
      → (token : ℕ)
      → expected_position token (strategy_portfolio_positions store.opening store.tables)
        ≡ observed_position token c.polymarket.positions
  pub all_hedged : All (λ ob. ob.due_shares ≤ ob.confirmed_shares) store.tables.obligations
