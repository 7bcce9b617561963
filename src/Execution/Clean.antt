-- ===== src/Execution/Clean.antt =====
-- When a reconciliation reports that the venues are clean.
use poly_zq_trading.Prelude.{
  ℕ, List, [], ◌∷◌, none, some, Bool, true, false, if◌then◌else◌, ◌≡◌, ◌↔◌, refl, sym, ◌∙◌, arith,
}
use poly_zq_trading.Prelude.Int.{ℤ}
use poly_zq_trading.Ledger.Receipts.{is_some}
use poly_zq_trading.Ledger.Safety.{hedge_safety_differences-IsSettled}
use poly_zq_trading.Repository.Status.{unresolved_hedge_obligation_count}
use poly_zq_trading.Execution.Types.{Coordinator}
use poly_zq_trading.Execution.Differences.{VenueDifferences}
use poly_zq_trading.Execution.Callbacks.{
  ReconcileSettings, LedgerStore, month_progress, expected_zq, observed_zq_position,
  callback_differences,
}
use poly_zq_trading.Execution.Comparison.{
  first_differences, final_differences, order_differences, replace,
}
use poly_zq_trading.Execution.Agreement.{
  Agrees, IsNone, same_ℤ_iff, less_iff, less_ids_iff, outstanding_iff, incomplete_iff, is_some-map,
  deficits_iff, positions_iff,
}

-- The differences of a complete read.
abbrev pub all_differences : ReconcileSettings → LedgerStore → Coordinator → VenueDifferences
all_differences s store c = final_differences s store c (
    callback_differences (month_progress s store) c.ibkr (expected_zq s store)
      (observed_zq_position c.ibkr) (first_differences store c.ibkr))

is_some_iff {ℓ} : {A : Type ℓ} (xs : List A) → (is_some xs ≡ false) ↔ (xs ≡ [])
is_some_iff [] = (λ h. refl, λ h. refl)
is_some_iff (x ∷ xs) = (λ h. absurd (ground arith), λ h. absurd (ground arith))

unless_simulated {ℓ} :
    {A : Type ℓ} (b : Bool) (xs : List A) (P : Type 0)
    → ((is_some xs ≡ false) ↔ P)
    → (is_some (if b then [] else xs) ≡ false) ↔ (b ≡ false → P)
unless_simulated true xs P e = (λ h b. absurd (ground arith), λ h. refl)
unless_simulated false xs P e = (λ h b. e.0 h, λ h. e.1 (h refl))

replace_iff {ℓ} :
    {A : Type ℓ} (old xs : List A)
    → (is_some (replace old xs) ≡ false) ↔ ((old ≡ []) × (is_some xs ≡ false))
replace_iff old [] = (λ h. ((is_some_iff old).0 h, refl), λ h. (is_some_iff old).1 h.0)
replace_iff old (x ∷ xs) = (λ h. absurd (ground arith), λ h. absurd (ground arith))

-- The test is made on the callbacks, and again on the complete read.
position_iff :
    (b : Bool) (o : ℕ × ℤ) (P : Type 0)
    → ((b ≡ true) ↔ P)
    → ((if b then (if b then none else some o) else some o) ≡ none) ↔ P
position_iff true o P e = (λ h. e.0 refl, λ h. refl)
position_iff false o P e = (λ h. absurd (ground arith), λ h. absurd (ground (arith, e.1 h)))

pub Agrees-IsNone :
    (s : ReconcileSettings) (store : LedgerStore) (c : Coordinator)
    → Agrees s store c
    → IsNone (all_differences s store c)
unfolding final_differences order_differences callback_differences first_differences
    unresolved_hedge_obligation_count
Agrees-IsNone s store c a = record {
  ledger = (hedge_safety_differences-IsSettled store.tables store.events).1 a.settled;
  clients = (is_some_iff _).1 a.no_foreign_orders;
  unexpected_ibkr = (replace_iff _ _).1 (a.no_unknown_orders, (less_iff _ _).1 a.ibkr_ours);
  missing_ibkr = (less_iff _ _).1 a.ibkr_open;
  unexpected_polymarket =
      (unless_simulated s.simulate_polymarket_fills _ _ (less_ids_iff _ _)).1 a.polymarket_ours;
  missing_polymarket =
      (unless_simulated s.simulate_polymarket_fills _ _ (less_ids_iff _ _)).1 a.polymarket_open;
  identity_conflicts = (is_some_iff _).1 a.no_identity_conflicts;
  terminal_conflicts = (is_some_iff _).1 a.no_terminal_conflicts;
  unrecorded_fills = is_some-map _ _ ∙ (outstanding_iff _).1 a.fills_recorded;
  unconfirmed_completion = is_some-map _ _ ∙ (incomplete_iff _).1 a.completions_confirmed;
  zq_position = (position_iff _ _ _ (same_ℤ_iff _ _)).1 a.zq_position;
  polymarket_positions =
      (unless_simulated s.simulate_polymarket_fills _ _ (positions_iff _ _)).1
        a.polymarket_positions;
  unresolved_obligations = (deficits_iff _).1 a.all_hedged;
}

pub IsNone-Agrees :
    (s : ReconcileSettings) (store : LedgerStore) (c : Coordinator)
    → IsNone (all_differences s store c)
    → Agrees s store c
unfolding final_differences order_differences callback_differences first_differences
    unresolved_hedge_obligation_count
IsNone-Agrees s store c n =
    let unexpected = (replace_iff _ _).0 n.unexpected_ibkr in
    record {
      settled = (hedge_safety_differences-IsSettled store.tables store.events).0 n.ledger;
      no_foreign_orders = (is_some_iff _).0 n.clients;
      no_unknown_orders = unexpected.0;
      no_identity_conflicts = (is_some_iff _).0 n.identity_conflicts;
      no_terminal_conflicts = (is_some_iff _).0 n.terminal_conflicts;
      fills_recorded = (outstanding_iff _).0 (sym (is_some-map _ _) ∙ n.unrecorded_fills);
      completions_confirmed =
          (incomplete_iff _).0 (sym (is_some-map _ _) ∙ n.unconfirmed_completion);
      zq_position = (position_iff _ _ _ (same_ℤ_iff _ _)).0 n.zq_position;
      ibkr_open = (less_iff _ _).0 n.missing_ibkr;
      ibkr_ours = (less_iff _ _).0 unexpected.1;
      polymarket_open =
          (unless_simulated s.simulate_polymarket_fills _ _ (less_ids_iff _ _)).0
            n.missing_polymarket;
      polymarket_ours =
          (unless_simulated s.simulate_polymarket_fills _ _ (less_ids_iff _ _)).0
            n.unexpected_polymarket;
      polymarket_positions =
          (unless_simulated s.simulate_polymarket_fills _ _ (positions_iff _ _)).0
            n.polymarket_positions;
      all_hedged = (deficits_iff _).0 n.unresolved_obligations;
    }
