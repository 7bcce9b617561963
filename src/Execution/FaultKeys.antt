-- ===== src/Execution/FaultKeys.antt =====
-- The differences that are faults.
use poly_zq_trading.Prelude.{
  List, [], ◌∷◌, Bool, true, false, ◌&&◌, not, any, ◌≡◌, ◌⊎◌, ◌∙◌, refl, ap, inl, inr, arith,
}
use poly_zq_trading.Execution.Differences.{
  unexpected_ibkr_clients, no_keys, is_different, Key, zq_position_mismatch,
  polymarket_position_mismatch, excess_hedges, unexpected_ibkr_orders, unexpected_polymarket_orders,
  unprocessed_ibkr_events, unprocessed_polymarket_events, ibkr_unrecorded_fills,
  ibkr_unconfirmed_completion, ibkr_terminal_conflicts, ibkr_identity_conflicts, VenueDifferences,
  Keys, has, has_any, unsafe_keys,
}

-- The keys of a fault.
abbrev pub is_fault : Key → Bool
is_fault zq_position_mismatch = true
is_fault polymarket_position_mismatch = true
is_fault excess_hedges = true
is_fault unexpected_ibkr_orders = true
is_fault unexpected_ibkr_clients = true
is_fault unexpected_polymarket_orders = true
is_fault unprocessed_ibkr_events = true
is_fault unprocessed_polymarket_events = true
is_fault ibkr_unrecorded_fills = true
is_fault ibkr_unconfirmed_completion = true
is_fault ibkr_terminal_conflicts = true
is_fault ibkr_identity_conflicts = true
is_fault _ = false

abbrev Member : Key → List Key → Type 0
Member k [] = ⊥
Member k (j ∷ js) = (j ≡ k) ⊎ Member k js

any-Member : (p : Key → Bool) (js : List Key) (k : Key) → Member k js → p k ≡ true → any p js ≡ true
any-Member p [] k m h = elim m [ ]
any-Member p (j ∷ js) k (inl e) h = rw (ap p e ∙ h) refl
any-Member p (j ∷ js) k (inr m) h = let rest = any-Member p js k m h in ground (arith, rest)

fault-Member : (k : Key) → is_fault k ≡ true → Member k unsafe_keys
fault-Member zq_position_mismatch f = inl refl
fault-Member polymarket_position_mismatch f = inr (inl refl)
fault-Member excess_hedges f = inr (inr (inl refl))
fault-Member unexpected_ibkr_orders f = inr (inr (inr (inl refl)))
fault-Member unexpected_ibkr_clients f = inr (inr (inr (inr (inl refl))))
fault-Member unexpected_polymarket_orders f = inr (inr (inr (inr (inr (inl refl)))))
fault-Member unprocessed_ibkr_events f = inr (inr (inr (inr (inr (inr (inl refl))))))
fault-Member unprocessed_polymarket_events f = inr (inr (inr (inr (inr (inr (inr (inl refl)))))))
fault-Member ibkr_unrecorded_fills f = inr (inr (inr (inr (inr (inr (inr (inr (inl refl))))))))
fault-Member ibkr_unconfirmed_completion f =
    inr (inr (inr (inr (inr (inr (inr (inr (inr (inl refl)))))))))
fault-Member ibkr_terminal_conflicts f =
    inr (inr (inr (inr (inr (inr (inr (inr (inr (inr (inl refl))))))))))
fault-Member ibkr_identity_conflicts f =
    inr (inr (inr (inr (inr (inr (inr (inr (inr (inr (inr (inl refl)))))))))))
fault-Member _ f = absurd (ground arith)

pub fault_lem :
    (d : VenueDifferences) (keys : Keys) (k : Key)
    → is_fault k ≡ true
    → has d k ≡ true
    → keys k ≡ false
    → has_any unsafe_keys keys d ≡ true
fault_lem d keys k f h e =
    any-Member (λ j. has d j && not (keys j)) unsafe_keys k (fault-Member k f) (rw (h, e) refl)

pub different_lem :
    (d : VenueDifferences) (k : Key) → is_fault k ≡ true → has d k ≡ true → is_different d ≡ true
unfolding is_different
different_lem d k f h = let unsafe = fault_lem d no_keys k f h refl in ground arith
