-- ===== src/Repository/Sizing/Saved.antt =====
-- The sizing of an entry, written with its batch and read back.
use poly_zq_trading.Prelude.{
  ℕ, ◌≡◌, refl, ap, subst, List, [], ◌∷◌, ◌++◌, Option, none, some, true, map, ◌==◌, arith,
  Bool-cases, inl, inr,
}
use poly_zq_trading.Ledger.Types.{Number, Tables, ok}
use poly_zq_trading.Ledger.Queries.{find_batch}
use poly_zq_trading.Repository.Sizing.{
  units, read_ratios, valid_ratios, table_ratios, saved_hedge_ratios,
}
use poly_zq_trading.Repository.Entry.{
  Entry, raw_ratio, saved_ratios, saved_method, new_batch, new_zq_order, is_fresh_zq_order,
  add_batch, create_zq_batch_intent, batch_hedge_ratios,
}
use poly_zq_trading.Repository.Backing.Recorded.{Result-cases}
use poly_zq_trading.Repository.Backing.Steps.{find_batch-append}

abbrev pub ratios_of : Option (List (ℕ × Number)) → Option (List (ℕ × ℕ))
ratios_of none = none
ratios_of (some ratios) = some (map units ratios)

read_ratios-raw : (ratios : List (ℕ × Number)) → read_ratios (map raw_ratio ratios) ≡ some ratios
unfolding read_ratios
read_ratios-raw [] = refl
read_ratios-raw ((token, n) ∷ ratios) = rw (read_ratios-raw ratios) refl

-- Sizing that is accepted is the sizing given.
saved-ratios :
    (given : Option (List (ℕ × Number))) (sizing : Option (List (ℕ × ℕ)))
    → saved_hedge_ratios (saved_ratios given) (saved_method given) ≡ ok sizing
    → sizing ≡ ratios_of given
unfolding saved_hedge_ratios table_ratios valid_ratios
saved-ratios none sizing h = ground arith
saved-ratios (some ratios) sizing h = ground (arith, read_ratios-raw ratios)

==_refl : (n : ℕ) → (n == n) ≡ true
==_refl n = ground arith

-- A new entry's sizing is read back from its batch as it was given, also where the entry has none.
pub create_zq_batch_intent-batch_hedge_ratios :
    (key : ℕ) (e : Entry) (t t' : Tables)
    → find_batch e.batch_id t.batches ≡ none
    → create_zq_batch_intent key e t ≡ ok t'
    → batch_hedge_ratios e.batch_id t' ≡ ok (ratios_of e.hedge_ratios)
unfolding create_zq_batch_intent add_batch batch_hedge_ratios new_batch
create_zq_batch_intent-batch_hedge_ratios key e t t' new done =
    elim (Result-cases
      (saved_hedge_ratios (saved_ratios e.hedge_ratios) (saved_method e.hedge_ratios))) [
        | inl (x, bad) ↦ absurd (ground (arith, bad))
        | inr (sizing, good) ↦
            let appended = find_batch-append e.batch_id (new_batch e) t.batches new in
            let same = saved-ratios e.hedge_ratios sizing good in
            elim (Bool-cases (is_fresh_zq_order (new_zq_order key e) t.orders)) [
              | inr clash ↦ absurd (ground (arith, good, new, clash))
              | inl fresh ↦
                  let added : Tables = record t {
                    batches = t.batches ++ (new_batch e ∷ []);
                    orders = t.orders ++ (new_zq_order key e ∷ []);
                  } in
                  let left : added ≡ t' = ground (arith, good, new, fresh) in
                  subst
                    (λ (s : Tables).
                      batch_hedge_ratios e.batch_id s ≡ ok (ratios_of e.hedge_ratios))
                    left
                    (rw (batch_hedge_ratios, appended)
                      (rw (==_refl e.batch_id) (rw good (ap (λ o. ok o) same))))
            ]
      ]
