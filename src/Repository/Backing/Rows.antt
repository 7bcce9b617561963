-- ===== src/Repository/Backing/Rows.antt =====
-- Rows added under the unique constraint, and what they add to the sums of a batch.
use poly_zq_trading.Prelude.{
  ℕ, ◌≡◌, refl, List, [], ◌∷◌, ◌++◌, ◌∙◌, ap, map, any, sum_of, All, Bool, false, ◌||◌, ◌==◌,
  if◌then◌else◌, arith, Bool-cases, inl, inr, ==_iff,
}
use poly_zq_trading.Ledger.Types.{Obligation, ok}
use poly_zq_trading.Repository.Fills.{zq_obligation, append_obligations}
use poly_zq_trading.Repository.Backing.{due_total}
use poly_zq_trading.Repository.Backing.Legs.{AreApart, amount_on}

any-append {ℓ} :
    {A : Type ℓ} (p : A → Bool) (xs ys : List A) → any p (xs ++ ys) ≡ (any p xs || any p ys)
any-append p [] ys = refl
any-append p (x ∷ xs) ys = rw (any-append p xs ys) (ground arith)

append_assoc {ℓ} : {A : Type ℓ} (xs ys zs : List A) → xs ++ ys ++ zs ≡ xs ++ (ys ++ zs)
append_assoc [] ys zs = refl
append_assoc (x ∷ xs) ys zs = ap (λ rest. x ∷ rest) (append_assoc xs ys zs)

abbrev pub clashes : Obligation → Obligation → Bool
clashes o p = p.obligation_id == o.obligation_id

append_nil {ℓ} : {A : Type ℓ} (xs : List A) → xs ++ [] ≡ xs
append_nil [] = refl
append_nil (x ∷ xs) = ap (λ rest. x ∷ rest) (append_nil xs)

weaken :
    (o : Obligation) (rows os : List Obligation)
    → All (λ p. any (clashes p) (rows ++ (o ∷ [])) ≡ false) os
    → All (λ p. any (clashes p) rows ≡ false) os × All (λ p. clashes p o ≡ false) os
weaken o rows [] h = (tt, tt)
weaken o rows (p ∷ os) (fresh, others) =
    let split = any-append (clashes p) rows (o ∷ []) in
    let rest = weaken o rows os others in
    ((ground (arith, split), rest.0), (ground (arith, split), rest.1))

-- The rows of one call have ids of their own.
abbrev pub AreFresh : List Obligation → Type 0
AreFresh [] = Unit
AreFresh (o ∷ os) = All (λ p. clashes p o ≡ false) os × AreFresh os

pub append_obligations-ok :
    (os rows out : List Obligation)
    → append_obligations os rows ≡ ok out
    → (out ≡ rows ++ os) × All (λ p. any (clashes p) rows ≡ false) os × AreFresh os
unfolding append_obligations
append_obligations-ok [] rows out h = (ground (arith, append_nil rows), tt, tt)
append_obligations-ok (o ∷ os) rows out h = elim (Bool-cases (any (clashes o) rows)) [
  | inl e ↦ absurd (ground arith)
  | inr e ↦
      let step : append_obligations os (rows ++ (o ∷ [])) ≡ ok out = ground arith in
      let (appended, fresh, apart) = append_obligations-ok os (rows ++ (o ∷ [])) out step in
      let (below, beside) = weaken o rows os fresh in
      (appended ∙ append_assoc rows (o ∷ []) os, (e, below), (beside, apart))
]

module _ (key : ℕ → ℕ → ℕ → ℕ) (batch_id execution_id : ℕ) where
  tokens_apart :
      (leg : ℕ × ℕ) (legs : List (ℕ × ℕ))
      → All
          (λ p. clashes p (zq_obligation key batch_id execution_id leg) ≡ false)
          (map (zq_obligation key batch_id execution_id) legs)
      → All (λ l. (leg.0 == l.0) ≡ false) legs
  unfolding zq_obligation
  tokens_apart leg [] h = tt
  tokens_apart leg (l ∷ legs) (apart, others) = elim (Bool-cases (leg.0 == l.0)) [
    | inl e ↦
        absurd
          (cc ((==_iff _ _).1 (ap (key batch_id execution_id) ((==_iff leg.0 l.0).0 e)), apart))
    | inr e ↦ (e, tokens_apart leg legs others)
  ]

  -- Rows with ids of their own are of distinct tokens.
  pub rows-AreApart :
      (legs : List (ℕ × ℕ))
      → AreFresh (map (zq_obligation key batch_id execution_id) legs)
      → AreApart legs
  rows-AreApart [] h = tt
  rows-AreApart (leg ∷ legs) (apart, others) =
      (tokens_apart leg legs apart, rows-AreApart legs others)

  pub due_total-rows :
      (id token : ℕ) (legs : List (ℕ × ℕ))
      → due_total id token (map (zq_obligation key batch_id execution_id) legs)
        ≡ (if batch_id == id then sum_of (amount_on token) legs else 0)
  unfolding zq_obligation
  due_total-rows id token [] = ground arith
  due_total-rows id token (leg ∷ legs) = ground (arith, due_total-rows id token legs)
