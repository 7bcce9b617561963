-- ===== src/Prelude/Lists.antt =====
-- Lists measured and tested with the native numbers and `Bool`.
use Prim.Native.Nat.{ℕ, suc}
use mathlib.Core.Bool.{Bool, true, false, ◌&&◌, ◌||◌}
use mathlib.Core.List.{List, [], ◌∷◌}
use mathlib.Core.Logic.{inl, inr}
use mathlib.Core.Path.{◌≡◌, sym, subst}
use mathlib.Core.Option.{Option, none, some}
use poly_zq_trading.Prelude.Tests.{if◌then◌else◌, ◌==◌, ==_iff, Bool-cases}

module _ {ℓ} {A : Type ℓ} where
  abbrev pub length : List A → ℕ
  length [] = 0
  length (x ∷ xs) = suc (length xs)

  -- Python's `any(p(x) for x in xs)` and `all(...)`.
  abbrev pub any : (A → Bool) → List A → Bool
  any p [] = false
  any p (x ∷ xs) = p x || any p xs

  abbrev pub all : (A → Bool) → List A → Bool
  all p [] = true
  all p (x ∷ xs) = p x && all p xs

  -- `[x for x in xs if p(x)]`
  abbrev pub filter : (A → Bool) → List A → List A
  filter p [] = []
  filter p (x ∷ xs) = if p x then x ∷ filter p xs else filter p xs

  -- The first row that a query finds.
  abbrev pub find : (A → Bool) → List A → Option A
  find p [] = none
  find p (x ∷ xs) = if p x then some x else find p xs

  abbrev pub All {κ} : (A → Type κ) → List A → Type κ
  All P [] = Unit
  All P (x ∷ xs) = P x × All P xs

-- `a in xs`, for ids.
abbrev pub contains : ℕ → List ℕ → Bool
contains a = any (λ x. a == x)

pub contains_apart :
    (a b : ℕ) (xs : List ℕ) → contains a xs ≡ false → contains b xs ≡ true → (a == b) ≡ false
contains_apart a b xs new old = elim (Bool-cases (a == b)) [
  | inl same ↦ cc (subst (λ c. contains c xs ≡ true) (sym ((==_iff a b).0 same)) old)
  | inr apart ↦ apart
]
