-- ===== src/Api/Windows.antt =====
-- The limiter, against a log that forgets nothing.
use poly_zq_trading.Prelude.{
  ℕ, suc, ◌+◌, ◌-◌, ◌≤◌, ◌≡◌, refl, sym, ap, List, [], ◌∷◌, ◌++◌, false, length, filter, not, ltb,
  All, arith, Bool-cases, inl, inr,
}
use poly_zq_trading.Api.Limiter.{drop_old}

-- The times of a list that lie within a window before `now`.
abbrev pub count_within : ℕ → ℕ → List ℕ → ℕ
count_within window now ts = length (filter (λ t. not (ltb window (now - t))) ts)

-- The oldest first, and none after `now`.
abbrev pub AreUpTo : ℕ → List ℕ → Type 0
AreUpTo now [] = Unit
AreUpTo now (t ∷ ts) = (t ≤ now) × All (λ u. t ≤ u) ts × AreUpTo now ts

pub count_append :
    (window now x : ℕ) (ts : List ℕ)
    → count_within window now (ts ++ x ∷ [])
      ≡ count_within window now ts + count_within window now (x ∷ [])
count_append window now x [] = ground arith
count_append window now x (t ∷ ts) = ground (arith, count_append window now x ts)

-- What is dropped now is outside of any later window.
pub drop_old-count :
    (window now later : ℕ)
    → now ≤ later
    → (ts : List ℕ)
    → count_within window later (drop_old window now ts) ≡ count_within window later ts
unfolding drop_old
drop_old-count window now later h [] = refl
drop_old-count window now later h (t ∷ ts) = ground (arith, drop_old-count window now later h ts)

all_recent :
    (window now t : ℕ)
    → ltb window (now - t) ≡ false
    → (ts : List ℕ) → All (λ u. t ≤ u) ts
    → count_within window now ts ≡ length ts
all_recent window now t h [] hs = refl
all_recent window now t h (u ∷ ts) (le, hs) = ground (arith, all_recent window now t h ts hs)

-- What the loop leaves is just what lies within the window.
pub drop_old-length :
    (window now last : ℕ) (ts : List ℕ)
    → AreUpTo last ts
    → length (drop_old window now ts) ≡ count_within window now ts
unfolding drop_old
drop_old-length window now last [] hs = refl
drop_old-length window now last (t ∷ ts) (le, above, hs) =
    elim (Bool-cases (ltb window (now - t))) [
      | inl old ↦ rw old (drop_old-length window now last ts hs)
      | inr recent ↦ rw recent (ap suc (sym (all_recent window now t recent ts above)))
    ]

pub drop_old-AreUpTo :
    (window now last : ℕ) (ts : List ℕ) → AreUpTo last ts → AreUpTo last (drop_old window now ts)
unfolding drop_old
drop_old-AreUpTo window now last [] hs = hs
drop_old-AreUpTo window now last (t ∷ ts) (le, above, hs) =
    elim (Bool-cases (ltb window (now - t))) [
      | inl old ↦ rw old (drop_old-AreUpTo window now last ts hs)
      | inr recent ↦ rw recent (le, above, hs)
    ]

pub AreUpTo-later : (last now : ℕ) → last ≤ now → (ts : List ℕ) → AreUpTo last ts → AreUpTo now ts
AreUpTo-later last now h [] hs = hs
AreUpTo-later last now h (t ∷ ts) (le, above, hs) =
    (omega arith, above, AreUpTo-later last now h ts hs)

All_append :
    (t now : ℕ) → t ≤ now → (ts : List ℕ) → All (λ u. t ≤ u) ts → All (λ u. t ≤ u) (ts ++ now ∷ [])
All_append t now h [] hs = (h, tt)
All_append t now h (u ∷ ts) (le, hs) = (le, All_append t now h ts hs)

pub AreUpTo-append : (now : ℕ) (ts : List ℕ) → AreUpTo now ts → AreUpTo now (ts ++ now ∷ [])
AreUpTo-append now [] hs = (omega arith, tt, tt)
AreUpTo-append now (t ∷ ts) (le, above, hs) =
    (le, All_append t now le ts above, AreUpTo-append now ts hs)
