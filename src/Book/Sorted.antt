-- ===== src/Book/Sorted.antt =====
-- The sorted ladder of `walk_asks`.
use poly_zq_trading.Prelude.{
  ℕ, ◌-◌, ◌≤◌, ◌≡◌, refl, List, [], ◌∷◌, Option, true, min, All, filter, not, leb, arith,
  Bool-cases, inl, inr,
}
use poly_zq_trading.Book.Types.{BookLevel, size_of}
use poly_zq_trading.Book.Walk.{above_cap, insert_level, sort_levels}
use poly_zq_trading.Book.Greedy.{greedy_shares}

abbrev pub IsSorted : List BookLevel → Type 0
IsSorted [] = Unit
IsSorted (l ∷ ls) = All (λ m. l.price ≤ m.price) ls × IsSorted ls

pub insert-All :
    (P : BookLevel → Type 0) (l : BookLevel) (ls : List BookLevel)
    → P l
    → All P ls
    → All P (insert_level l ls)
unfolding insert_level
insert-All P l [] p h = (p, tt)
insert-All P l (m ∷ ms) p h = elim (Bool-cases (leb l.price m.price)) [
  | inl e ↦ rw e (p, h)
  | inr e ↦ rw e (h.0, insert-All P l ms p h.1)
]

All_trans :
    (a b : ℕ) (ls : List BookLevel) → a ≤ b → All (λ m. b ≤ m.price) ls → All (λ m. a ≤ m.price) ls
All_trans a b [] h s = tt
All_trans a b (l ∷ ls) h s = (omega arith, All_trans a b ls h s.1)

insert-IsSorted : (l : BookLevel) (ls : List BookLevel) → IsSorted ls → IsSorted (insert_level l ls)
unfolding insert_level
insert-IsSorted l [] h = (tt, tt)
insert-IsSorted l (m ∷ ms) h = elim (Bool-cases (leb l.price m.price)) [
  | inl e ↦ rw e ((ground arith, All_trans l.price m.price ms (ground arith) h.0), h)
  | inr e ↦ rw e (insert-All _ l ms (ground arith) h.0, insert-IsSorted l ms h.1)
]

pub sort-IsSorted : (ls : List BookLevel) → IsSorted (sort_levels ls)
unfolding sort_levels
sort-IsSorted [] = tt
sort-IsSorted (l ∷ ls) = insert-IsSorted l (sort_levels ls) (sort-IsSorted ls)

-- The shares offered inside a cap.
abbrev pub available : Option ℕ → List BookLevel → ℕ
available cap ls = size_of (filter (λ l. not (above_cap cap l.price)) ls)

available-insert :
    (cap : Option ℕ) (l : BookLevel) (ls : List BookLevel)
    → available cap (insert_level l ls) ≡ available cap (l ∷ ls)
unfolding insert_level
available-insert cap l [] = refl
available-insert cap l (m ∷ ms) = ground (arith, available-insert cap l ms)

pub available-sort :
    (cap : Option ℕ) (ls : List BookLevel) → available cap (sort_levels ls) ≡ available cap ls
unfolding sort_levels
available-sort cap [] = refl
available-sort cap (l ∷ ls) =
    ground (arith, available-insert cap l (sort_levels ls), available-sort cap ls)

-- Behind a level above the cap all are above it.
pub none_behind :
    (cap : Option ℕ) (price : ℕ) (ls : List BookLevel)
    → above_cap cap price ≡ true
    → All (λ m. price ≤ m.price) ls
    → available cap ls ≡ 0
none_behind cap price [] e h = refl
none_behind cap price (l ∷ ls) e h = ground (arith, none_behind cap price ls e h.1)

pub greedy_shares-sorted :
    (cap : Option ℕ) (ls : List BookLevel) (r : ℕ)
    → IsSorted ls
    → greedy_shares cap ls r ≡ min r (available cap ls)
unfolding greedy_shares
greedy_shares-sorted cap [] r h = omega arith
greedy_shares-sorted cap (l ∷ ls) r h =
    ground (arith, none_behind cap l.price ls, greedy_shares-sorted cap ls (r - min r l.size) h.1)
