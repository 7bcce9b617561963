-- ===== src/Stream/Ladders.antt =====
-- What a ladder offers at a price, under the changes of the stream.
pub mod Quoted
pub mod Committed
use poly_zq_trading.Prelude.{
  ℕ, ◌≡◌, refl, sym, List, [], ◌∷◌, Option, none, some, Bool, true, false, ◌&&◌, not, All, find,
  filter, leb, ◌==◌, ==_iff, if◌then◌else◌, arith, Bool-cases, Option-cases, inl, inr,
}
use poly_zq_trading.Book.Types.{BookLevel}
use poly_zq_trading.Book.Walk.{insert_level, sort_levels}
use poly_zq_trading.Stream.Snapshots.{insert_falling, sort_falling}
use poly_zq_trading.Stream.Update.{put_level, table_from, set_level}

abbrev pub size_found : Option BookLevel → ℕ
size_found none = 0
size_found (some l) = l.size

-- The size of the first level at a price, 0 where there is none.
abbrev pub level_at : ℕ → List BookLevel → ℕ
level_at p ls = size_found (find (λ l. l.price == p) ls)

-- No two levels have the same price.
abbrev pub AreDistinct : List BookLevel → Type 0
AreDistinct [] = Unit
AreDistinct (l ∷ ls) = (find (λ m. m.price == l.price) ls ≡ none) × AreDistinct ls

put_level-at :
    (p : ℕ) (l : BookLevel) (ls : List BookLevel)
    → level_at p (put_level l ls) ≡ (if l.price == p then l.size else level_at p ls)
unfolding put_level
put_level-at p l [] = ground arith
put_level-at p l (m ∷ ms) = ground (arith, put_level-at p l ms)

remove-at :
    (p price : ℕ) (ls : List BookLevel)
    → level_at p (filter (λ l. not (l.price == price)) ls)
      ≡ (if price == p then 0 else level_at p ls)
remove-at p price [] = ground arith
remove-at p price (m ∷ ms) = ground (arith, remove-at p price ms)

pub set_level-at :
    (p price size : ℕ) (ls : List BookLevel)
    → level_at p (set_level price size ls) ≡ (if price == p then size else level_at p ls)
set_level-at p price size ls = elim (Bool-cases (size == 0)) [
  | inl e ↦ rw e (ground (arith, e, remove-at p price ls))
  | inr e ↦ rw e (put_level-at p (record { price = price; size = size }) ls)
]

insert_level-at :
    (p : ℕ) (l : BookLevel) (ls : List BookLevel)
    → level_at p (insert_level l ls) ≡ level_at p (l ∷ ls)
unfolding insert_level
insert_level-at p l [] = refl
insert_level-at p l (m ∷ ms) = ground (arith, insert_level-at p l ms)

insert_falling-at :
    (p : ℕ) (l : BookLevel) (ls : List BookLevel)
    → level_at p (insert_falling l ls) ≡ level_at p (l ∷ ls)
unfolding insert_falling
insert_falling-at p l [] = refl
insert_falling-at p l (m ∷ ms) = ground (arith, insert_falling-at p l ms)

pub sort_levels-at : (p : ℕ) (ls : List BookLevel) → level_at p (sort_levels ls) ≡ level_at p ls
unfolding sort_levels
sort_levels-at p [] = refl
sort_levels-at p (l ∷ ls) =
    ground (arith, insert_level-at p l (sort_levels ls), sort_levels-at p ls)

pub sort_falling-at : (p : ℕ) (ls : List BookLevel) → level_at p (sort_falling ls) ≡ level_at p ls
unfolding sort_falling
sort_falling-at p [] = refl
sort_falling-at p (l ∷ ls) =
    ground (arith, insert_falling-at p l (sort_falling ls), sort_falling-at p ls)

pub table_from-at :
    (p : ℕ) (ls table : List BookLevel)
    → AreDistinct ls
    → level_at p (table_from ls table)
      ≡ size_found (elim (find (λ l. l.price == p) ls) [
        | some l ↦ some l
        | none ↦ find (λ l. l.price == p) table
      ])
unfolding table_from
table_from-at p [] table own = refl
table_from-at p (l ∷ ls) table (alone, own) =
    ground (arith, table_from-at p ls (put_level l table) own, put_level-at p l table, alone)
