-- ===== src/Stream/Ladders/Quoted.antt =====
-- A message of price changes, next to the changes applied one after the other to each price.
use poly_zq_trading.Prelude.{
  ℕ, ◌≡◌, refl, sym, ap, subst, ◌∙◌, List, [], ◌∷◌, Option, none, some, Bool, true, false, ◌&&◌,
  find, ◌==◌, ==_iff, if◌then◌else◌, arith, Bool-cases, Option-cases, inl, inr,
}
use poly_zq_trading.Domain.Enums.{Side, buy, sell}
use poly_zq_trading.Book.Types.{BookLevel}
use poly_zq_trading.Stream.Types.{StreamBook, Change, RawChange, change, no_object}
use poly_zq_trading.Stream.Snapshots.{find_book}
use poly_zq_trading.Stream.Update.{
  SideTable, is_key, same_side, ladder, table_of, put_table, valid_price, valid_size, Changing,
  write_change, synchronized, apply_change, apply_changes, set_level, sorted_side, no_changes,
  table_from,
}
use poly_zq_trading.Stream.Ladders.{
  level_at, AreDistinct, set_level-at, sort_levels-at, sort_falling-at, table_from-at,
}

abbrev is_side : Option Side → Side → Bool
is_side none side = false
is_side (some s) side = same_side s side

abbrev is_at : Option ℕ → ℕ → Bool
is_at none p = false
is_at (some price) p = price == p

abbrev size_or_zero : Option ℕ → ℕ
size_or_zero none = 0
size_or_zero (some n) = n

-- The size at a price of a side after one change.
abbrev pub quoted_once : ℕ → Side → ℕ → RawChange → ℕ → ℕ
quoted_once token side p no_object old = old
quoted_once token side p (change c) old =
    if (c.token_id == token) && is_side c.side side && is_at (valid_price c.price) p
    then size_or_zero (valid_size c.size)
    else old

-- And after a message: each change replaces the size at its price.
abbrev pub quoted : ℕ → Side → ℕ → List RawChange → ℕ → ℕ
quoted token side p [] old = old
quoted token side p (c ∷ cs) old = quoted token side p cs (quoted_once token side p c old)

same_side_eq : (s t : Side) → same_side s t ≡ true → s ≡ t
same_side_eq buy buy h = refl
same_side_eq sell sell h = refl
same_side_eq buy sell h = absurd (ground arith)
same_side_eq sell buy h = absurd (ground arith)

find-put_table :
    (token : ℕ) (side : Side) (t : SideTable) (us : List SideTable)
    → find (is_key token side) (put_table t us)
      ≡ (if is_key token side t then some t else find (is_key token side) us)
unfolding put_table
find-put_table token side t [] = refl
find-put_table token side t (u ∷ us) = elim (Bool-cases (is_key t.token_id t.side u)) [
  | inl e ↦
      let same : is_key token side u ≡ is_key token side t =
        ap (λ (s : Side). (u.token_id == token) && same_side s side)
          (same_side_eq u.side t.side (ground (arith, e)))
        ∙ ap (λ (i : ℕ). (i == token) && same_side t.side side)
            ((==_iff u.token_id t.token_id).0 (ground (arith, e))) in
      rw e (ground (arith, same))
  | inr e ↦ rw e (ground (arith, find-put_table token side t us))
]

was_found :
    (token : ℕ) (o : Option StreamBook) (b : StreamBook)
    → synchronized token o ≡ some b
    → o ≡ some b
was_found token none b h = absurd (ground arith)
was_found token (some c) b h = ground arith

module _ (books : List StreamBook) (token : ℕ) (side : Side) (p : ℕ) (current : StreamBook)
    (found : find_book token books ≡ some current) where
  abbrev size_in : Changing → ℕ
  size_in s = level_at p (table_of token side s.tables current)

  written :
      (c : Change) (b : StreamBook) (price size : ℕ) (at_side : Side) (s : Changing)
      → find_book c.token_id books ≡ some b
      → size_in (write_change c b price size at_side s) ≡ (
          if (c.token_id == token) && same_side at_side side && (price == p)
          then size
          else size_in s)
  unfolding write_change table_of
  written c b price size at_side s there =
      let table = set_level price size (table_of c.token_id at_side s.tables b) in
      let key =
        find-put_table token side (record { token_id = c.token_id; side = at_side; levels = table })
          s.tables in
      elim (Bool-cases ((c.token_id == token) && same_side at_side side)) [
        | inr other ↦ ground (arith, key, other)
        | inl own ↦
            let i : c.token_id ≡ token = (==_iff c.token_id token).0 (ground (arith, own)) in
            let j : at_side ≡ side = same_side_eq at_side side (ground (arith, own)) in
            let here = subst (λ (k : ℕ). find_book k books ≡ some b) i there in
            let b_eq : b ≡ current = ground (arith, found, here) in
            let same_table =
              ap (λ (k : ℕ). table_of k at_side s.tables b) i
              ∙ ap (λ d. table_of token d s.tables b) j
              ∙ ap (λ r. table_of token side s.tables r) b_eq in
            let entry = set_level-at p price size (table_of c.token_id at_side s.tables b) in
            ground (arith, key, own, entry, ap (level_at p) same_table)
      ]

  apply_change-quoted :
      (c : RawChange) (s s' : Changing)
      → apply_change books c s ≡ some s'
      → size_in s' ≡ quoted_once token side p c (size_in s)
  unfolding apply_change
  apply_change-quoted no_object s s' h = absurd (ground arith)
  apply_change-quoted (change c) s s' h =
      elim (Option-cases (synchronized c.token_id (find_book c.token_id books))) [
        | inl e ↦ absurd (ground (arith, e))
        | inr (b, ready) ↦ elim (Option-cases (valid_price c.price)) [
          | inl e ↦ absurd (ground (arith, ready, e))
          | inr (price, priced) ↦ elim (Option-cases (valid_size c.size)) [
            | inl e ↦ absurd (ground (arith, ready, priced, e))
            | inr (size, sized) ↦ elim (Option-cases c.side) [
              | inl e ↦ absurd (ground (arith, ready, priced, sized, e))
              | inr (at_side, sided) ↦
                  let there : find_book c.token_id books ≡ some b =
                    was_found c.token_id (find_book c.token_id books) b ready in
                  let done : write_change c b price size at_side s ≡ s' =
                    ground (arith, ready, priced, sized, sided) in
                  subst (λ t. size_in t ≡ quoted_once token side p (change c) (size_in s)) done
                    (written c b price size at_side s there ∙ ground (arith, priced, sized, sided))
            ]
          ]
        ]
      ]

  apply_changes-quoted :
      (cs : List RawChange) (s s' : Changing)
      → apply_changes books cs s ≡ some s'
      → size_in s' ≡ quoted token side p cs (size_in s)
  unfolding apply_changes
  apply_changes-quoted [] s s' h = ground arith
  apply_changes-quoted (c ∷ cs) s s' h = elim (Option-cases (apply_change books c s)) [
    | inl e ↦ absurd (ground (arith, e))
    | inr (t, first) ↦
        apply_changes-quoted cs t s' (ground (arith, first))
        ∙ ap (λ (n : ℕ). quoted token side p cs n) (apply_change-quoted c s t first)
  ]

  table_from-own :
      (ls : List BookLevel) → AreDistinct ls → level_at p (table_from ls []) ≡ level_at p ls
  table_from-own ls own = ground (arith, table_from-at p ls [] own)

  -- The sorted side offers what its table does.
  sorted_side-at :
      (s : Changing)
      → AreDistinct (ladder side current)
      → level_at p (sorted_side token side s.tables current) ≡ size_in s
  unfolding table_of
  sorted_side-at s own = sorted_lem side s.tables own
    where
      sorted_lem :
          (d : Side) (tables : List SideTable)
          → AreDistinct (ladder d current)
          → level_at p (sorted_side token d tables current)
            ≡ level_at p (table_of token d tables current)
      sorted_lem buy tables distinct = elim (Option-cases (find (is_key token buy) tables)) [
        | inl e ↦
            rw (table_of, e) (rw (sorted_side, e) (sym (table_from-own current.bids distinct)))
        | inr (t, e) ↦ rw (table_of, e) (rw (sorted_side, e) (sort_falling-at p t.levels))
      ]
      sorted_lem sell tables distinct = elim (Option-cases (find (is_key token sell) tables)) [
        | inl e ↦
            rw (table_of, e) (rw (sorted_side, e) (sym (table_from-own current.asks distinct)))
        | inr (t, e) ↦ rw (table_of, e) (rw (sorted_side, e) (sort_levels-at p t.levels))
      ]

  pub changed-at :
      (cs : List RawChange) (s : Changing)
      → apply_changes books cs no_changes ≡ some s
      → AreDistinct (ladder side current)
      → level_at p (sorted_side token side s.tables current)
        ≡ quoted token side p cs (level_at p (ladder side current))
  unfolding table_of
  changed-at cs s applied own =
      sorted_side-at s own
      ∙ apply_changes-quoted cs no_changes s applied
      ∙ ap (λ (n : ℕ). quoted token side p cs n) (table_from-own (ladder side current) own)
