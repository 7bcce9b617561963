-- ===== src/Ledger/Executions/Evolution.antt =====
-- A relation between the executions before and after a call, row by row.
use poly_zq_trading.Prelude.{
  ℕ, ◌≤◌, List, [], ◌∷◌, ◌++◌, some, Bool, true, false, ◌||◌, find, ltb, if◌then◌else◌, ◌≡◌, ◌⊎◌,
  refl, inl, inr, ◌&&◌, arith, Bool-cases, ◌∙◌, ◌+◌, subst,
}
use poly_zq_trading.Ledger.Types.{OrderId, TradeStatus, Execution}
use poly_zq_trading.Ledger.Queries.{same_status, trade_rank, is_execution_of, write}
use poly_zq_trading.Ledger.Refresh.{is_confirmed, is_pending, settle}
use poly_zq_trading.Ledger.Executions.{is_conflict, contradicts}

abbrev pub is_settled : TradeStatus → Bool
is_settled TradeStatus.confirmed = true
is_settled TradeStatus.failed = true
is_settled TradeStatus.conflict = true
is_settled _ = false

-- A status stays, falls into conflict, or moves on in rank from one that is not settled.
abbrev pub StatusStep : TradeStatus → TradeStatus → Type 0
StatusStep s s' =
    (s' ≡ s)
    ⊎ (s' ≡ TradeStatus.conflict)
    ⊎ ((is_settled s ≡ false) × (trade_rank s ≤ trade_rank s'))

pub record IsSameFill (e e' : Execution) : Type 0 where
  pub venue : e'.venue ≡ e.venue
  pub execution_id : e'.execution_id ≡ e.execution_id
  pub venue_order_id : e'.venue_order_id ≡ e.venue_order_id
  pub quantity : e'.quantity ≡ e.quantity
  pub price : e'.price ≡ e.price
  pub executed_at : e'.executed_at ≡ e.executed_at
  pub status : StatusStep e.status e'.status

-- Each row stays in its place as the same fill; rows are added at the end alone.
unfoldable pub Evolves : List Execution → List Execution → Type 0
Evolves [] es' = Unit
Evolves (e ∷ es) [] = ⊥
Evolves (e ∷ es) (e' ∷ es') = IsSameFill e e' × Evolves es es'

StatusStep-trans : (a b c : TradeStatus) → StatusStep a b → StatusStep b c → StatusStep a c
StatusStep-trans a b c p q = ground arith

pub status_advances :
    (s s' : TradeStatus)
    → (is_conflict s || contradicts s s') ≡ false
    → (same_status s s' || ltb (trade_rank s') (trade_rank s)) ≡ false
    → StatusStep s s'
status_advances s s' a b = ground arith

IsSameFill-refl : (e : Execution) → IsSameFill e e
IsSameFill-refl e = record {
  venue = refl;
  execution_id = refl;
  venue_order_id = refl;
  quantity = refl;
  price = refl;
  executed_at = refl;
  status = inl refl;
}

IsSameFill-trans : (a b c : Execution) → IsSameFill a b → IsSameFill b c → IsSameFill a c
IsSameFill-trans a b c p q = record {
  venue = q.venue ∙ p.venue;
  execution_id = q.execution_id ∙ p.execution_id;
  venue_order_id = q.venue_order_id ∙ p.venue_order_id;
  quantity = q.quantity ∙ p.quantity;
  price = q.price ∙ p.price;
  executed_at = q.executed_at ∙ p.executed_at;
  status = StatusStep-trans a.status b.status c.status p.status q.status;
}

pub Evolves-refl : (es : List Execution) → Evolves es es
unfolding Evolves
Evolves-refl [] = tt
Evolves-refl (e ∷ es) = (IsSameFill-refl e, Evolves-refl es)

pub Evolves-trans : (xs ys zs : List Execution) → Evolves xs ys → Evolves ys zs → Evolves xs zs
unfolding Evolves
Evolves-trans [] ys zs p q = tt
Evolves-trans (a ∷ xs) [] zs p q = absurd p
Evolves-trans (a ∷ xs) (b ∷ ys) [] p q = absurd q
Evolves-trans (a ∷ xs) (b ∷ ys) (c ∷ zs) p q =
    (IsSameFill-trans a b c p.0 q.0, Evolves-trans xs ys zs p.1 q.1)

pub Evolves-append : (es new : List Execution) → Evolves es (es ++ new)
unfolding Evolves
Evolves-append [] new = tt
Evolves-append (e ∷ es) new = (IsSameFill-refl e, Evolves-append es new)

pub Evolves-write :
    (p : Execution → Bool) (e e' : Execution) (es : List Execution)
    → find p es ≡ some e
    → IsSameFill e e'
    → Evolves es (write p e' es)
unfolding Evolves write
Evolves-write p e e' [] h s = tt
Evolves-write p e e' (x ∷ es) h s = elim (Bool-cases (p x)) [
  | inl here ↦ rw here (subst (λ y. IsSameFill y e') (ground arith) s, Evolves-refl es)
  | inr there ↦ rw there (IsSameFill-refl x, Evolves-write p e e' es (ground arith) s)
]

pub Evolves-settle :
    (due : ℕ) (ids : List OrderId) (c p : ℕ) (es : List Execution)
    → Evolves es (settle due ids c p es).0
unfolding Evolves settle
Evolves-settle due ids c p [] = tt
Evolves-settle due ids c p (e ∷ es) =
    let mine = is_execution_of ids e in
    let credit = mine && is_confirmed e.status in
    let hold = mine && is_pending e.status in
    let rest =
      Evolves-settle due ids (if credit then c + e.quantity else c)
        (if hold then p + e.quantity else p) es in
    (
      record {
        venue = refl;
        execution_id = refl;
        venue_order_id = refl;
        quantity = refl;
        price = refl;
        executed_at = refl;
        status = inl refl;
      },
      rest,
    )
