-- ===== src/Ledger/Refresh/Settling.antt =====
-- The totals of `_refresh_hedge`'s loop over the executions.
use poly_zq_trading.Prelude.{
  ℕ, ◌+◌, List, [], ◌∷◌, ◌&&◌, sum_of, min, if◌then◌else◌, ◌≡◌, refl, arith,
}
use poly_zq_trading.Ledger.Types.{OrderId, Execution}
use poly_zq_trading.Ledger.Queries.{is_execution_of}
use poly_zq_trading.Ledger.Refresh.{is_confirmed, is_pending, recorded_under, settle}

-- The quantity of the executions under the ids that the venue confirmed.
unfoldable pub confirmed_of : List OrderId → List Execution → ℕ
confirmed_of ids =
    sum_of (λ e. if is_execution_of ids e && is_confirmed e.status then e.quantity else 0)

-- The quantity of those that are neither confirmed nor failed.
unfoldable pub pending_of : List OrderId → List Execution → ℕ
pending_of ids =
    sum_of (λ e. if is_execution_of ids e && is_pending e.status then e.quantity else 0)

-- The quantity allocated to the obligation over the executions under the ids.
unfoldable pub allocated_of : List OrderId → List Execution → ℕ
allocated_of ids = sum_of (λ e. if is_execution_of ids e then e.allocated_shares else 0)

pub settle-confirmed :
    (due : ℕ) (ids : List OrderId) (c p : ℕ) (es : List Execution)
    → (settle due ids c p es).1 ≡ c + confirmed_of ids es
unfolding settle confirmed_of
settle-confirmed due ids c p [] = omega arith
settle-confirmed due ids c p (e ∷ es) =
    let mine = is_execution_of ids e in
    let credit = mine && is_confirmed e.status in
    let hold = mine && is_pending e.status in
    let rest =
      settle-confirmed due ids (if credit then c + e.quantity else c)
        (if hold then p + e.quantity else p) es in
    ground (arith, rest)

pub settle-pending :
    (due : ℕ) (ids : List OrderId) (c p : ℕ) (es : List Execution)
    → (settle due ids c p es).2 ≡ p + pending_of ids es
unfolding settle pending_of
settle-pending due ids c p [] = omega arith
settle-pending due ids c p (e ∷ es) =
    let mine = is_execution_of ids e in
    let credit = mine && is_confirmed e.status in
    let hold = mine && is_pending e.status in
    let rest =
      settle-pending due ids (if credit then c + e.quantity else c)
        (if hold then p + e.quantity else p) es in
    ground (arith, rest)

pub settle-allocated :
    (due : ℕ) (ids : List OrderId) (c p : ℕ) (es : List Execution)
    → min c due + allocated_of ids (settle due ids c p es).0 ≡ min (c + confirmed_of ids es) due
unfolding settle confirmed_of allocated_of
settle-allocated due ids c p [] = omega arith
settle-allocated due ids c p (e ∷ es) =
    let mine = is_execution_of ids e in
    let credit = mine && is_confirmed e.status in
    let hold = mine && is_pending e.status in
    let rest =
      settle-allocated due ids (if credit then c + e.quantity else c)
        (if hold then p + e.quantity else p) es in
    ground (arith, rest)

-- The loop changes the allocations alone.
pub confirmed_of-settle :
    (due : ℕ) (ids : List OrderId) (c p : ℕ) (es : List Execution)
    → confirmed_of ids (settle due ids c p es).0 ≡ confirmed_of ids es
unfolding settle confirmed_of
confirmed_of-settle due ids c p [] = refl
confirmed_of-settle due ids c p (e ∷ es) =
    let mine = is_execution_of ids e in
    let credit = mine && is_confirmed e.status in
    let hold = mine && is_pending e.status in
    let rest =
      confirmed_of-settle due ids (if credit then c + e.quantity else c)
        (if hold then p + e.quantity else p) es in
    omega (arith, rest)

pub pending_of-settle :
    (due : ℕ) (ids : List OrderId) (c p : ℕ) (es : List Execution)
    → pending_of ids (settle due ids c p es).0 ≡ pending_of ids es
unfolding settle pending_of
pending_of-settle due ids c p [] = refl
pending_of-settle due ids c p (e ∷ es) =
    let mine = is_execution_of ids e in
    let credit = mine && is_confirmed e.status in
    let hold = mine && is_pending e.status in
    let rest =
      pending_of-settle due ids (if credit then c + e.quantity else c)
        (if hold then p + e.quantity else p) es in
    omega (arith, rest)

pub recorded_under-settle :
    (id : OrderId) (due : ℕ) (ids : List OrderId) (c p : ℕ) (es : List Execution)
    → recorded_under id ids (settle due ids c p es).0 ≡ recorded_under id ids es
unfolding settle recorded_under
recorded_under-settle id due ids c p [] = refl
recorded_under-settle id due ids c p (e ∷ es) =
    let mine = is_execution_of ids e in
    let credit = mine && is_confirmed e.status in
    let hold = mine && is_pending e.status in
    let rest =
      recorded_under-settle id due ids (if credit then c + e.quantity else c)
        (if hold then p + e.quantity else p) es in
    omega (arith, rest)
