-- ===== src/Repository/Backing.antt =====
-- What the executions and the obligations of a batch add up to.
pub mod Frame
pub mod Legs
pub mod Rows
pub mod Filled
pub mod Recorded
pub mod Repeat
pub mod Steps
pub mod Refreshed
pub mod Hedging
use poly_zq_trading.Prelude.{
  ℕ, ◌*◌, ◌≤◌, ◌≡◌, List, [], ◌∷◌, Option, none, some, ◌&&◌, sum_of, ◌==◌, if◌then◌else◌,
}
use poly_zq_trading.Analytics.Units.{one_share}
use poly_zq_trading.Analytics.Sizing.{round_shares_up}
use poly_zq_trading.Ledger.Types.{Execution, Obligation, Batch, Tables, Result, ok, err}
use poly_zq_trading.Ledger.Queries.{find_batch}
use poly_zq_trading.Repository.Sizing.{saved_hedge_ratios}
use poly_zq_trading.Repository.Entry.{is_ibkr}

-- The ZQ quantity executed for a batch.
abbrev pub zq_filled : ℕ → List Execution → ℕ
zq_filled id = sum_of (λ e. if is_ibkr e.venue && (e.batch_id == id) then e.quantity else 0)

-- The shares of a token that a batch owes.
abbrev pub due_total : ℕ → ℕ → List Obligation → ℕ
due_total id token =
    sum_of (λ ob. if (ob.batch_id == id) && (ob.token_id == token) then ob.due_shares else 0)

abbrev pub saved_ratio_of : ℕ → List (ℕ × ℕ) → ℕ
saved_ratio_of token [] = 0
saved_ratio_of token ((leg, ratio) ∷ rest) =
    if leg == token then ratio else saved_ratio_of token rest

-- With saved ratios, each token is due the rounded hedge of all that is filled.
abbrev pub IsSized : Result (Option (List (ℕ × ℕ))) → ℕ → ℕ → List Obligation → Type 0
IsSized (ok (some ratios)) filled id obs =
    (token : ℕ) → due_total id token obs ≡ round_shares_up (saved_ratio_of token ratios * filled)
IsSized (ok none) filled id obs = Unit
IsSized (err _) filled id obs = Unit

-- A batch that is missing has neither executions nor obligations.
abbrev pub IsBackedBy : Option Batch → ℕ → List Execution → List Obligation → Type 0
IsBackedBy none id es obs = (zq_filled id es ≡ 0) × ((token : ℕ) → due_total id token obs ≡ 0)
IsBackedBy (some b) id es obs =
    (zq_filled id es ≡ b.filled_quantity)
    × (b.filled_quantity ≤ b.zq_quantity * one_share)
    × IsSized (saved_hedge_ratios b.hedge_ratios b.hedge_sizing_method) b.filled_quantity id obs

abbrev pub IsBacked : ℕ → Tables → Type 0
IsBacked id t = IsBackedBy (find_batch id t.batches) id t.executions t.obligations

-- A call that may raise leaves the batch backed where it does not.
abbrev pub IsBackedAfter {ℓ} : {A : Type ℓ} → ℕ → (A → Tables) → Result A → Type 0
IsBackedAfter id tables (ok a) = IsBacked id (tables a)
IsBackedAfter id tables (err x) = Unit
