-- ===== src/Indexer/BalanceRows.antt =====
-- services/indexer/src/balances.ts: rows of balances, and the check of their sum.
use penny_protocol.Base.Int.{reduce_sum, ℤ, int_eq, pos}
use penny_protocol.Base.{◌==◌, map, Bool, ℕ, List}
use penny_protocol.Base.Text.{Text}

pub record BalanceRow : Type 0 where
  pub block_number : ℤ
  pub block_hash : Text
  pub address : Text
  pub balance : ℤ
  pub confirmations : ℕ

unfoldable pub validate_supply_sum : List BalanceRow → ℤ → Bool
validate_supply_sum rows expected_supply =
    reduce_sum (pos 0) (map (λ (r : BalanceRow). r.balance) rows) == expected_supply
