-- ===== src/Indexer/Snapshot/Allocate.antt =====
-- `allocate` of services/indexer/src/snapshot.ts: largest-remainder shares of one asset's total.
pub mod Priority
pub mod Rounds
pub mod Rows
pub mod Shares
pub mod Correct
pub mod Total
use penny_protocol.Base.{◌==◌, Bool, none, some, List, [], ◌∷◌, map, if◌then◌else◌, ℕ, ◌+◌, leb}
use penny_protocol.Base.Int.{ℤ, int_eq, pos, ◌+ℤ◌, ◌-ℤ◌, ◌*ℤ◌, quot_ℤ, rem_ℤ, ltb_ℤ, reduce_sum}
use penny_protocol.Base.Text.{Text, text_eq}
use penny_protocol.Base.Map
use penny_protocol.Base.Map.{Map}
use penny_protocol.Base.Sort.{sort}
use penny_protocol.Base.Result.{Result, ok, err, ◌>>=◌, ◌>>◌, throw_if}
use penny_protocol.Indexer.Events.{Error, no_balance, empty_eligible_supply, residual_not_absorbed}

pub record Row : Type 0 where
  pub w : Text
  pub order : ℕ
  pub quotient : ℤ
  pub remainder : ℤ

unfoldable pub row_of : Map Text ℤ → ℤ → ℤ → Text → ℕ → Result Error Row
row_of balances asset_total supply w i = elim (Map.get balances w) [
  | none ↦ err (no_balance w)
  | some balance ↦ ok (record {
    w = w;
    order = i;
    quotient = quot_ℤ (balance *ℤ asset_total) supply;
    remainder = rem_ℤ (balance *ℤ asset_total) supply;
  })
]

-- `walletsASC.map((w, i) => …)`, which throws at the first wallet with no balance.
unfoldable pub rows_of : Map Text ℤ → ℤ → ℤ → ℕ → List Text → Result Error (List Row)
unfolding row_of
rows_of balances asset_total supply i [] = ok []
rows_of balances asset_total supply i (w ∷ ws) = do
  row ← row_of balances asset_total supply w i
  rows ← rows_of balances asset_total supply (i + 1) ws
  ok (row ∷ rows)

-- The comparison of `rows.sort`: the larger remainder first, then the earlier wallet.
unfoldable pub row_leb : Row → Row → Bool
row_leb a b =
    if a.remainder == b.remainder then leb a.order b.order else ltb_ℤ b.remainder a.remainder

-- The loop over the iterator: one more unit to each row while units are left.
unfoldable pub grant : List Row → ℤ → Map Text ℤ → Map Text ℤ × ℤ
grant [] leftover shares = (shares, leftover)
grant (r ∷ rs) leftover shares =
    let next = grant rs (leftover -ℤ pos 1) (Map.set shares r.w (r.quotient +ℤ pos 1)) in
    if ltb_ℤ (pos 0) leftover then next else (shares, leftover)

-- The loop that gives the other rows their quotient.
unfoldable pub fill : List Row → Map Text ℤ → Map Text ℤ
fill [] shares = shares
fill (r ∷ rs) shares =
    fill rs (if Map.has shares r.w then shares else Map.set shares r.w r.quotient)

unfoldable pub distribute : List Row → ℤ → Result Error (Map Text ℤ)
unfolding grant fill row_leb
distribute rows asset_total =
    let leftover = asset_total -ℤ reduce_sum (pos 0) (map (λ r. r.quotient) rows) in
    let sorted = sort row_leb rows in
    let (shares, left) = grant sorted leftover [] in
    let all = fill sorted shares in if left == pos 0 then ok all else err residual_not_absorbed

unfoldable pub allocate : Map Text ℤ → List Text → ℤ → ℤ → Result Error (Map Text ℤ)
unfolding rows_of distribute
allocate balances wallets asset_total supply =
    if asset_total == pos 0 then ok (Map.from_entries [] (map (λ w. (w, pos 0)) wallets)) else (do
      throw_if (supply == pos 0) empty_eligible_supply
      rows ← rows_of balances asset_total supply 0 wallets
      distribute rows asset_total)
