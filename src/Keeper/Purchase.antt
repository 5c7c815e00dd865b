-- ===== src/Keeper/Purchase.antt =====
-- services/keeper/src/purchase.ts: sweeping fees into a purchase, and what it funds.
pub mod Outcome
pub mod Funding
use penny_protocol.Base.Map
use penny_protocol.Base.{◌+◌, none, some}
use penny_protocol.Base.Int.{ltb_ℤ, ℤ, pos, ◌+ℤ◌}
use penny_protocol.Base.{
  nat_eq, leb, ◌&&◌, get_or, ◌==◌, ◌∷◌, ◌||◌, not, ltb, Bool, ℕ, [], if◌then◌else◌, List, Option,
}
use penny_protocol.Base.Map.{Map}
use Prim.Native.Nat.{ℕ}
use Prim.Native.String.{◌∷◌, []}
use penny_protocol.Base.Text.{text_eq, Text}
use penny_protocol.Indexer.Events.{BlockHeader}
use penny_protocol.Base.Sort.{sort}

pub record RewardDeposit : Type 0 where
  pub block_number : ℕ
  pub token : Text
  pub amount : ℤ
  pub purchase_index : ℕ

-- The calls of `ChainAdapter` that a purchase makes, on a chain whose states are `C`.
pub record PurchaseChain (C : Type 0) : Type 0 where
  pub fee_collector_weth : C → ℤ
  pub sweep : C → ℤ × C
  pub purchase_basket : C → ℤ × C
  pub tip : C → Option BlockHeader
  pub rewards_deposited : C → ℕ → ℕ → List RewardDeposit

pub data PurchaseReason : Type 0 where
  below_min_sweep swept : PurchaseReason

pub record PurchaseOutcome : Type 0 where
  pub reason : PurchaseReason
  pub swept_wei : ℤ
  pub spent_wei : ℤ
  pub deposits : List RewardDeposit

-- `a.blockNumber - b.blockNumber || a.purchaseIndex - b.purchaseIndex` is at most 0.
unfoldable pub deposit_leb : RewardDeposit → RewardDeposit → Bool
deposit_leb a b =
    ltb a.block_number b.block_number
    || ((a.block_number == b.block_number) && leb a.purchase_index b.purchase_index)

abbrev pub no_purchase : PurchaseOutcome
no_purchase = record {
  reason = below_min_sweep;
  swept_wei = pos 0;
  spent_wei = pos 0;
  deposits = [];
}

-- `(await this.adapter.getTip())?.number ?? windowStartBlock`
abbrev pub tip_or : Option BlockHeader → ℕ → ℕ
tip_or none window_start_block = window_start_block
tip_or (some b) window_start_block = b.number

module _ {C : Type 0} (adapter : PurchaseChain C) (min_sweep_wei : ℤ) where
  -- `inspect`: what the collector holds, and whether it can be swept.
  unfoldable pub inspect : C → ℤ × Bool
  inspect c =
      let collector_weth = adapter.fee_collector_weth c in
      (collector_weth, not (ltb_ℤ collector_weth min_sweep_wei))

  -- `sweptWei > 0n ? sweptWei : await this.adapter.purchaseBasket()`
  unfoldable pub spend : ℤ → C → ℤ × C
  spend swept_wei c = if ltb_ℤ (pos 0) swept_wei then (swept_wei, c) else adapter.purchase_basket c

  -- The deposits after the window's first block, up to the tip.
  unfoldable pub deposits_since : C → ℕ → List RewardDeposit
  unfolding deposit_leb
  deposits_since c window_start_block =
      let tip = tip_or (adapter.tip c) window_start_block in
      sort deposit_leb (adapter.rewards_deposited c (window_start_block + 1) tip)

  unfoldable pub purchase : C → ℕ → PurchaseOutcome × C
  unfolding inspect spend deposits_since
  purchase c window_start_block =
      if (inspect c).1
      then (let (swept_wei, c1) = adapter.sweep c in
          let (spent_wei, c2) = spend swept_wei c1 in
          (
            record {
              reason = swept;
              swept_wei = swept_wei;
              spent_wei = spent_wei;
              deposits = deposits_since c2 window_start_block;
            },
            c2,
          ))
      else (no_purchase, c)

pub record FundingLedger : Type 0 where
  pub per_asset : Map Text ℤ
  pub prior_residual : Map Text ℤ
  pub funded_totals : Map Text ℤ

-- The loop over the deposits.
unfoldable pub add_deposits : Map Text ℤ → List RewardDeposit → Map Text ℤ
add_deposits per_asset [] = per_asset
add_deposits per_asset (d ∷ ds) =
    add_deposits
      (Map.set per_asset d.token (get_or (Map.get per_asset d.token) (pos 0) +ℤ d.amount)) ds

-- The loop over the tokens.
unfoldable pub fund_tokens :
    Map Text ℤ → Map Text ℤ → Map Text ℤ → Map Text ℤ → List Text → Map Text ℤ × Map Text ℤ
fund_tokens per_asset prior norm funded [] = (norm, funded)
fund_tokens per_asset prior norm funded (token ∷ tokens) =
    let deposits_this = get_or (Map.get per_asset token) (pos 0) in
    let residual = get_or (Map.get prior token) (pos 0) in
    fund_tokens per_asset prior (Map.set norm token residual)
      (Map.set funded token (deposits_this +ℤ residual)) tokens

unfoldable pub funding : List RewardDeposit → Map Text ℤ → FundingLedger
unfolding add_deposits fund_tokens
funding deposits prior_residual =
    let per_asset = add_deposits [] deposits in
    let tokens = Map.set_of (Map.set_of [] (Map.keys per_asset)) (Map.keys prior_residual) in
    let (norm, funded) = fund_tokens per_asset prior_residual [] [] tokens in
    record { per_asset = per_asset; prior_residual = norm; funded_totals = funded }
