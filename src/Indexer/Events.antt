-- ===== src/Indexer/Events.antt =====
-- services/indexer/src/events.ts: what the chain reports, and the errors that the indexer throws.
use penny_protocol.Base.{ℕ, List}
use penny_protocol.Base.Int.{ℤ}
use penny_protocol.Base.Text.{Text}

pub record BlockHeader : Type 0 where
  pub number : ℕ
  pub hash : Text
  pub parent_hash : Text

pub record TransferLog : Type 0 where
  pub block_number : ℕ
  pub tx_index : ℕ
  pub log_index : ℕ
  pub from : Text
  pub to : Text
  pub amount : ℤ

-- `BlockSource`: the node that the indexer reads; `getTip` is never called by the indexer.
pub record BlockSource : Type 0 where
  pub get_blocks : ℕ → ℕ → List BlockHeader
  pub get_transfers : ℕ → ℕ → List TransferLog

-- One constructor for each `throw` of the indexer, with the prefix of its message as its name.
pub data Error : Type 0 where
  inverted_range non_contiguous_chain : Error
  no_confirmed_blocks block_not_ingested block_not_final : Error
  empty_eligible_supply residual_not_absorbed : Error
  no_balance : Text → Error
  empty_asset_list delta_assets_mismatch : Error
  missing_leaf empty_tree index_out_of_range : Error
  -- What viem throws on a wallet that is no address, or an amount that is no uint256.
  not_encodable : Error
  reconcile_failed : ℕ → Error
  cannot_canonicalize : Error
  -- The loop bound of the model, which no run reaches.
  out_of_fuel : Error
