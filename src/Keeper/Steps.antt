-- ===== src/Keeper/Steps.antt =====
-- services/keeper/src/steps.ts: the steps of a cycle, and what they share.
pub mod Recorded
pub mod Intake
pub mod Release
pub mod Frame
pub mod Activated
pub mod Sent
pub mod Reconciled
pub mod Funded
pub mod Crash
use penny_protocol.Keeper.StepStore.{StepStore}
use penny_protocol.Keeper.Purchase.{RewardDeposit, PurchaseOutcome, tip_or, PurchaseChain}
use penny_protocol.Keeper.Publish.{PublishError, Distributor}
use penny_protocol.Indexer.Events.{BlockHeader, Error}
use penny_protocol.Keeper.Pipeline.{ManifestError, TreeError, IngestRun, EpochCursor}
use penny_protocol.Base.Result.{ok, err, Result}
use penny_protocol.Indexer.Store.{MemoryStore}
use penny_protocol.Base.{some, map, Bool, List, none, true, Option, ℕ}
use penny_protocol.Indexer.Ingest.{SnapshotResult, Indexer}
use penny_protocol.Indexer.Manifest.{Json}
use penny_protocol.Base.Text.{Text}
use penny_protocol.Indexer.Merkle.{Viem}
use Prim.Native.Nat.{ℕ}
use penny_protocol.Keeper.State.{StepRecord, input_hash_of}
use penny_protocol.Keeper.Config.{KeeperConfig}
use penny_protocol.Base.Map.{Map}
use penny_protocol.Base.Int.{ℤ}
use penny_protocol.Indexer.Epoch.{EpochResult}

-- `ChainAdapter`, on a chain whose states are `C`; its tip and deposits are among the purchase's.
pub record Chain (C : Type 0) : Type 0 where
  pub purchases : PurchaseChain C
  pub distributor : Distributor C
  pub get_blocks : C → ℕ → ℕ → List BlockHeader
  pub vault_balance : C → Text → ℤ
  pub market_session_open : C → Bool
  pub sweep_enabled : C → Bool

pub record DeliveryEntry : Type 0 where
  pub wallet : Text
  pub cumulative : List ℤ
  pub proof : List Text
  pub attestation_expiry : ℤ
  pub attestation_signature : Text

-- `claimForMany` answers with the number delivered, or fails.
pub record CycleContext (C : Type 0) : Type 0 where
  pub cycle_id : Text
  pub cursor : EpochCursor
  pub ingest : Option IngestRun
  pub purchase : Option PurchaseOutcome
  pub deposits : Option (List RewardDeposit)
  pub funded : Option (Map Text ℤ)
  pub funding_tip : Option ℕ
  pub assets : Option (List Text)
  pub snapshot : Option SnapshotResult
  pub epoch : Option EpochResult
  pub relay_armed : Bool
  pub deliveries : Option (List DeliveryEntry)
  pub claim_for_many : Option (C → ℕ → List DeliveryEntry → Option ℕ × C)

-- A step ends in one of three of the statuses of a record.
pub data Ending : Type 0 where
  succeeded skipped failed : Ending

pub record StepOutcome : Type 0 where
  pub status : Ending
  pub at_block : Option ℕ
  pub detail : Option Text
  pub error : Option Text
  pub input_hash : Option Text

-- `ok(hash, { atBlock, detail })`; where the source adds `inputHash` it is the same hash.
abbrev pub step_ok : Text → Option ℕ → Option Text → StepOutcome
step_ok hash at_block detail = record {
  status = Ending.succeeded;
  at_block = at_block;
  detail = detail;
  error = none;
  input_hash = some hash;
}

abbrev pub step_skip : Text → Option Text → StepOutcome
step_skip reason hash = record {
  status = Ending.skipped;
  at_block = none;
  detail = some reason;
  error = none;
  input_hash = hash;
}

abbrev pub step_fail : Text → StepOutcome
step_fail error = record {
  status = Ending.failed;
  at_block = none;
  detail = none;
  error = some error;
  input_hash = none;
}

-- The write-ahead intent.
pub record ProposeIntent : Type 0 where
  pub root : Text
  pub epoch_index : ℕ
  pub snapshot_block : ℕ
  pub content_hash : Text
  pub funded : Map Text Text
  pub next_cursor : Text

-- An object that `JSON.parse` returned, taken as a cursor, and whether its two numbers are there.
pub record ParsedCursor : Type 0 where
  pub cursor : EpochCursor
  pub has_epoch_index : Bool
  pub has_funded_up_to_block : Bool

abbrev pub whole : EpochCursor → ParsedCursor
whole cursor = record { cursor = cursor; has_epoch_index = true; has_funded_up_to_block = true }

-- What a step throws.
pub data Thrown : Type 0 where
  indexer_failed : Error → Thrown
  tree_failed : TreeError → Thrown
  publish_failed : PublishError → Thrown
  claim_not_wired claim_failed : Thrown

-- What the source takes from its language and libraries: viem, JSON's texts of cursors and intents
-- (none where `JSON.parse` throws), the wording of errors, and the date in a manifest.
pub record Host : Type 0 where
  pub viem : Viem
  pub quote : Text → Text
  pub stringify_cursor : EpochCursor → Text
  pub parse_cursor : Text → Option ParsedCursor
  pub stringify_intent : ProposeIntent → Text
  pub parse_intent : Text → Option ProposeIntent
  pub message : Thrown → Text
  pub join_errors : List ManifestError → Text
  pub generated_at : Text

-- `KeeperSpec`, without the metrics.
pub record KeeperSpec (C S : Type 0) : Type 0 where
  pub adapter : Chain C
  pub indexer : Indexer
  pub store : StepStore S
  pub config : KeeperConfig
  pub host : Host
  -- Whether the put of a step's record, whose failure is swallowed, goes through.
  pub lands : StepRecord → Bool

-- All that a step may change: the chain, the ledger, the indexer's store and the context.
pub record Cycle (C S : Type 0) : Type 0 where
  pub chain : C
  pub ledger : S
  pub indexed : MemoryStore
  pub ctx : CycleContext C

abbrev pub Step : Type 0 → Type 0 → Type 0
Step C S = Cycle C S → Result Thrown StepOutcome × Cycle C S

-- A hash of a step's inputs, or the error of `inputHash`.
abbrev pub hash_inputs : Host → Json → Result Thrown Text
hash_inputs host value = elim (input_hash_of host.viem host.quote value) [
  | err e ↦ err (indexer_failed e)
  | ok hash ↦ ok hash
]

abbrev pub tip_number : {C : Type 0} → Chain C → C → ℕ
tip_number adapter c = tip_or (adapter.purchases.tip c) 0
