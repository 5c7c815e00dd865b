-- ===== src/Keeper/Pipeline.antt =====
-- services/keeper/src/pipeline.ts: from the rescan window to a gated epoch, and its cursor.
pub mod Assets
pub mod Cursor
pub mod Validate
use penny_protocol.Base.Map
use penny_protocol.Base.{
  map, length, get_or, ◌++◌, filter_by, false, ◌==◌, not, nat_beq, true, if◌then◌else◌, ◌∷◌, List,
  [], Option, Bool, ℕ, none, some,
}
use penny_protocol.Base.Int.{int_eq, ltb_ℤ, ◌-ℤ◌, pos_part, negsuc, ℤ, pos, ◌+ℤ◌}
use penny_protocol.Base.Result.{err, ok, Result, ◌>>=◌, ◌>>◌}
use penny_protocol.Indexer.Cumulative.{CumulativeByAsset}
use penny_protocol.Base.Map.{Map}
use penny_protocol.Base.Text.{codes, text_leb, text_eq, Text}
use penny_protocol.Indexer.Merkle.{zero_root, Viem}
use penny_protocol.Indexer.Epoch.{build_epoch, strings, EpochSpec, EpochResult}
use penny_protocol.Indexer.Events.{BlockHeader, Error}
use penny_protocol.Indexer.Ingest.{ingest_range, Indexer, SnapshotResult}
use penny_protocol.Keeper.Config.{KeeperConfig}
use penny_protocol.Base.Decimal.{read_digits}
use penny_protocol.Indexer.Store.{MemoryStore}
use penny_protocol.Keeper.State.{input_hash_of}
use penny_protocol.Base.Sort.{sort}
use penny_protocol.Indexer.Manifest.{Fields, Json, show_ℤ}
use penny_protocol.Keeper.Amounts.{parse_number, CursorError}

pub record IngestRun : Type 0 where
  pub from_block : ℕ
  pub to_block : ℕ
  pub pushed_blocks : ℕ
  pub pushed_transfers : ℕ
  pub rolled_back_at_fork : Option ℕ
  pub hash : Text

-- The object that is hashed for a batch.
unfoldable pub batch_inputs : ℕ → ℕ → List BlockHeader → Json
batch_inputs from to blocks = Json.object (
    Fields.field (codes "from") (Json.number from) (
      Fields.field (codes "to") (Json.number to) (
        Fields.field (codes "hashes")
          (Json.array (strings (map (λ (b : BlockHeader). b.hash) blocks))) Fields.none_left)))

-- `cursor.residual` and `cursor.cumulative` hold their bigints as decimal strings.
pub record EpochCursor : Type 0 where
  pub finalized_block : ℕ
  pub epoch_index : ℤ
  pub root : Text
  pub residual : Map Text Text
  pub cumulative : Map Text (Map Text Text)
  pub funded_up_to_block : ℕ

abbrev pub empty_cursor : EpochCursor
empty_cursor = record {
  finalized_block = 0;
  epoch_index = negsuc 0;
  root = zero_root;
  residual = [];
  cumulative = [];
  funded_up_to_block = 0;
}

-- `for (const [k, v] of Object.entries(texts)) out[k] = BigInt(v)`
unfoldable pub parse_record : Map Text ℤ → Map Text Text → Result CursorError (Map Text ℤ)
unfolding parse_number
parse_record out [] = ok out
parse_record out ((k, text) ∷ rest) = do n ← parse_number text; parse_record (Map.set out k n) rest

unfoldable pub parse_assets :
    CumulativeByAsset → Map Text (Map Text Text) → Result CursorError CumulativeByAsset
unfolding parse_record
parse_assets out [] = ok out
parse_assets out ((asset, by_wallet) ∷ rest) = do
  values ← parse_record [] by_wallet
  parse_assets (Map.set out asset values) rest

unfoldable pub to_cumulative : Map Text (Map Text Text) → Result CursorError CumulativeByAsset
unfolding parse_assets
to_cumulative = parse_assets []

-- `for (const [k, v] of Object.entries(values)) out[k] = v.toString()`
unfoldable pub show_record : Map Text Text → Map Text ℤ → Map Text Text
show_record out [] = out
show_record out ((k, n) ∷ rest) = show_record (Map.set out k (show_ℤ n)) rest

unfoldable pub show_assets : Map Text (Map Text Text) → CumulativeByAsset → Map Text (Map Text Text)
unfolding show_record
show_assets out [] = out
show_assets out ((asset, by_wallet) ∷ rest) =
    show_assets (Map.set out asset (show_record [] by_wallet)) rest

unfoldable pub cursor_of : EpochResult → SnapshotResult → Map Text ℤ → ℕ → EpochCursor
unfolding show_assets
cursor_of epoch taken residual funding_tip = record {
  finalized_block = taken.block.number;
  epoch_index = pos epoch.epoch_index;
  root = epoch.root;
  residual = show_record [] residual;
  cumulative = show_assets [] epoch.new_cumulative;
  funded_up_to_block = funding_tip;
}

-- The loop that adds the residuals to the funding.
unfoldable pub add_residuals : Map Text ℤ → Map Text ℤ → Map Text ℤ
add_residuals funded [] = funded
add_residuals funded ((token, residual) ∷ rest) =
    add_residuals
      (if residual == pos 0
        then funded
        else Map.set funded token (get_or (Map.get funded token) (pos 0) +ℤ residual))
      rest

-- The assets with something to pay out, in ascending order.
unfoldable pub funded_assets : Map Text ℤ → List Text
funded_assets funded = sort text_leb (
    filter_by (λ a. ltb_ℤ (pos 0) (get_or (Map.get funded a) (pos 0)))
      (Map.set_of [] (Map.keys funded)))

pub data ManifestError : Type 0 where
  gate_failed : ManifestError
  index_mismatch : ℕ → ℕ → ManifestError
  hash_mismatch : ManifestError

-- `if (c) errors.push(e)`
abbrev pub complain : Bool → ManifestError → List ManifestError
complain true e = e ∷ []
complain false e = []

pub record TreeBuild : Type 0 where
  pub epoch : Option EpochResult
  pub assets : List Text
  pub funded : Map Text ℤ

-- What `treeBuild` throws: a cursor that does not parse, or an error of the indexer.
pub data TreeError : Type 0 where
  bad_cursor : CursorError → TreeError
  build_failed : Error → TreeError

abbrev pub from_cursor : {A : Type 0} → Result CursorError A → Result TreeError A
from_cursor (ok a) = ok a
from_cursor (err e) = err (bad_cursor e)

abbrev pub from_build : Result Error EpochResult → Result TreeError EpochResult
from_build (ok r) = ok r
from_build (err e) = err (build_failed e)

module _ (v : Viem) (quote : Text → Text) where
  unfoldable pub ingest_batch :
      Indexer
      → Option BlockHeader
      → (ℕ → ℕ → List BlockHeader)
      → ℤ
      → MemoryStore
      → Result Error (IngestRun × MemoryStore)
  unfolding batch_inputs
  ingest_batch indexer none get_blocks rescan_window s = ok (
    record {
      from_block = pos_part (pos 0 -ℤ rescan_window);
      to_block = 0;
      pushed_blocks = 0;
      pushed_transfers = 0;
      rolled_back_at_fork = none;
      hash = [];
    },
    s,
  )
  ingest_batch indexer (some tip) get_blocks rescan_window s = do
    let to_block = tip.number
    let from_block = pos_part (pos to_block -ℤ rescan_window)
    let blocks = get_blocks from_block to_block
    ingested ← ingest_range indexer s from_block to_block
    hash ← input_hash_of v quote (batch_inputs from_block to_block blocks)
    ok (
      record {
        from_block = from_block;
        to_block = to_block;
        pushed_blocks = ingested.0.pushed_blocks;
        pushed_transfers = ingested.0.pushed_transfers;
        rolled_back_at_fork = ingested.0.rolled_back_at_fork;
        hash = hash;
      },
      ingested.1,
    )

  -- The specification that is handed to the indexer.
  abbrev pub spec_of :
      KeeperConfig → ℕ → List Text → Map Text ℤ → Map Text ℤ → CumulativeByAsset → Text → EpochSpec
  spec_of config epoch_index assets funded vault_balances prior generated_at = record {
    chain_id = config.chain_id;
    distributor = config.addresses.distributor;
    epoch_index = epoch_index;
    assets = assets;
    funded_totals = funded;
    vault_balances = vault_balances;
    prior_cumulative = some prior;
    exclusions = some config.excluded;
    at_block = none;
    meta = record {
      generated_at = generated_at;
      software_version = codes "keeper@0.1.0";
      commit = none;
    };
  }

  -- The part of `treeBuild` past its early return.
  unfoldable pub build_tree :
      Indexer
      → MemoryStore
      → KeeperConfig
      → EpochCursor
      → Map Text ℤ
      → List Text
      → Map Text ℤ
      → ℕ
      → Text
      → Result TreeError TreeBuild
  build_tree indexer s config cursor totals assets vault_balances epoch_index generated_at = do
    prior ← from_cursor (to_cumulative cursor.cumulative)
    epoch ← from_build (
        build_epoch v quote indexer s
          (spec_of config epoch_index assets totals vault_balances prior generated_at))
    ok (record { epoch = some epoch; assets = assets; funded = totals })

  -- `epoch_index` is the distributor's count, and `generated_at` the present time.
  unfoldable pub tree_build :
      Indexer
      → MemoryStore
      → KeeperConfig
      → EpochCursor
      → Map Text ℤ
      → Map Text ℤ
      → ℕ
      → Text
      → Result TreeError TreeBuild
  unfolding add_residuals funded_assets build_tree
  tree_build indexer s config cursor funded vault_balances epoch_index generated_at = do
    prior_residual ← from_cursor (parse_record [] cursor.residual)
    let totals = add_residuals funded prior_residual
    let assets = funded_assets totals
    if nat_beq (length assets) 0
        then ok (record { epoch = none; assets = []; funded = totals })
        else build_tree indexer s config cursor totals assets vault_balances epoch_index
            generated_at

  unfoldable pub manifest_validate : EpochResult → ℕ → Result Error (List ManifestError)
  manifest_validate epoch expected_epoch_index = do
    remanifest ← input_hash_of v quote epoch.manifest.payload
    ok (
        complain (not epoch.reconciled.ok) gate_failed
        ++ (complain (not (nat_beq epoch.epoch_index expected_epoch_index))
              (index_mismatch epoch.epoch_index expected_epoch_index)
            ++ complain (not (remanifest == epoch.manifest.content_hash)) hash_mismatch))
