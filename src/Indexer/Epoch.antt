-- ===== src/Indexer/Epoch.antt =====
-- `buildEpoch` of services/indexer/src/indexer.ts: from a snapshot to a tree, gated and hashed.
pub mod Awards
pub mod Payload
pub mod Proven
pub mod Settled
pub mod Total
use penny_protocol.Base.{ℕ, ◌+◌, not, Option, none, some, get_or, List, [], ◌∷◌, map, length}
use penny_protocol.Base.Int.{ℤ, pos, ◌-ℤ◌, reduce_sum, pos_part}
use penny_protocol.Base.Text.{Text, text_eq, codes}
use penny_protocol.Base.Map
use penny_protocol.Base.Map.{Map}
use penny_protocol.Base.Result.{Result, ok, ◌>>=◌, ◌>>◌, throw_if}
use penny_protocol.Indexer.Events.{Error, reconcile_failed}
use penny_protocol.Indexer.Snapshot.{eligible}
use penny_protocol.Indexer.Snapshot.Allocate.{allocate}
use penny_protocol.Indexer.Cumulative.{CumulativeByAsset, of_asset, of_wallet, apply_cumulative}
use penny_protocol.Indexer.Reconcile.{ReconcileResult, amount, reconcile}
use penny_protocol.Indexer.Merkle.{Viem, leaf_for, root_of, proof_for}
use penny_protocol.Indexer.Store.{MemoryStore}
use penny_protocol.Indexer.Ingest.{Indexer, SnapshotResult, snapshot}
use penny_protocol.Indexer.Manifest.{
  Json, Items, Fields, ManifestMeta, ManifestBundle, build_manifest, show_ℤ,
}

pub record EpochSpec : Type 0 where
  pub chain_id : ℕ
  pub distributor : Text
  pub epoch_index : ℕ
  pub assets : List Text
  pub funded_totals : Map Text ℤ
  pub vault_balances : Map Text ℤ
  pub prior_cumulative : Option CumulativeByAsset
  pub exclusions : Option (List Text)
  pub at_block : Option ℕ
  pub meta : ManifestMeta

pub record EpochWalletProof : Type 0 where
  pub wallet : Text
  pub cumulative : List ℤ
  pub proof : List Text

-- What the loop over the assets collects.
pub record Totals : Type 0 where
  pub deltas : CumulativeByAsset
  pub distributed_totals : Map Text ℤ
  pub residual : Map Text ℤ

pub record EpochResult : Type 0 where
  pub taken : SnapshotResult
  pub epoch_index : ℕ
  pub assets : List Text
  pub root : Text
  pub leaves : List Text
  pub wallets : List Text
  pub new_cumulative : CumulativeByAsset
  pub proofs : List EpochWalletProof
  pub distributed_totals : Map Text ℤ
  pub residual : Map Text ℤ
  pub reconciled : ReconcileResult
  pub manifest : ManifestBundle

unfoldable pub award :
    Map Text ℤ → List Text → ℤ → Map Text ℤ → Totals → List Text → Result Error Totals
award balances wallets supply funded t [] = ok t
award balances wallets supply funded t (asset ∷ rest) = do
  shares ← allocate balances wallets (amount funded asset) supply
  let distributed = reduce_sum (pos 0) (Map.values shares)
  award balances wallets supply funded
      (record {
        deltas = Map.set t.deltas asset (Map.from_entries [] shares);
        distributed_totals = Map.set t.distributed_totals asset distributed;
        residual = Map.set t.residual asset (amount funded asset -ℤ distributed);
      })
      rest

abbrev pub no_totals : Totals
no_totals = record { deltas = []; distributed_totals = []; residual = [] }

-- `spec.assets.map((a) => newCumulative[a]?.[w] ?? 0n)`
abbrev pub entitlements : CumulativeByAsset → List Text → Text → List ℤ
entitlements cumulative assets w = map (λ a. of_wallet (of_asset cumulative a) w) assets

-- The payload's arrays and records.
unfoldable pub strings : List Text → Items
strings [] = Items.nil
strings (t ∷ ts) = Items.cons (Json.string t) (strings ts)

unfoldable bigints : List ℤ → Items
bigints [] = Items.nil
bigints (x ∷ xs) = Items.cons (Json.bigint x) (bigints xs)

-- `stringifyRecord`
unfoldable stringify_record : Map Text ℤ → Fields
unfolding show_ℤ
stringify_record [] = Fields.none_left
stringify_record ((k, v) ∷ rest) = Fields.field k (Json.string (show_ℤ v)) (stringify_record rest)

unfoldable proof_items : List EpochWalletProof → Items
unfolding strings bigints
proof_items [] = Items.nil
proof_items (p ∷ ps) =
    Items.cons
      (Json.object (
        Fields.field (codes "wallet") (Json.string p.wallet) (
          Fields.field (codes "cumulative") (Json.array (bigints p.cumulative))
            (Fields.field (codes "proof") (Json.array (strings p.proof)) Fields.none_left))))
      (proof_items ps)

unfoldable or_null : Option Text → Json
or_null none = Json.null
or_null (some t) = Json.string t

module _ (v : Viem) (quote : Text → Text) where
  unfoldable pub leaves_of : CumulativeByAsset → List Text → List Text → Result Error (List Text)
  leaves_of cumulative assets [] = ok []
  leaves_of cumulative assets (w ∷ ws) = do
    leaf ← leaf_for v w (entitlements cumulative assets w)
    rest ← leaves_of cumulative assets ws
    ok (leaf ∷ rest)

  unfoldable pub proofs_of :
      CumulativeByAsset
      → List Text
      → List Text
      → ℕ
      → List Text
      → Result Error (List EpochWalletProof)
  proofs_of cumulative assets leaves i [] = ok []
  proofs_of cumulative assets leaves i (w ∷ ws) = do
    proof ← proof_for v leaves i
    rest ← proofs_of cumulative assets leaves (i + 1) ws
    ok (record { wallet = w; cumulative = entitlements cumulative assets w; proof = proof } ∷ rest)

  unfoldable pub payload_of :
      Indexer → EpochSpec → SnapshotResult → ℤ → Map Text ℤ → List EpochWalletProof → Text → Json
  unfolding strings stringify_record proof_items or_null show_ℤ
  payload_of indexer spec taken supply residual proofs root = Json.object (
      Fields.field (codes "schemaVersion") (Json.string (codes "1.0.0")) (
        Fields.field (codes "chainId") (Json.number spec.chain_id) (
          Fields.field (codes "distributor") (Json.string spec.distributor) (
            Fields.field (codes "epochIndex") (Json.number spec.epoch_index) (
              Fields.field (codes "snapshot")
                (Json.object (
                  Fields.field (codes "blockNumber") (Json.number taken.block.number) (
                    Fields.field (codes "blockHash") (Json.string taken.block.hash) (
                      Fields.field (codes "confirmedDepth")
                        (Json.number (pos_part taken.confirmed_depth)) Fields.none_left))))
                (Fields.field (codes "threshold") (Json.string (show_ℤ indexer.threshold)) (
                  Fields.field (codes "totalEligibleSupply") (Json.string (show_ℤ supply)) (
                    Fields.field (codes "assets") (Json.array (strings spec.assets)) (
                      Fields.field (codes "fundedTotals")
                        (Json.object (stringify_record spec.funded_totals))
                        (Fields.field (codes "residual") (Json.object (stringify_record residual)) (
                          Fields.field (codes "walletProofs") (Json.array (proof_items proofs)) (
                            Fields.field (codes "root") (Json.string root) (
                              Fields.field (codes "softwareVersion")
                                (Json.string spec.meta.software_version)
                                (Fields.field (codes "commit") (or_null spec.meta.commit)
                                  Fields.none_left))))))))))))))

  unfoldable pub build_epoch : Indexer → MemoryStore → EpochSpec → Result Error EpochResult
  unfolding leaves_of payload_of
  build_epoch indexer s spec = do
    taken ← snapshot indexer s spec.at_block
    let prior = get_or spec.prior_cumulative []
    let exclusions = get_or spec.exclusions indexer.excluded
    let eligibility = eligible taken.balances indexer.threshold exclusions
    let wallets = eligibility.wallets
    let supply = eligibility.total_eligible_supply
    totals ← award taken.balances wallets supply spec.funded_totals no_totals spec.assets
    next ← apply_cumulative prior spec.assets totals.deltas wallets
    leaves ← leaves_of next spec.assets wallets
    root ← root_of v leaves
    proofs ← proofs_of next spec.assets leaves 0 wallets
    let reconciled = reconcile (record {
      assets = spec.assets;
      funded_totals = spec.funded_totals;
      distributed_totals = totals.distributed_totals;
      residuals = totals.residual;
      vault_balances = spec.vault_balances;
      cumulative_prior = prior;
      cumulative_new = next;
    })
    throw_if (not reconciled.ok) (reconcile_failed (length reconciled.errors))
    manifest ←
        build_manifest v quote spec.meta
          (payload_of indexer spec taken supply totals.residual proofs root)
    ok (record {
      taken = taken;
      epoch_index = spec.epoch_index;
      assets = spec.assets;
      root = root;
      leaves = leaves;
      wallets = wallets;
      new_cumulative = next;
      proofs = proofs;
      distributed_totals = totals.distributed_totals;
      residual = totals.residual;
      reconciled = reconciled;
      manifest = manifest;
    })
