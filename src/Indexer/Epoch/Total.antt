-- ===== src/Indexer/Epoch/Total.antt =====
-- `buildEpoch` as a whole: with enough in the vault it returns, and what it returns is right.
use penny_protocol.Base.Map
use penny_protocol.Indexer.Epoch.{
  Error, entitlements, EpochWalletProof, Totals, build_epoch, EpochResult, EpochSpec, payload_of,
  award,
}
use penny_protocol.Indexer.Ingest.{snapshot, SnapshotResult, Indexer}
use penny_protocol.Indexer.Merkle.{Viem}
use penny_protocol.Base.Map.{IsDistinct, IsMap, Map}
use penny_protocol.Base.Text.{text_eq, Text}
use penny_protocol.Base.{inl, inr, false, ◌⊎◌, refl, get_or, true, ◌≡◌, List}
use penny_protocol.Indexer.Store.{MemoryStore}
use penny_protocol.Indexer.Snapshot.{eligible}
use penny_protocol.Indexer.Cumulative.{CumulativeByAsset}
use penny_protocol.Indexer.Epoch.Settled.{
  elected, total, prior, gate, payable, settled_lem, gate-IsSound, IsSettled, IsFundable,
}
use penny_protocol.Indexer.Epoch.Awards.{award-IsAwarded}
use penny_protocol.Indexer.Reconcile.{reconcile}
use penny_protocol.Base.Result.{err, ok}
use penny_protocol.Indexer.Epoch.Proven.{leaves_of-cases, hashes_of, proofs_of-IsProven, IsProven}
use penny_protocol.Indexer.Manifest.{canonicalize, build_manifest}
use penny_protocol.Indexer.Ingest.Finality.{snapshot-IsMap}
use penny_protocol.Indexer.Cumulative.Laws.{apply_cumulative-IsMerge, apply_cumulative-succeeds}
use penny_protocol.Indexer.Reconcile.Gate.{reconcile_iff}
use penny_protocol.Indexer.Epoch.Payload.{payload-IsPrintable}
use penny_protocol.Indexer.Epoch.Settled.{
  settled_lem, gate-IsSound, prior, payable, total, gate, elected, IsFundable, IsSettled,
}
use penny_protocol.Indexer.Events.{Error}

-- What `buildEpoch` promises of its result.
pub record IsEpoch (v : Viem) (quote : Text → Text) (indexer : Indexer) (s : MemoryStore)
    (spec : EpochSpec) (r : EpochResult) : Type 0 where
  pub taken : snapshot indexer s spec.at_block ≡ ok r.taken
  pub elected :
      r.wallets
      ≡ (eligible r.taken.balances indexer.threshold
          (get_or spec.exclusions indexer.excluded)).wallets
  pub settled :
      (a : Text)
      → Map.contains spec.assets a ≡ true
      → IsSettled r.taken r.wallets
          (eligible r.taken.balances indexer.threshold
            (get_or spec.exclusions indexer.excluded)).total_eligible_supply
          spec
          r.new_cumulative
          r.distributed_totals
          r.residual
          a
  pub proven : IsProven v r.new_cumulative spec.assets r.root r.wallets r.proofs
  pub printed : canonicalize quote r.manifest.payload ≡ ok r.manifest.canonical_json
  pub hashed : r.manifest.content_hash ≡ v.keccak256 (v.to_hex r.manifest.canonical_json)

module _ (v : Viem) (quote : Text → Text) where
  -- The result for what the steps return.
  abbrev epoch_of :
      Indexer
      → SnapshotResult
      → EpochSpec
      → Totals
      → CumulativeByAsset
      → Text
      → List EpochWalletProof
      → Text
      → EpochResult
  epoch_of indexer taken spec totals next root proofs text = record {
    taken = taken;
    epoch_index = spec.epoch_index;
    assets = spec.assets;
    root = root;
    leaves = hashes_of v quote next spec.assets (elected indexer taken spec);
    wallets = elected indexer taken spec;
    new_cumulative = next;
    proofs = proofs;
    distributed_totals = totals.distributed_totals;
    residual = totals.residual;
    reconciled = reconcile (gate indexer taken spec totals next);
    manifest = record {
      meta = spec.meta;
      payload =
          payload_of v quote indexer spec taken (total indexer taken spec) totals.residual proofs
            root;
      canonical_json = text;
      content_hash = v.keccak256 (v.to_hex text);
    };
  }

  -- An elected wallet at which viem throws: with the entitlement that the epoch would settle for it,
  -- of the snapshot's shares, it is no address or some amount is no uint256.
  pub record IsRefused (indexer : Indexer) (taken : SnapshotResult) (spec : EpochSpec)
      : Type 0 where
    pub wallet : Text
    pub cumulative : CumulativeByAsset
    pub totals : Totals
    pub chosen : Map.contains (elected indexer taken spec) wallet ≡ true
    pub settled :
        (a : Text)
        → Map.contains spec.assets a ≡ true
        → IsSettled taken
            (elected indexer taken spec)
            (total indexer taken spec)
            spec
            cumulative
            totals.distributed_totals
            totals.residual
            a
    pub refused : v.encodes wallet (entitlements cumulative spec.assets wallet) ≡ false

  -- Where `snapshot` returns for the epoch's block with some eligible supply, the threshold is zero
  -- or more, and the specification lists different assets, at least one, each funded with zero or
  -- more and no more than its vault holds: `buildEpoch` returns, unless viem throws since the wallet
  -- and the settled entitlement of some elected wallet do not encode as an address and uint256s. When
  -- it returns, it elects the snapshot's wallets under the epoch's exclusions; each asset's total is
  -- paid out exactly, by fair shares, with no residual; each wallet's new entitlement is its earlier
  -- one and its share; each wallet has a leaf, and its published proof verifies against the published
  -- root; and the manifest has the payload's canonical text with its hash.
  pub build_epoch-IsEpoch :
      (indexer : Indexer) (s : MemoryStore) (spec : EpochSpec) (taken : SnapshotResult)
      → snapshot indexer s spec.at_block ≡ ok taken
      → IsFundable indexer taken spec
      → ((r : EpochResult) × (build_epoch v quote indexer s spec ≡ ok r)
          × IsEpoch v quote indexer s spec r)
        ⊎ ((build_epoch v quote indexer s spec ≡ err Error.not_encodable)
            × IsRefused indexer taken spec)
  unfolding build_epoch build_manifest
  build_epoch-IsEpoch indexer s spec taken found f =
      let is_map = snapshot-IsMap indexer s spec.at_block taken found in
      let ws = elected indexer taken spec in
      let (totals, awarded, award) =
        award-IsAwarded taken.balances ws (total indexer taken spec) spec.funded_totals spec.assets
          f.distinct
          (payable taken.balances indexer.threshold (get_or spec.exclusions indexer.excluded)
            spec.funded_totals is_map f.threshold f.some_supply spec.assets f.funded) in
      let (next, applied) =
        apply_cumulative-succeeds (prior indexer taken spec) spec.assets totals.deltas ws
          f.some_asset award.count in
      let merge =
        apply_cumulative-IsMerge (prior indexer taken spec) spec.assets totals.deltas ws applied in
      let settled = settled_lem indexer taken spec is_map f totals next award merge in
      elim (leaves_of-cases v quote next spec.assets ws) [
        | inr (w, there, refused, thrown) ↦ inr (
          rw (found, awarded, applied, thrown) refl,
          record {
            wallet = w;
            cumulative = next;
            totals = totals;
            chosen = there;
            settled = settled;
            refused = refused;
          },
        )
        | inl (made, encoded) ↦
            let (root, proofs, rooted, proved, proven) =
              proofs_of-IsProven v quote next spec.assets ws encoded in
            let passed =
              (reconcile_iff (gate indexer taken spec totals next)).1
                (gate-IsSound indexer taken spec is_map f totals next award merge) in
            let (text, printed) =
              payload-IsPrintable quote v indexer spec taken (total indexer taken spec)
                totals.residual proofs root in
            inl (
              epoch_of indexer taken spec totals next root proofs text,
              rw (found, awarded, applied, made, rooted, proved, passed, printed) refl,
              record {
                taken = found;
                elected = refl;
                settled = settled;
                proven = proven;
                printed = printed;
                hashed = refl;
              },
            )
      ]
