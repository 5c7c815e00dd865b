-- ===== src/Keeper/Pipeline/Validate.antt =====
-- An epoch that was built passes the validation of its manifest.
use penny_protocol.Indexer.Merkle.{root_of, Viem}
use penny_protocol.Base.Text.{text_eq, text_beq_iff, Text}
use penny_protocol.Indexer.Manifest.{
  canonicalize, ManifestBundle, Json, ManifestMeta, build_manifest,
}
use penny_protocol.Indexer.Epoch.{
  proofs_of, no_totals, award, payload_of, leaves_of, EpochSpec, EpochResult, build_epoch,
}
use penny_protocol.Keeper.State.{input_hash_of}
use penny_protocol.Indexer.Ingest.{snapshot, Indexer}
use penny_protocol.Base.{
  length, arith, false, sym, ◌==◌, ◌++◌, not, refl, ap, Bool, ◌∷◌, subst, [], nat_beq,
  if◌then◌else◌, ℕ, true, ◌≡◌,
}
use penny_protocol.Indexer.Store.{MemoryStore}
use penny_protocol.Indexer.Epoch.Settled.{elected, total, prior, gate}
use penny_protocol.Base.Result.{ok_of_throw, ok_of_bind, err, Result, ok}
use penny_protocol.Indexer.Events.{reconcile_failed, Error}
use penny_protocol.Keeper.Pipeline.{manifest_validate, complain, index_mismatch}
use penny_protocol.Indexer.Cumulative.{apply_cumulative}
use penny_protocol.Indexer.Reconcile.{reconcile}

not-false : (b : Bool) → not b ≡ false → b ≡ true
not-false b h = ground arith

module _ (v : Viem) (quote : Text → Text) where
  -- What holds of every epoch that `buildEpoch` returns.
  pub record IsBuilt (r : EpochResult) : Type 0 where
    pub gated : r.reconciled.ok ≡ true
    pub printed : canonicalize quote r.manifest.payload ≡ ok r.manifest.canonical_json
    pub hashed : r.manifest.content_hash ≡ v.keccak256 (v.to_hex r.manifest.canonical_json)

  build_manifest-hashed :
      (meta : ManifestMeta) (payload : Json) (bundle : ManifestBundle)
      → build_manifest v quote meta payload ≡ ok bundle
      → (canonicalize quote bundle.payload ≡ ok bundle.canonical_json)
        × (bundle.content_hash ≡ v.keccak256 (v.to_hex bundle.canonical_json))
  unfolding build_manifest
  build_manifest-hashed meta payload bundle h =
      let (text, rest, printed) = ok_of_bind (canonicalize quote payload) _ bundle h in
      subst
        (λ b.
          (canonicalize quote b.payload ≡ ok b.canonical_json)
          × (b.content_hash ≡ v.keccak256 (v.to_hex b.canonical_json)))
        (ap get_ok rest) (printed, refl)
    where
      get_ok : Result Error ManifestBundle → ManifestBundle
      get_ok (ok b) = b
      get_ok (err e) = bundle

  build_epoch-IsBuilt :
      (indexer : Indexer) (s : MemoryStore) (spec : EpochSpec) (r : EpochResult)
      → build_epoch v quote indexer s spec ≡ ok r
      → IsBuilt r
  unfolding build_epoch payload_of
  build_epoch-IsBuilt indexer s spec r h =
      let (taken, h1, e1) = ok_of_bind (snapshot indexer s spec.at_block) _ r h in
      let ws = elected indexer taken spec in
      let (totals, h2, e2) =
        ok_of_bind
          (award taken.balances ws (total indexer taken spec) spec.funded_totals no_totals
            spec.assets)
          _ r h1 in
      let (next, h3, e3) =
        ok_of_bind (apply_cumulative (prior indexer taken spec) spec.assets totals.deltas ws) _ r
          h2 in
      let (leaves, h31, e31) = ok_of_bind (leaves_of v quote next spec.assets ws) _ r h3 in
      let (root, h4, e4) = ok_of_bind (root_of v leaves) _ r h31 in
      let (proofs, h5, e5) = ok_of_bind (proofs_of v quote next spec.assets leaves 0 ws) _ r h4 in
      let gate_result = reconcile (gate indexer taken spec totals next) in
      let (passed, h6) =
        ok_of_throw (not gate_result.ok) (reconcile_failed (length gate_result.errors)) _ r h5 in
      let (bundle, h7, e7) =
        ok_of_bind
          (build_manifest v quote spec.meta (
            payload_of v quote indexer spec taken (total indexer taken spec) totals.residual proofs
              root))
          _ r h6 in
      let (printed, hashed) = build_manifest-hashed _ _ bundle e7 in
      subst IsBuilt (ap get_ok h7)
        (record { gated = not-false _ passed; printed = printed; hashed = hashed })
    where
      get_ok : Result Error EpochResult → EpochResult
      get_ok (ok x) = x
      get_ok (err e) = r

  -- Whenever `buildEpoch` returns an epoch, `manifestValidate` recomputes its hash without an error,
  -- and finds nothing wrong with it but an index other than the one expected.
  pub manifest_validate-build_epoch :
      (indexer : Indexer) (s : MemoryStore) (spec : EpochSpec) (r : EpochResult) (n : ℕ)
      → build_epoch v quote indexer s spec ≡ ok r
      → manifest_validate v quote r n
        ≡ ok (if nat_beq r.epoch_index n then [] else index_mismatch r.epoch_index n ∷ [])
  unfolding manifest_validate input_hash_of
  manifest_validate-build_epoch indexer s spec r n h =
      let b = build_epoch-IsBuilt indexer s spec r h in
      let same : (v.keccak256 (v.to_hex r.manifest.canonical_json) == r.manifest.content_hash)
          ≡ true =
        (text_beq_iff _ _).1 (sym b.hashed) in
      rw (b.printed, b.gated, same) (ap ok (by_index (nat_beq r.epoch_index n)))
    where
      by_index :
          (c : Bool)
          → complain (not c) (index_mismatch r.epoch_index n) ++ []
            ≡ (if c then [] else index_mismatch r.epoch_index n ∷ [])
      by_index true = refl
      by_index false = refl
