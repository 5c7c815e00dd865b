-- ===== src/Keeper/Steps/Release.antt =====
-- The steps of services/keeper/src/steps.ts that lead to a published root: `runTreeBuild`,
-- `runManifestValidate`, `runRootPropose`, `runRootActivate`, `runClaimRelay`.
use penny_protocol.Base.Map
use penny_protocol.Keeper.Jobs
use penny_protocol.Keeper.Pipeline
use penny_protocol.Keeper.Steps.{
  indexer_failed, tree_failed, publish_failed, claim_not_wired, claim_failed, PublishError,
  ProposeIntent, DeliveryEntry, Result, SnapshotResult, ok, EpochResult, Option, Text, ℤ, ℕ,
  KeeperSpec, Cycle, CycleContext, Step, Thrown, StepOutcome, step_ok, step_skip, step_fail,
}
use penny_protocol.Keeper.Steps.Recorded.{resume_reason, latest_intent}
use penny_protocol.Base.Text.{text_eq, codes, Text}
use penny_protocol.Base.{
  zero, nat_beq, ◌∷◌, length, ◌&&◌, false, not, none, suc, ◌++◌, map, some, List, Bool, [], get_or,
  ℕ, if◌then◌else◌, Option,
}
use penny_protocol.Indexer.Epoch.{EpochResult}
use penny_protocol.Keeper.Pipeline.{
  show_record, tree_build, cursor_of, ManifestError, EpochCursor, TreeBuild,
}
use penny_protocol.Base.Int.{reduce_sum, ltb_ℤ, ◌-ℤ◌, pos, ℤ}
use penny_protocol.Base.Map.{Map}
use penny_protocol.Indexer.Ingest.{SnapshotResult}
use penny_protocol.Base.Result.{err, ok, Result}
use penny_protocol.Base.Decimal.{show}
use penny_protocol.Keeper.Publish.{PublishRun, carries, publish_if_needed, PublishError}
use penny_protocol.Base.Tabulate.{set_all}
use penny_protocol.Indexer.Manifest.{show_ℤ}

unfoldable pub drift_text : ℤ → ℤ → Text
drift_text frontier recorded =
    codes "cursor drift: onchain frontier "
    ++ (show_ℤ frontier
        ++ (codes " exceeds recorded "
            ++ (show_ℤ recorded ++ codes " with no covering intent (operator recovery required)")))

-- The assets whose vault is read.
abbrev pub candidates : Map Text ℤ → Map Text Text → List Text
candidates funded residual = Map.set_of [] (Map.keys funded ++ Map.keys residual)

unfoldable pub tree_detail : EpochResult → List Text → Text
tree_detail epoch assets =
    show (length epoch.wallets) ++ (codes " leaves, " ++ (show (length assets) ++ codes " assets"))

-- `text.slice(0, n)`
abbrev pub slice : ℕ → Text → Text
slice zero t = []
slice (suc n) [] = []
slice (suc n) (c ∷ t) = c ∷ slice n t

unfoldable pub validate_detail : EpochResult → ℕ → Text
validate_detail epoch expected =
    codes "root " ++ (slice 10 epoch.root ++ (codes "… targets epoch " ++ show expected))

unfoldable pub relay_detail : ℕ → ℕ → ℕ → Text
relay_detail delivered entries epoch_index =
    codes "auto-delivered "
    ++ (show delivered
        ++ (codes "/"
            ++ (show entries ++ (codes " opted-in wallets for epoch " ++ show epoch_index))))

unfoldable pub unarmed_text : Text
unarmed_text =
    codes
      "claim-relay unarmed: auto-delivery batches need the production attestation service + opt-in census (D034); armed via config after launch gates"

-- What the epoch owes in total of each asset, in the order of the assets.
unfoldable pub cumulative_totals : EpochResult → List Text → List ℤ
cumulative_totals epoch =
    map (λ asset. reduce_sum (pos 0) (Map.values (get_or (Map.get epoch.new_cumulative asset) [])))

-- The cursor that the epoch leaves behind: `ctx.fundingTip ?? epoch.snapshot.block.number`
abbrev pub next_cursor_of : EpochResult → SnapshotResult → Option ℕ → EpochCursor
next_cursor_of epoch taken funding_tip =
    cursor_of epoch taken epoch.residual (get_or funding_tip epoch.taken.block.number)

-- An epoch to release, with the snapshot that was taken.
abbrev pub both : {A B : Type 0} → Option A → Option B → Option (A × B)
both none b = none
both (some a) none = none
both (some a) (some b) = some (a, b)

module _ {C S : Type 0} (k : KeeperSpec C S) where
  -- The index of the last epoch on the chain.
  abbrev pub frontier_of : C → ℤ
  frontier_of c = pos (k.adapter.distributor.epoch_count c) -ℤ pos 1

  -- `last !== undefined && last.intent.epochIndex >= frontier`
  unfoldable pub is_covered : S → ℤ → Bool
  is_covered s frontier = elim (latest_intent k s) [
    | none ↦ false
    | some (intent, cycle_id) ↦ not (ltb_ℤ (pos intent.epoch_index) frontier)
  ]

  unfoldable pub is_drifted : C → S → EpochCursor → Bool
  unfolding is_covered
  is_drifted c s cursor =
      ltb_ℤ cursor.epoch_index (frontier_of c) && not (is_covered s (frontier_of c))

  abbrev pub tree_outcome : Cycle C S → TreeBuild → Result Thrown StepOutcome × Cycle C S
  tree_outcome w tree = elim tree.epoch [
    | none ↦ (ok (step_skip (codes "no new funding") none), w)
    | some epoch ↦ (
      ok (
          step_ok epoch.manifest.content_hash (some epoch.taken.block.number)
            (some (tree_detail epoch tree.assets))),
      record w { ctx = record w.ctx { epoch = some epoch; assets = some tree.assets } },
    )
  ]

  unfoldable pub run_tree : Step C S
  unfolding tree_detail
  run_tree w =
      let funded = get_or w.ctx.funded [] in
      let w' = record w { ctx = record w.ctx { funded = some funded } } in
      let vault_balances =
        set_all [] (k.adapter.vault_balance w.chain) (candidates funded w.ctx.cursor.residual) in
      elim (tree_build k.host.viem k.host.quote k.indexer w.indexed k.config w.ctx.cursor funded
        vault_balances (k.adapter.distributor.epoch_count w.chain) k.host.generated_at) [
          | err e ↦ (err (tree_failed e), w')
          | ok tree ↦ tree_outcome w' tree
        ]

  unfoldable pub run_tree_build : Step C S
  unfolding is_drifted run_tree drift_text
  run_tree_build w =
      if is_drifted w.chain w.ledger w.ctx.cursor
      then (ok (step_fail (drift_text (frontier_of w.chain) w.ctx.cursor.epoch_index)), w)
      else run_tree w

  abbrev pub validate_outcome : EpochResult → ℕ → List ManifestError → StepOutcome
  validate_outcome epoch expected [] =
      step_ok epoch.manifest.content_hash none (some (validate_detail epoch expected))
  validate_outcome epoch expected (e ∷ es) = step_fail (k.host.join_errors (e ∷ es))

  unfoldable pub run_manifest_validate : Step C S
  unfolding validate_detail
  run_manifest_validate w = elim w.ctx.epoch [
    | none ↦ (ok (step_skip (codes "nothing to validate") none), w)
    | some epoch ↦
        let expected = k.adapter.distributor.epoch_count w.chain in
        elim (Pipeline.manifest_validate k.host.viem k.host.quote epoch expected) [
          | err e ↦ (err (indexer_failed e), w)
          | ok errors ↦ (ok (validate_outcome epoch expected errors), w)
        ]
  ]

  -- The intent for the epoch.
  unfoldable pub intent_of : CycleContext C → EpochResult → SnapshotResult → ProposeIntent
  intent_of ctx epoch taken = record {
    root = epoch.root;
    epoch_index = epoch.epoch_index;
    snapshot_block = epoch.taken.block.number;
    content_hash = epoch.manifest.content_hash;
    funded = show_record [] (get_or ctx.funded []);
    next_cursor = k.host.stringify_cursor (next_cursor_of epoch taken ctx.funding_tip);
  }

  unfoldable pub run_root_propose : Step C S
  unfolding intent_of
  run_root_propose w = elim (both w.ctx.epoch w.ctx.snapshot) [
    | none ↦ (ok (step_skip (codes "no epoch to propose") none), w)
    | some (epoch, taken) ↦ (
      ok (
          step_ok epoch.manifest.content_hash none
            (some (k.host.stringify_intent (intent_of w.ctx epoch taken)))),
      w,
    )
  ]

  abbrev pub activated_outcome :
      Cycle C S
      → EpochResult
      → SnapshotResult
      → Result PublishError PublishRun × C
      → Result Thrown StepOutcome × Cycle C S
  activated_outcome w epoch taken (err e, after) =
      (err (publish_failed e), record w { chain = after })
  activated_outcome w epoch taken (ok run, after) =
      let next = next_cursor_of epoch taken w.ctx.funding_tip in
      (
        ok (
            step_ok epoch.manifest.content_hash (some taken.block.number)
              (some (k.host.stringify_cursor next))),
        record w { chain = after; ctx = record w.ctx { cursor = next } },
      )

  -- What follows once no record says that the work is done.
  unfoldable pub run_publish : EpochResult → SnapshotResult → Step C S
  unfolding cumulative_totals
  run_publish epoch taken w =
      let assets = get_or w.ctx.assets [] in
      activated_outcome w epoch taken (
        publish_if_needed k.adapter.distributor w.chain epoch.root assets epoch.epoch_index
          (cumulative_totals epoch assets) epoch.manifest.content_hash)

  unfoldable pub run_root_activate : Step C S
  unfolding run_publish
  run_root_activate w = elim (both w.ctx.epoch w.ctx.snapshot) [
    | none ↦ (ok (step_skip (codes "no epoch to activate") none), w)
    | some (epoch, taken) ↦
        let hash = epoch.manifest.content_hash in
        elim (resume_reason k w.ledger Jobs.root_activate (some hash)
          (carries (k.adapter.distributor.epoch_root w.chain epoch.epoch_index) epoch.root)) [
            | some reason ↦ (ok (step_skip reason (some hash)), w)
            | none ↦ run_publish epoch taken w
          ]
  ]

  abbrev pub delivered_outcome :
      Cycle C S → EpochResult → ℕ → Option ℕ × C → Result Thrown StepOutcome × Cycle C S
  delivered_outcome w epoch entries (none, after) = (err claim_failed, record w { chain = after })
  delivered_outcome w epoch entries (some delivered, after) = (
    ok (
        step_ok epoch.manifest.content_hash none
          (some (relay_detail delivered entries epoch.epoch_index))),
    record w { chain = after },
  )

  -- `ctxAdapterClaimForMany` and what is made of its answer.
  unfoldable pub deliver : EpochResult → List DeliveryEntry → Step C S
  unfolding relay_detail
  deliver epoch entries w = elim w.ctx.claim_for_many [
    | none ↦ (err claim_not_wired, w)
    | some claim_for_many ↦
        delivered_outcome w epoch (length entries)
          (claim_for_many w.chain epoch.epoch_index entries)
  ]

  unfoldable pub run_claim_relay : Step C S
  unfolding deliver unarmed_text
  run_claim_relay w = elim w.ctx.epoch [
    | none ↦ (ok (step_skip (codes "no epoch") none), w)
    | some epoch ↦
        let entries = get_or w.ctx.deliveries [] in
        if not w.ctx.relay_armed
        then (ok (step_skip unarmed_text none), w)
        else (if nat_beq (length entries) 0
            then (ok (step_skip (codes "no opted-in wallets to deliver") none), w)
            else deliver epoch entries w)
  ]
