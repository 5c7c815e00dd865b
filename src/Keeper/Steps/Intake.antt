-- ===== src/Keeper/Steps/Intake.antt =====
-- The steps of services/keeper/src/steps.ts that take in what happened: `runIngest`,
-- `runBasketPurchase`, `runFunding`, `runSnapshot`.
use penny_protocol.Base.Map
use penny_protocol.Keeper.Jobs
use penny_protocol.Keeper.Steps.{
  ℤ, ok, Json, Text, err, Option, IngestRun, ℕ, RewardDeposit, List, PurchaseOutcome,
  SnapshotResult, BlockHeader, KeeperSpec, Step, StepOutcome, step_ok, step_skip, step_fail,
  hash_inputs, tip_number, indexer_failed,
}
use penny_protocol.Keeper.Steps.Recorded.{resume_reason}
use penny_protocol.Indexer.Events.{BlockHeader}
use penny_protocol.Base.{
  map, length, ◌++◌, ◌∷◌, true, some, [], not, none, ℕ, Option, if◌then◌else◌, List, ◌+◌,
}
use penny_protocol.Indexer.Ingest.{SnapshotResult, snapshot}
use penny_protocol.Keeper.Purchase.{
  purchase, add_deposits, RewardDeposit, PurchaseReason, PurchaseOutcome,
}
use penny_protocol.Base.Map.{Map}
use penny_protocol.Keeper.Pipeline.{ingest_batch, IngestRun}
use penny_protocol.Keeper.Config.{is_blank}
use penny_protocol.Indexer.Manifest.{show_ℤ, Items, Fields, Json}
use penny_protocol.Base.Text.{text_eq, codes, Text}
use penny_protocol.Base.Decimal.{show}
use penny_protocol.Base.Result.{ok, err, ◌>>=◌}
use penny_protocol.Base.Int.{pos, ltb_ℤ, ℤ}
use penny_protocol.Indexer.Epoch.{strings}

-- `reason ? skip(reason, hash) : ok(hash, ...)`
abbrev pub skip_or : Option Text → Text → StepOutcome → StepOutcome
skip_or none hash outcome = outcome
skip_or (some reason) hash outcome = step_skip reason (some hash)

abbrev pub fork_note : Option ℕ → Text
fork_note none = []
fork_note (some at) = codes "; fork rolled back at " ++ show at

unfoldable pub ingest_detail : IngestRun → Text
ingest_detail run =
    show run.pushed_blocks
    ++ (codes " blocks, "
        ++ (show run.pushed_transfers ++ (codes " transfers" ++ fork_note run.rolled_back_at_fork)))

abbrev pub reason_text : PurchaseReason → Text
reason_text PurchaseReason.below_min_sweep = codes "below-min-sweep"
reason_text PurchaseReason.swept = codes "swept"

unfoldable pub purchase_inputs : PurchaseOutcome → Json
purchase_inputs p = Json.object (
    Fields.field (codes "reason") (Json.string (reason_text p.reason)) (
      Fields.field (codes "sweptWei") (Json.string (show_ℤ p.swept_wei))
        (Fields.field (codes "spentWei") (Json.string (show_ℤ p.spent_wei)) Fields.none_left)))

unfoldable pub purchase_detail : PurchaseOutcome → Text
purchase_detail p =
    codes "swept "
    ++ (show_ℤ p.swept_wei ++ (codes " wei, spent " ++ (show_ℤ p.spent_wei ++ codes " wei")))

-- `${d.blockNumber}:${d.token}:${d.amount}`
abbrev pub deposit_text : RewardDeposit → Text
deposit_text d = show d.block_number ++ (codes ":" ++ (d.token ++ (codes ":" ++ show_ℤ d.amount)))

unfoldable pub funding_inputs : ℕ → ℕ → List RewardDeposit → Json
funding_inputs from to deposits = Json.object (
    Fields.field (codes "window")
      (Json.array (Items.cons (Json.number from) (Items.cons (Json.number to) Items.nil)))
      (Fields.field (codes "deposits") (Json.array (strings (map deposit_text deposits)))
        Fields.none_left))

unfoldable pub funding_detail : ℕ → ℕ → ℕ → Text
funding_detail assets deposits from =
    show assets
    ++ (codes " assets funded ("
        ++ (show deposits ++ (codes " deposits since " ++ (show from ++ codes ")"))))

-- The loop that keeps the positive amounts.
unfoldable pub keep_positive : Map Text ℤ → Map Text ℤ → Map Text ℤ
keep_positive funded [] = funded
keep_positive funded ((token, amount) ∷ rest) =
    keep_positive (if ltb_ℤ (pos 0) amount then Map.set funded token amount else funded) rest

-- What the deposits fund.
unfoldable pub funded_by : List RewardDeposit → Map Text ℤ
unfolding keep_positive
funded_by deposits = keep_positive [] (add_deposits [] deposits)

unfoldable pub snapshot_inputs : BlockHeader → Json
snapshot_inputs block = Json.object (
    Fields.field (codes "block") (Json.number block.number)
      (Fields.field (codes "hash") (Json.string block.hash) Fields.none_left))

module _ {C S : Type 0} (k : KeeperSpec C S) where
  unfoldable pub ingest_outcome : S → IngestRun → StepOutcome
  unfolding ingest_detail
  ingest_outcome s run =
      if is_blank run.hash
      then step_skip (codes "no blocks") none
      else skip_or (resume_reason k s Jobs.ingest (some run.hash) true) run.hash
          (step_ok run.hash (some run.to_block) (some (ingest_detail run)))

  unfoldable pub run_ingest : Step C S
  unfolding ingest_outcome
  run_ingest w =
      elim (ingest_batch k.host.viem k.host.quote k.indexer (k.adapter.purchases.tip w.chain)
        (k.adapter.get_blocks w.chain) k.config.rescan_window w.indexed) [
          | err e ↦ (err (indexer_failed e), w)
          | ok (run, indexed) ↦ (
            ok (ingest_outcome w.ledger run),
            record w { indexed = indexed; ctx = record w.ctx { ingest = some run } },
          )
        ]

  -- What follows the purchase; the chain is the one after it.
  unfoldable pub purchase_outcome : C → S → PurchaseOutcome → Text → StepOutcome
  unfolding purchase_detail
  purchase_outcome c s p hash = elim p.reason [
    | PurchaseReason.below_min_sweep ↦
        skip_or
          (resume_reason k s Jobs.basket_purchase (some hash)
            (ltb_ℤ (k.adapter.purchases.fee_collector_weth c) k.config.min_sweep_wei))
          hash (step_ok hash none (some (codes "below-min-sweep (tank drained)")))
    | PurchaseReason.swept ↦ step_ok hash none (some (purchase_detail p))
  ]

  unfoldable pub run_purchase : Step C S
  unfolding purchase_inputs purchase_outcome
  run_purchase w =
      let (p, chain) =
        purchase k.adapter.purchases k.config.min_sweep_wei w.chain
          w.ctx.cursor.funded_up_to_block in
      (
        do
          hash ← hash_inputs k.host (purchase_inputs p)
          ok (purchase_outcome chain w.ledger p hash),
        record w { chain = chain; ctx = record w.ctx { purchase = some p } },
      )

  unfoldable pub run_basket_purchase : Step C S
  unfolding run_purchase
  run_basket_purchase w =
      if not k.config.venue_armed
      then (ok (step_fail (codes "NO_GO_LIQUIDITY: venue adapter unverified (mainnet gate)")), w)
      else (if not (k.adapter.market_session_open w.chain)
          then (ok (step_fail (codes "market session closed (fail-closed D009)")), w)
          else (if not (k.adapter.sweep_enabled w.chain)
              then (ok (step_fail (codes "sweeps paused")), w)
              else run_purchase w))

  unfoldable pub run_funding : Step C S
  unfolding funded_by funding_inputs funding_detail
  run_funding w =
      let tip = tip_number k.adapter w.chain in
      let from = w.ctx.cursor.funded_up_to_block + 1 in
      let raw = k.adapter.purchases.rewards_deposited w.chain from tip in
      let funded = funded_by raw in
      (
        do
          hash ← hash_inputs k.host (funding_inputs from tip raw)
          ok (step_ok hash (some tip) (some (funding_detail (length funded) (length raw) from))),
        record w {
          ctx = record w.ctx { deposits = some raw; funding_tip = some tip; funded = some funded };
        },
      )

  unfoldable pub snapshot_outcome : S → SnapshotResult → Text → StepOutcome
  snapshot_outcome s taken hash =
      skip_or (resume_reason k s Jobs.snapshot_request (some hash) true) hash (
        step_ok hash (some taken.block.number)
          (some (show (length taken.eligibility.wallets) ++ codes " eligible wallets")))

  unfoldable pub run_snapshot : Step C S
  unfolding snapshot_inputs snapshot_outcome
  run_snapshot w = elim (snapshot k.indexer w.indexed none) [
    | err e ↦ (err (indexer_failed e), w)
    | ok taken ↦ (
      do
        hash ← hash_inputs k.host (snapshot_inputs taken.block)
        ok (snapshot_outcome w.ledger taken hash),
      record w { ctx = record w.ctx { snapshot = some taken } },
    )
  ]
