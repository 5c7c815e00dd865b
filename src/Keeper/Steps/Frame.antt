-- ===== src/Keeper/Steps/Frame.antt =====
-- What the steps of a cycle leave as it was.
use penny_protocol.Base.Text.{text_beq, text_eq, text_beq_iff}
use penny_protocol.Keeper.Jobs
use penny_protocol.Keeper.Steps.{ℕ, KeeperSpec, Cycle, Chain}
use penny_protocol.Keeper.Steps.Intake.{
  run_ingest, run_purchase, run_basket_purchase, run_funding, run_snapshot,
}
use penny_protocol.Keeper.Steps.Release.{
  run_tree, run_tree_build, run_manifest_validate, run_root_propose, run_publish, run_root_activate,
  deliver, run_claim_relay,
}
use penny_protocol.Base.{none, true, inl, inr, Bool-cases, false, ◌==◌, refl, ◌∙◌, arith, ◌≡◌, ℕ}
use penny_protocol.Keeper.Cycle.{run_job}
use penny_protocol.Keeper.Jobs.{JobName}
use penny_protocol.Keeper.Purchase.{inspect, spend, purchase}
use penny_protocol.Base.Int.{pos, ltb_ℤ}

module _ {C S : Type 0} where
  -- No step writes to the ledger or arms the relay.
  pub record Keeps (w w' : Cycle C S) : Type 0 where
    pub ledger : w'.ledger ≡ w.ledger
    pub relay_armed : w'.ctx.relay_armed ≡ w.ctx.relay_armed

-- The distributor has the same epochs.
pub record KeepsEpochs {C : Type 0} (adapter : Chain C) (c c' : C) : Type 0 where
  pub epoch_root :
      (n : ℕ) → adapter.distributor.epoch_root c' n ≡ adapter.distributor.epoch_root c n
  pub epoch_count : adapter.distributor.epoch_count c' ≡ adapter.distributor.epoch_count c

pub KeepsEpochs-refl : {C : Type 0} (adapter : Chain C) (c : C) → KeepsEpochs adapter c c
KeepsEpochs-refl adapter c = record { epoch_root = λ n. refl; epoch_count = refl }

pub KeepsEpochs-trans :
    {C : Type 0} (adapter : Chain C) (a b c : C)
    → KeepsEpochs adapter a b
    → KeepsEpochs adapter b c
    → KeepsEpochs adapter a c
KeepsEpochs-trans adapter a b c h g = record {
  epoch_root = λ n. g.epoch_root n ∙ h.epoch_root n;
  epoch_count = g.epoch_count ∙ h.epoch_count;
}

-- The collector of fees and the buyer of the basket are other contracts than the distributor.
pub record IsSeparate {C : Type 0} (adapter : Chain C) : Type 0 where
  pub of_sweep : (c : C) → KeepsEpochs adapter c (adapter.purchases.sweep c).1
  pub of_purchase : (c : C) → KeepsEpochs adapter c (adapter.purchases.purchase_basket c).1

module _ {C S : Type 0} (k : KeeperSpec C S) where
  run_ingest-Keeps : (w : Cycle C S) → Keeps w (run_ingest k w).1
  unfolding run_ingest
  run_ingest-Keeps w = ground arith

  run_basket_purchase-Keeps : (w : Cycle C S) → Keeps w (run_basket_purchase k w).1
  unfolding run_basket_purchase run_purchase
  run_basket_purchase-Keeps w = ground arith

  run_snapshot-Keeps : (w : Cycle C S) → Keeps w (run_snapshot k w).1
  unfolding run_snapshot
  run_snapshot-Keeps w = ground arith

  run_tree_build-Keeps : (w : Cycle C S) → Keeps w (run_tree_build k w).1
  unfolding run_tree_build run_tree
  run_tree_build-Keeps w = ground arith

  pub run_manifest_validate-world : (w : Cycle C S) → (run_manifest_validate k w).1 ≡ w
  unfolding run_manifest_validate
  run_manifest_validate-world w = ground arith

  pub run_root_propose-world : (w : Cycle C S) → (run_root_propose k w).1 ≡ w
  unfolding run_root_propose
  run_root_propose-world w = ground arith

  run_root_activate-Keeps : (w : Cycle C S) → Keeps w (run_root_activate k w).1
  unfolding run_root_activate run_publish
  run_root_activate-Keeps w = ground arith

  run_claim_relay-Keeps : (w : Cycle C S) → Keeps w (run_claim_relay k w).1
  unfolding run_claim_relay deliver
  run_claim_relay-Keeps w = ground arith

  pub run_job-Keeps : (job : JobName) (w : Cycle C S) → Keeps w (run_job k job w).1
  unfolding run_job run_funding
  run_job-Keeps job w = ground (
    arith,
    run_ingest-Keeps w,
    run_basket_purchase-Keeps w,
    run_snapshot-Keeps w,
    run_tree_build-Keeps w,
    run_manifest_validate-world w,
    run_root_propose-world w,
    run_root_activate-Keeps w,
    run_claim_relay-Keeps w,
  )

  purchase-KeepsEpochs :
      (c : C) (from : ℕ)
      → IsSeparate k.adapter
      → KeepsEpochs k.adapter c (purchase k.adapter.purchases k.config.min_sweep_wei c from).1
  unfolding purchase spend
  purchase-KeepsEpochs c from law =
      let swept = k.adapter.purchases.sweep c in
      elim (Bool-cases (inspect k.adapter.purchases k.config.min_sweep_wei c).1) [
        | inr below ↦ rw below (KeepsEpochs-refl k.adapter c)
        | inl fed ↦ elim (Bool-cases (ltb_ℤ (pos 0) swept.0)) [
          | inl spent ↦ rw (fed, spent) (law.of_sweep c)
          | inr dry ↦
              rw (fed, dry)
                (KeepsEpochs-trans k.adapter c swept.1 _ (law.of_sweep c) (law.of_purchase swept.1))
        ]
      ]

  run_basket_purchase-KeepsEpochs :
      (w : Cycle C S)
      → IsSeparate k.adapter
      → KeepsEpochs k.adapter w.chain (run_basket_purchase k w).1.chain
  unfolding run_basket_purchase run_purchase
  run_basket_purchase-KeepsEpochs w law = ground (
    arith,
    purchase-KeepsEpochs w.chain w.ctx.cursor.funded_up_to_block law,
    KeepsEpochs-refl k.adapter w.chain,
  )

  run_ingest-chain : (w : Cycle C S) → (run_ingest k w).1.chain ≡ w.chain
  unfolding run_ingest
  run_ingest-chain w = ground arith

  run_snapshot-chain : (w : Cycle C S) → (run_snapshot k w).1.chain ≡ w.chain
  unfolding run_snapshot
  run_snapshot-chain w = ground arith

  run_tree_build-chain : (w : Cycle C S) → (run_tree_build k w).1.chain ≡ w.chain
  unfolding run_tree_build run_tree
  run_tree_build-chain w = ground arith

  run_claim_relay-unarmed :
      (w : Cycle C S) → w.ctx.relay_armed ≡ false → (run_claim_relay k w).1 ≡ w
  unfolding run_claim_relay
  run_claim_relay-unarmed w h = ground arith

  run_job-chain :
      (job : JobName) (w : Cycle C S)
      → w.ctx.relay_armed ≡ false
      → (job == Jobs.basket_purchase) ≡ false
      → (job == Jobs.root_activate) ≡ false
      → (run_job k job w).1.chain ≡ w.chain
  unfolding run_job run_funding
  run_job-chain job w unarmed other quiet = ground (
    arith,
    run_ingest-chain w,
    run_snapshot-chain w,
    run_tree_build-chain w,
    run_manifest_validate-world w,
    run_root_propose-world w,
    run_claim_relay-unarmed w unarmed,
  )

  -- Only root-activate adds an epoch, in a cycle whose relay is not armed.
  pub run_job-KeepsEpochs :
      (job : JobName) (w : Cycle C S)
      → IsSeparate k.adapter
      → w.ctx.relay_armed ≡ false
      → (job == Jobs.root_activate) ≡ false
      → KeepsEpochs k.adapter w.chain (run_job k job w).1.chain
  unfolding run_job text_beq
  run_job-KeepsEpochs job w law unarmed quiet = elim (Bool-cases (job == Jobs.basket_purchase)) [
    | inr other ↦ rw (run_job-chain job w unarmed other quiet) (KeepsEpochs-refl k.adapter w.chain)
    | inl buys ↦
        let same : job ≡ Jobs.basket_purchase = (text_beq_iff _ _).0 buys in
        rw same (run_basket_purchase-KeepsEpochs w law)
  ]

  run_ingest-epoch : (w : Cycle C S) → (run_ingest k w).1.ctx.epoch ≡ w.ctx.epoch
  unfolding run_ingest
  run_ingest-epoch w = ground arith

  run_basket_purchase-epoch : (w : Cycle C S) → (run_basket_purchase k w).1.ctx.epoch ≡ w.ctx.epoch
  unfolding run_basket_purchase run_purchase
  run_basket_purchase-epoch w = ground arith

  run_snapshot-epoch : (w : Cycle C S) → (run_snapshot k w).1.ctx.epoch ≡ w.ctx.epoch
  unfolding run_snapshot
  run_snapshot-epoch w = ground arith

  run_root_activate-epoch : (w : Cycle C S) → (run_root_activate k w).1.ctx.epoch ≡ w.ctx.epoch
  unfolding run_root_activate run_publish
  run_root_activate-epoch w = ground arith

  run_claim_relay-epoch : (w : Cycle C S) → (run_claim_relay k w).1.ctx.epoch ≡ w.ctx.epoch
  unfolding run_claim_relay deliver
  run_claim_relay-epoch w = ground arith

  -- Only tree-build sets the epoch of a cycle.
  pub run_job-epoch :
      (job : JobName) (w : Cycle C S)
      → (job == Jobs.tree_build) ≡ false
      → (run_job k job w).1.ctx.epoch ≡ w.ctx.epoch
  unfolding run_job run_funding
  run_job-epoch job w other = ground (
    arith,
    run_ingest-epoch w,
    run_basket_purchase-epoch w,
    run_snapshot-epoch w,
    run_manifest_validate-world w,
    run_root_propose-world w,
    run_root_activate-epoch w,
    run_claim_relay-epoch w,
  )

  -- Root-activate does nothing without an epoch.
  pub run_job-idle :
      (job : JobName) (w : Cycle C S)
      → (job == Jobs.root_activate) ≡ true
      → w.ctx.epoch ≡ none
      → (run_job k job w).1 ≡ w
  unfolding run_job run_root_activate text_beq
  run_job-idle job w activates idle =
      let same : job ≡ Jobs.root_activate = (text_beq_iff _ _).0 activates in rw (same, idle) refl
