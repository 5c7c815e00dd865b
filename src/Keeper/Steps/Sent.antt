-- ===== src/Keeper/Steps/Sent.antt =====
-- Which roots the publication of an epoch, services/keeper/src/steps.ts, can put on the chain.
use penny_protocol.Keeper.Jobs
use penny_protocol.Base.{
  arith, Option-cases, [], refl, get_or, sym, ltb, subst, ◌==◌, ◌⊎◌, Bool-cases, false, ◌≡◌, ℕ,
  List, ◌∙◌, some, inl, inr,
}
use penny_protocol.Keeper.Steps.{Result, ℤ, SnapshotResult, EpochResult, Text, Cycle, KeeperSpec}
use penny_protocol.Keeper.Publish.{
  PublishRun, carries, PublishError, Distributor, publish_if_needed,
}
use penny_protocol.Base.Text.{text_eq, text_beq, text_beq_iff, Text}
use penny_protocol.Keeper.Cycle.{run_job}
use penny_protocol.Keeper.Jobs.{JobName}
use penny_protocol.Keeper.Steps.Release.{
  deliver, run_claim_relay, cumulative_totals, activated_outcome, run_tree, run_tree_build,
  run_publish, run_root_activate,
}
use penny_protocol.Keeper.Steps.Intake.{run_snapshot, run_purchase, run_basket_purchase, run_ingest}
use penny_protocol.Indexer.Epoch.{EpochResult}
use penny_protocol.Base.Int.{ℤ}
use penny_protocol.Indexer.Ingest.{SnapshotResult}
use penny_protocol.Keeper.Steps.Frame.{
  run_root_propose-world, run_manifest_validate-world, run_job-KeepsEpochs, IsSeparate,
}
use penny_protocol.Base.Result.{err, ok, Result}
use penny_protocol.Keeper.Steps.Activated.{activate-publishes, activate-skips, skip_reason}

-- At each index the distributor has the root that it had, or this one.
abbrev pub OnlyAdds : {C : Type 0} → Distributor C → Text → C → C → Type 0
OnlyAdds adapter root c c' =
    (n : ℕ)
    → (adapter.epoch_root c' n ≡ adapter.epoch_root c n) ⊎ (adapter.epoch_root c' n ≡ some root)

-- What the distributor documents of a transaction, whether or not it is answered: it puts at most
-- the root that it is called with.
pub record IsAppending {C : Type 0} (adapter : Distributor C) : Type 0 where
  pub adds :
      (c : C) (root : Text) (assets : List Text) (totals : List ℤ) (hash : Text)
      → OnlyAdds adapter root c (adapter.publish_epoch c root assets totals hash).1

pub OnlyAdds-trans :
    {C : Type 0} (adapter : Distributor C) (root : Text) (a b c : C)
    → OnlyAdds adapter root a b
    → OnlyAdds adapter root b c
    → OnlyAdds adapter root a c
OnlyAdds-trans adapter root a b c h g n = elim (g n) [
  | inr new ↦ inr new
  | inl same ↦ elim (h n) [ inl older ↦ inl (same ∙ older) | inr new ↦ inr (same ∙ new) ]
]

publish_if_needed-OnlyAdds :
    {C : Type 0} (adapter : Distributor C) (c : C) (root : Text) (assets : List Text) (n : ℕ)
    (totals : List ℤ) (hash : Text)
    → IsAppending adapter
    → OnlyAdds adapter root c (publish_if_needed adapter c root assets n totals hash).1
unfolding publish_if_needed
publish_if_needed-OnlyAdds adapter c root assets n totals hash law m =
    elim (Bool-cases (carries (adapter.epoch_root c n) root)) [
      | inl there ↦ rw there (inl refl)
      | inr absent ↦ elim (Bool-cases (ltb n (adapter.epoch_count c))) [
        | inl foreign ↦ rw (absent, foreign) (inl refl)
        | inr free ↦ rw (absent, free) (law.adds c root assets totals hash m)
      ]
    ]

module _ {C S : Type 0} (k : KeeperSpec C S) where
  activated_outcome-chain :
      (w : Cycle C S) (epoch : EpochResult) (taken : SnapshotResult)
      (p : Result PublishError PublishRun × C)
      → (activated_outcome k w epoch taken p).1.chain ≡ p.1
  activated_outcome-chain w epoch taken (ok run, after) = refl
  activated_outcome-chain w epoch taken (err e, after) = refl

  -- An activation puts no other root on the chain than that of the epoch in the context.
  pub run_root_activate-OnlyAdds :
      (w : Cycle C S) (epoch : EpochResult)
      → IsAppending k.adapter.distributor
      → w.ctx.epoch ≡ some epoch
      → OnlyAdds k.adapter.distributor epoch.root w.chain (run_root_activate k w).1.chain
  unfolding run_root_activate
  run_root_activate-OnlyAdds w epoch law built n = elim (Option-cases w.ctx.snapshot) [
    | inl no_shot ↦ rw (built, no_shot, run_root_activate) (inl refl)
    | inr (taken, shot) ↦ elim (Option-cases (skip_reason k w epoch)) [
      | inr (reason, found) ↦ rw (activate-skips k w epoch taken reason built shot found) (inl refl)
      | inl nothing ↦ rw (activate-publishes k w epoch taken built shot nothing) (sent taken)
    ]
  ]
    where
      sent :
          (taken : SnapshotResult)
          → (k.adapter.distributor.epoch_root (run_publish k epoch taken w).1.chain n
              ≡ k.adapter.distributor.epoch_root w.chain n)
            ⊎ (k.adapter.distributor.epoch_root (run_publish k epoch taken w).1.chain n
                ≡ some epoch.root)
      sent taken =
          unfold run_publish in
          subst
            (λ c.
              (k.adapter.distributor.epoch_root c n ≡ k.adapter.distributor.epoch_root w.chain n)
              ⊎ (k.adapter.distributor.epoch_root c n ≡ some epoch.root))
            (sym (activated_outcome-chain w epoch taken _))
            (publish_if_needed-OnlyAdds k.adapter.distributor w.chain epoch.root
              (get_or w.ctx.assets []) epoch.epoch_index
              (cumulative_totals epoch (get_or w.ctx.assets [])) epoch.manifest.content_hash law n)

  -- No job but tree-build puts another root on the chain.
  pub run_job-OnlyAdds :
      (job : JobName) (w : Cycle C S) (epoch : EpochResult)
      → IsSeparate k.adapter
      → IsAppending k.adapter.distributor
      → w.ctx.relay_armed ≡ false
      → w.ctx.epoch ≡ some epoch
      → OnlyAdds k.adapter.distributor epoch.root w.chain (run_job k job w).1.chain
  run_job-OnlyAdds job w epoch law appending unarmed built n =
      elim (Bool-cases (job == Jobs.root_activate)) [
        | inr quiet ↦ inl ((run_job-KeepsEpochs k job w law unarmed quiet).epoch_root n)
        | inl activates ↦
            subst
              (λ j.
                (k.adapter.distributor.epoch_root (run_job k j w).1.chain n
                  ≡ k.adapter.distributor.epoch_root w.chain n)
                ⊎ (k.adapter.distributor.epoch_root (run_job k j w).1.chain n ≡ some epoch.root))
              (sym ((text_beq_iff job Jobs.root_activate).0 activates))
              (unfold run_job text_beq in run_root_activate-OnlyAdds w epoch appending built n)
      ]

  run_ingest-funding_tip : (w : Cycle C S) → (run_ingest k w).1.ctx.funding_tip ≡ w.ctx.funding_tip
  unfolding run_ingest
  run_ingest-funding_tip w = ground arith

  run_basket_purchase-funding_tip :
      (w : Cycle C S) → (run_basket_purchase k w).1.ctx.funding_tip ≡ w.ctx.funding_tip
  unfolding run_basket_purchase run_purchase
  run_basket_purchase-funding_tip w = ground arith

  run_snapshot-funding_tip :
      (w : Cycle C S) → (run_snapshot k w).1.ctx.funding_tip ≡ w.ctx.funding_tip
  unfolding run_snapshot
  run_snapshot-funding_tip w = ground arith

  run_tree_build-funding_tip :
      (w : Cycle C S) → (run_tree_build k w).1.ctx.funding_tip ≡ w.ctx.funding_tip
  unfolding run_tree_build run_tree
  run_tree_build-funding_tip w = ground arith

  run_root_activate-funding_tip :
      (w : Cycle C S) → (run_root_activate k w).1.ctx.funding_tip ≡ w.ctx.funding_tip
  unfolding run_root_activate run_publish
  run_root_activate-funding_tip w = ground arith

  run_claim_relay-funding_tip :
      (w : Cycle C S) → (run_claim_relay k w).1.ctx.funding_tip ≡ w.ctx.funding_tip
  unfolding run_claim_relay deliver
  run_claim_relay-funding_tip w = ground arith

  -- No job but the funding moves the tip of the funding.
  pub run_job-funding_tip :
      (job : JobName) (w : Cycle C S)
      → (job == Jobs.funding_reconcile) ≡ false
      → (run_job k job w).1.ctx.funding_tip ≡ w.ctx.funding_tip
  unfolding run_job
  run_job-funding_tip job w other = ground (
    arith,
    run_ingest-funding_tip w,
    run_basket_purchase-funding_tip w,
    run_snapshot-funding_tip w,
    run_tree_build-funding_tip w,
    run_manifest_validate-world k w,
    run_root_propose-world k w,
    run_root_activate-funding_tip w,
    run_claim_relay-funding_tip w,
  )
