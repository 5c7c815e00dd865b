-- ===== src/Keeper/Steps/Activated.antt =====
-- What `runRootActivate` of services/keeper/src/steps.ts leaves on the chain.
use penny_protocol.Keeper.Jobs
use penny_protocol.Keeper.Steps.{
  step_skip, step_ok, Text, Result, SnapshotResult, EpochResult, List, KeeperSpec, Cycle,
  StepOutcome, Ending,
}
use penny_protocol.Keeper.Steps.Recorded.{first_same, resume_of, resume_reason}
use penny_protocol.Keeper.Steps.Release.{
  run_root_activate, run_publish, next_cursor_of, cumulative_totals, activated_outcome,
}
use penny_protocol.Keeper.Publish.{
  carries-some, IsPublished, carries, PublishRun, PublishError, publish_if_needed,
  publish_if_needed-once, IsDistributor,
}
use penny_protocol.Indexer.Epoch.{EpochResult}
use penny_protocol.Base.{
  ap, refl, Option-cases, none, inl, [], inr, ◌∷◌, get_or, arith, ◌+◌, true, ◌⊎◌, some, Bool,
  Option, ◌≡◌, List,
}
use penny_protocol.Indexer.Ingest.{SnapshotResult}
use penny_protocol.Keeper.State.{StepRecord}
use penny_protocol.Base.Text.{Text}
use penny_protocol.Base.Result.{err, ok, Result}

first_same-forward :
    (history : List StepRecord) (hash : Text) (forward : Bool) (reason : Text)
    → first_same history hash forward ≡ some reason
    → forward ≡ true
unfolding first_same
first_same-forward [] hash forward reason h = absurd (cc h)
first_same-forward (r ∷ rest) hash forward reason h =
    ground (arith, first_same-forward rest hash forward reason)

-- A step is skipped only where its work still stands.
pub resume_of-forward :
    (history : List StepRecord) (hash : Option Text) (forward : Bool) (reason : Text)
    → resume_of history hash forward ≡ some reason
    → forward ≡ true
unfolding resume_of
resume_of-forward history none forward reason h = absurd (cc h)
resume_of-forward history (some hash) forward reason h =
    ground (arith, first_same-forward history hash forward reason)

module _ {C S : Type 0} (k : KeeperSpec C S) where
  -- The epoch's root stands on the chain under its index, at most one epoch was added, and a root
  -- that was published is in the cursor that the context and the record carry on.
  pub record IsActivated (w : Cycle C S) (epoch : EpochResult) (taken : SnapshotResult)
      (outcome : StepOutcome) (after : Cycle C S) : Type 0 where
    pub on_chain : k.adapter.distributor.epoch_root after.chain epoch.epoch_index ≡ some epoch.root
    pub one_more :
        (k.adapter.distributor.epoch_count after.chain ≡ k.adapter.distributor.epoch_count w.chain)
        ⊎ (k.adapter.distributor.epoch_count after.chain
            ≡ k.adapter.distributor.epoch_count w.chain + 1)
    pub cursor :
        outcome.status ≡ Ending.succeeded
        → (after.ctx.cursor ≡ next_cursor_of epoch taken w.ctx.funding_tip)
          × (outcome
              ≡ step_ok epoch.manifest.content_hash
                  (some taken.block.number)
                  (some (k.host.stringify_cursor (next_cursor_of epoch taken w.ctx.funding_tip))))

  -- The answer of the ledger on whether the work is done.
  pub skip_reason : Cycle C S → EpochResult → Option Text
  skip_reason w epoch =
      resume_reason k w.ledger Jobs.root_activate (some epoch.manifest.content_hash)
        (carries (k.adapter.distributor.epoch_root w.chain epoch.epoch_index) epoch.root)

  pub activate-skips :
      (w : Cycle C S) (epoch : EpochResult) (taken : SnapshotResult) (reason : Text)
      → w.ctx.epoch ≡ some epoch
      → w.ctx.snapshot ≡ some taken
      → skip_reason w epoch ≡ some reason
      → run_root_activate k w ≡ (ok (step_skip reason (some epoch.manifest.content_hash)), w)
  unfolding run_root_activate skip_reason
  activate-skips w epoch taken reason built shot found = ground arith

  pub activate-publishes :
      (w : Cycle C S) (epoch : EpochResult) (taken : SnapshotResult)
      → w.ctx.epoch ≡ some epoch
      → w.ctx.snapshot ≡ some taken
      → skip_reason w epoch ≡ none
      → run_root_activate k w ≡ run_publish k epoch taken w
  unfolding run_root_activate skip_reason
  activate-publishes w epoch taken built shot nothing = ground arith

  module _ (law : IsDistributor k.adapter.distributor) (w : Cycle C S) (epoch : EpochResult)
      (taken : SnapshotResult) (outcome : StepOutcome) where
    -- The call of `publishIfNeeded`.
    published : Result PublishError PublishRun × C
    published =
        publish_if_needed k.adapter.distributor w.chain epoch.root (get_or w.ctx.assets [])
          epoch.epoch_index (cumulative_totals epoch (get_or w.ctx.assets []))
          epoch.manifest.content_hash

    Published : PublishRun → C → Type 0
    Published run after =
        IsPublished k.adapter.distributor w.chain epoch.root (get_or w.ctx.assets [])
          epoch.epoch_index (cumulative_totals epoch (get_or w.ctx.assets []))
          epoch.manifest.content_hash run after

    settled :
        (answer : Result PublishError PublishRun) (after : C)
        → ((run : PublishRun) → answer ≡ ok run → Published run after)
        → (activated_outcome k w epoch taken (answer, after)).0 ≡ ok outcome
        → IsActivated w epoch taken outcome (activated_outcome k w epoch taken (answer, after)).1
    unfolding Published
    settled (err e) after facts h = absurd (cc h)
    settled (ok run) after facts h =
        let fact = facts run refl in
        record {
          on_chain = fact.on_chain;
          one_more = ground (arith, fact.at_most_one);
          cursor = λ e. (refl, cc h);
        }

    run_publish-IsActivated :
        (run_publish k epoch taken w).0 ≡ ok outcome
        → IsActivated w epoch taken outcome (run_publish k epoch taken w).1
    unfolding run_publish published Published
    run_publish-IsActivated h =
        settled published.0 published.1
          (λ run sent.
            publish_if_needed-once k.adapter.distributor w.chain epoch.root (get_or w.ctx.assets [])
              epoch.epoch_index (cumulative_totals epoch (get_or w.ctx.assets []))
              epoch.manifest.content_hash law sent)
          h

    skipped-IsActivated :
        (reason : Text)
        → skip_reason w epoch ≡ some reason
        → step_skip reason (some epoch.manifest.content_hash) ≡ outcome
        → IsActivated w epoch taken outcome w
    unfolding skip_reason resume_reason
    skipped-IsActivated reason found same = record {
      on_chain = carries-some k.adapter.distributor _ epoch.root (
          resume_of-forward (k.store.history w.ledger Jobs.root_activate)
            (some epoch.manifest.content_hash) _ reason found);
      one_more = inl refl;
      cursor = λ e. absurd (cc (ap (λ (o : StepOutcome). o.status) same, e));
    }

  -- On a distributor as documented, in every state with an epoch and a snapshot: whenever the step
  -- returns, by publishing or by skipping, the epoch's root stands on the chain under its index and
  -- at most one epoch was added; and if it succeeded, the context's cursor and the outcome's detail
  -- are the cursor made of the epoch.
  pub run_root_activate-IsActivated :
      (w : Cycle C S) (epoch : EpochResult) (taken : SnapshotResult) (outcome : StepOutcome)
      → IsDistributor k.adapter.distributor
      → w.ctx.epoch ≡ some epoch
      → w.ctx.snapshot ≡ some taken
      → (run_root_activate k w).0 ≡ ok outcome
      → IsActivated w epoch taken outcome (run_root_activate k w).1
  run_root_activate-IsActivated w epoch taken outcome law built shot done =
      elim (Option-cases (skip_reason w epoch)) [
        | inr (reason, found) ↦
            let same = activate-skips w epoch taken reason built shot found in
            rw same (
              skipped-IsActivated law w epoch taken outcome reason found
                (cc (ap (λ p. p.0) same, done)))
        | inl nothing ↦
            let same = activate-publishes w epoch taken built shot nothing in
            rw same (run_publish-IsActivated law w epoch taken outcome (rw same at done))
      ]
