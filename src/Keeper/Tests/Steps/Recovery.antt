-- ===== src/Keeper/Tests/Steps/Recovery.antt =====
-- The theorems on the keeper's ledger, chain and funding at concrete inputs.
use penny_protocol.Base.Text.{text_beq, codes, Text, text_eq}
use penny_protocol.Keeper.Jobs
use penny_protocol.Base.Map
use penny_protocol.Keeper.Tests.{stock, pos, publish_if_needed, ok, List, distributor-IsDistributor}
use penny_protocol.Keeper.Tests.Steps.{
  EpochCursor, keeper, built, first_epoch, shot, log, locale, toy_chain-IsDepositLog,
}
use penny_protocol.Keeper.StepStore.Laws.{memory_step_store-IsStepStore}
use penny_protocol.Keeper.Steps.{ProposeIntent, step_ok, StepOutcome, Cycle}
use penny_protocol.Keeper.Steps.Activated.{run_root_activate-IsActivated, IsActivated}
use penny_protocol.Keeper.Steps.Crash.{crash-recovers, IsReadable, after_proposal, proposal_of}
use penny_protocol.Base.{
  sym, subst, All, arith, none, filter_by, [], ◌++◌, ◌∷◌, true, refl, some, ◌≡◌, List,
}
use penny_protocol.Keeper.Steps.Release.{
  run_root_propose, intent_of, run_publish, next_cursor_of, run_root_activate,
}
use penny_protocol.Base.Result.{ok}
use penny_protocol.Keeper.State.{
  key_of, put_step, get_step, step_id, history_of, history, MemoryStepStore,
}
use penny_protocol.Keeper.Publish.{publish_if_needed}
use penny_protocol.Base.Int.{ltb_ℤ, ◌+ℤ◌, pos}
use penny_protocol.Keeper.Steps.Recorded.{
  recovered_record, settled_detail, first_intent, latest_intent, first_cursor, read_cursor,
  resume_reason, reconcile_cursor,
}
use penny_protocol.Keeper.Steps.Funded.{after_jobs, run_funding-once, in_window, funded_of}
use penny_protocol.Keeper.Steps.Intake.{run_funding}
use penny_protocol.Keeper.Cycle.{run_job, attempt, seal}
use penny_protocol.Base.Sort.{sort}
use penny_protocol.Keeper.Jobs.{core_job_order}
use penny_protocol.Keeper.Steps.Reconciled.{reconcile_cursor-IsReconciled, IsLater, IsReconciled}
use penny_protocol.Keeper.Pipeline.{show_assets, show_record, cursor_of, EpochCursor}
use penny_protocol.Keeper.Purchase.Funding.{deposited}

abbrev proposal : StepOutcome
proposal = proposal_of keeper built first_epoch shot

abbrev proposed : Cycle (List Text) MemoryStepStore
proposed = after_proposal keeper built (codes "c1") proposal (pos 1)

abbrev outcome : StepOutcome
outcome =
    step_ok first_epoch.manifest.content_hash (some 2)
      (some (keeper.host.stringify_cursor (next_cursor_of first_epoch shot (some 7))))

run_root_activate-IsActivated_example :
    IsActivated keeper built first_epoch shot outcome (run_root_activate keeper built).1
run_root_activate-IsActivated_example =
    run_root_activate-IsActivated keeper built first_epoch shot outcome distributor-IsDistributor
      refl refl sent
  where
    sent : (run_root_activate keeper built).0 ≡ ok outcome
    sent =
        unfold run_root_activate run_publish publish_if_needed resume_reason history history_of sort
          filter_by Map.values in
        refl

crash-recovers_example :
    let after = (run_root_activate keeper proposed).1 in
    reconcile_cursor keeper after.chain proposed.ledger (pos 2) ≡ (
      record { cursor = after.ctx.cursor; recovered = true },
      keeper.store.put proposed.ledger
          (seal (codes "c1" ++ codes "~recovered") Jobs.root_activate outcome (pos 2)),
    )
crash-recovers_example =
    crash-recovers keeper built first_epoch shot (codes "c1") (pos 1) (pos 2) proposal outcome
      (memory_step_store-IsStepStore locale) distributor-IsDistributor refl refl behind fresh latest
      readable was_proposed sent refl
  where
    behind : ltb_ℤ (read_cursor keeper built.ledger).epoch_index (pos 0) ≡ true
    behind = unfold read_cursor first_cursor history history_of sort filter_by Map.values in refl

    fresh : keeper.store.get built.ledger (step_id (codes "c1") Jobs.root_propose) ≡ none
    fresh = unfold get_step Map.get in refl

    latest :
        All
          (λ q. ltb_ℤ q.updated_at (pos 1) ≡ true)
          (keeper.store.history built.ledger Jobs.root_propose)
    latest = unfold history history_of sort filter_by Map.values in tt

    readable :
        IsReadable keeper.host
          (intent_of keeper built.ctx first_epoch shot)
          (next_cursor_of first_epoch shot (some 7))
    readable =
        unfold intent_of cursor_of show_record show_assets in
        record { intent_text = refl; intent_shown = refl; cursor_text = refl; cursor_shown = refl }

    was_proposed : (run_root_propose keeper built).0 ≡ ok proposal
    was_proposed = unfold run_root_propose in refl

    sent : (run_root_activate keeper proposed).0 ≡ ok outcome
    sent =
        unfold run_root_activate run_publish publish_if_needed resume_reason history history_of sort
          filter_by Map.values Map.set put_step seal text_beq in
        refl

-- The ledger after the proposal of an epoch that was published and then lost.
reconcile_cursor-IsReconciled_example :
    let found = reconcile_cursor keeper (stock ∷ []) proposed.ledger (pos 2) in
    IsReconciled keeper (stock ∷ []) proposed.ledger found.0 found.1
reconcile_cursor-IsReconciled_example =
    reconcile_cursor-IsReconciled keeper (stock ∷ []) proposed.ledger (pos 2)
      (memory_step_store-IsStepStore locale) later
  where
    there :
        latest_intent keeper proposed.ledger
        ≡ some (intent_of keeper built.ctx first_epoch shot, codes "c1")
    there =
        unfold latest_intent first_intent settled_detail history history_of sort filter_by
          Map.values put_step seal Map.set text_beq intent_of cursor_of show_record show_assets in
        refl

    later :
        (intent : ProposeIntent) (cycle_id : Text) (next : EpochCursor)
        → latest_intent keeper proposed.ledger ≡ some (intent, cycle_id)
        → IsLater keeper proposed.ledger (pos 2) intent cycle_id next
    later intent cycle_id next last =
        let own : cycle_id ≡ codes "c1" = cc (last, there) in
        (
          subst
              (λ c.
                keeper.store.get proposed.ledger (key_of (recovered_record c intent next (pos 2)))
                ≡ none)
              (sym own)
              (unfold get_step put_step seal recovered_record Map.get Map.set step_id text_beq in
                refl),
          unfold history history_of sort filter_by Map.values put_step seal Map.set text_beq in tt,
        )

-- The cycle after it, on the chain that carries the first root, with the cursor that it left.
abbrev next_cycle : Cycle (List Text) MemoryStepStore
next_cycle = record built {
  chain = stock ∷ [];
  ctx = record built.ctx { cursor = next_cursor_of first_epoch shot (some 9) };
}

abbrev settled : StepOutcome
settled =
    step_ok first_epoch.manifest.content_hash (some 2)
      (some (keeper.host.stringify_cursor (next_cursor_of first_epoch shot (some 9))))

-- The first cycle, funded and proposed.
abbrev funded : Cycle (List Text) MemoryStepStore
funded =
    after_jobs keeper (codes "c1") (λ n. pos n) 1 (Jobs.root_propose ∷ [])
      (run_funding keeper built).1

run_funding-once_example :
    funded_of keeper (run_funding keeper built).1 stock
      +ℤ funded_of keeper (run_funding keeper next_cycle).1 stock
    ≡ deposited stock (filter_by (in_window 0 10) log)
run_funding-once_example =
    run_funding-once keeper (codes "c1") (λ n. pos n) built next_cycle 1 (Jobs.root_propose ∷ [])
      log stock first_epoch shot settled distributor-IsDistributor (toy_chain-IsDepositLog [])
      (toy_chain-IsDepositLog (stock ∷ [])) (omega arith, tt) (unfold text_beq in (refl, tt)) there
      shot_there sent refl begins (omega arith) (omega arith)
  where
    there : funded.ctx.epoch ≡ some first_epoch
    there = unfold attempt run_job text_beq run_root_propose run_funding in refl

    shot_there : funded.ctx.snapshot ≡ some shot
    shot_there = unfold attempt run_job text_beq run_root_propose run_funding in refl

    sent : (run_root_activate keeper funded).0 ≡ ok settled
    sent =
        unfold attempt run_job text_beq run_root_propose run_funding run_root_activate run_publish
          publish_if_needed resume_reason history history_of sort filter_by Map.values put_step seal
          Map.set in
        refl

    begins : next_cycle.ctx.cursor ≡ (run_root_activate keeper funded).1.ctx.cursor
    begins =
        unfold attempt run_job text_beq run_root_propose run_funding run_root_activate run_publish
          publish_if_needed resume_reason history history_of sort filter_by Map.values put_step seal
          Map.set in
        refl
