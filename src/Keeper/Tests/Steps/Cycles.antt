-- ===== src/Keeper/Tests/Steps/Cycles.antt =====
-- The theorems on whole cycles at concrete inputs.
use penny_protocol.Keeper.Tests.Steps.Live.{live, clock, live-IsSeparate, live-IsAppending}
use penny_protocol.Base.Map
use penny_protocol.Base.Text.{Text, text_eq, text_beq}
use penny_protocol.Keeper.Jobs
use penny_protocol.Keeper.Tests.Steps.{empty_store, new_memory_store, MemoryStepStore, keeper}
use penny_protocol.Keeper.Steps.{KeeperSpec}
use penny_protocol.Keeper.Cycle.{
  CycleReport, Answered, run_cycle_or_reject, is_failed, run_job, attempt, report_of, run_jobs,
  run_cycle,
}
use penny_protocol.Base.{true, ◌↔◌, ◌∷◌, refl, ◌⊎◌, none, some, false, List, ◌≡◌, []}
use penny_protocol.Keeper.State.{MemoryStepStore, new_memory_store}
use penny_protocol.Keeper.Steps.Intake.{run_basket_purchase}
use penny_protocol.Indexer.Store.{empty_store}
use penny_protocol.Keeper.Cycle.Report.{IsReport, Ends, run_cycle-IsRun}
use penny_protocol.Keeper.Steps.Frame.{KeepsEpochs}
use penny_protocol.Keeper.Jobs.{core_job_order}
use penny_protocol.Keeper.Cycle.Gated.{run_cycle-gated, NoTree, IsQuiet, IsPassed}

abbrev answered : Answered
answered = record { names = true; reconciles = true; shows_tip = true }

run_cycle-IsRun_example :
    let settled = run_cycle_or_reject live answered clock [] new_memory_store empty_store none in
    let failing = (run_cycle live clock [] new_memory_store empty_store none).1.failing_job in
    (((report : CycleReport) × (settled.0 ≡ some report)) ↔ Ends live true true true failing)
    × ((report : CycleReport) → settled.0 ≡ some report → IsReport live report)
run_cycle-IsRun_example = run_cycle-IsRun live answered clock [] new_memory_store empty_store none

-- Where the venue is not armed, a cycle stops at its first job.
abbrev unarmed : KeeperSpec (List Text) MemoryStepStore
unarmed = record keeper { config = record keeper.config { venue_armed = false } }

stops_unarmed :
    (run_cycle unarmed clock [] new_memory_store empty_store none).0.failing_job
    ≡ some Jobs.basket_purchase
unfolding run_cycle run_jobs report_of attempt run_job run_basket_purchase is_failed text_beq
    Map.contains
stops_unarmed = refl

run_cycle-gated_example :
    let ran = (run_cycle live clock [] new_memory_store empty_store none).1 in
    KeepsEpochs live.adapter [] ran.world.chain ⊎ IsPassed live [] ran.world
run_cycle-gated_example =
    run_cycle-gated live clock [] new_memory_store empty_store none
      (Jobs.basket_purchase ∷ Jobs.funding_reconcile ∷ Jobs.ingest ∷ Jobs.snapshot_request
        ∷ Jobs.tree_build ∷ [])
      (Jobs.root_propose ∷ Jobs.root_activate ∷ []) live-IsSeparate live-IsAppending refl quiet
      no_tree
  where
    quiet : IsQuiet (
        Jobs.basket_purchase ∷ Jobs.funding_reconcile ∷ Jobs.ingest ∷ Jobs.snapshot_request
        ∷ Jobs.tree_build ∷ [])
    quiet = unfold text_beq in (refl, (refl, (refl, (refl, (refl, tt)))))

    no_tree : NoTree (Jobs.root_propose ∷ Jobs.root_activate ∷ [])
    no_tree = unfold text_beq in (refl, (refl, tt))
