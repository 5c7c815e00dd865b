-- ===== src/Keeper/Cycle.antt =====
-- services/keeper/src/keeper.ts: the cycle, which runs the configured jobs in order and stops at the
-- first that fails.
pub mod Report
pub mod Gated
use penny_protocol.Base.Map
use penny_protocol.Keeper.Jobs
use penny_protocol.Keeper.Steps.{
  Thrown, KeeperSpec, Cycle, CycleContext, Step, StepOutcome, Ending, step_fail,
}
use penny_protocol.Keeper.Steps.Intake.{run_ingest, run_basket_purchase, run_funding, run_snapshot}
use penny_protocol.Keeper.Steps.Release.{
  run_tree_build, run_manifest_validate, run_root_propose, run_root_activate, run_claim_relay,
}
use penny_protocol.Keeper.State.{StepRecord, StepStatus}
use penny_protocol.Base.{
  not, ◌+◌, ◌++◌, true, ◌==◌, [], ◌∷◌, false, some, if◌then◌else◌, List, none, Option, ℕ, Bool,
}
use penny_protocol.Base.Result.{err, ok, Result}
use penny_protocol.Keeper.Jobs.{JobName}
use penny_protocol.Base.Text.{text_eq, codes, Text}
use Prim.Native.Nat.{ℕ}
use penny_protocol.Keeper.Pipeline.{EpochCursor}
use penny_protocol.Keeper.Monitor.{heartbeat, record_step, Monitor}
use penny_protocol.Base.Int.{ℤ}
use penny_protocol.Indexer.Store.{MemoryStore}
use penny_protocol.Keeper.Steps.Recorded.{reconcile_cursor}

pub data CycleStatus : Type 0 where
  completed halted : CycleStatus

pub record CycleReport : Type 0 where
  pub cycle_id : Text
  pub status : CycleStatus
  pub failing_job : Option JobName
  pub steps : List StepRecord

-- Which of the calls of `runCycle` outside of its try block are answered: the name of the cycle, the
-- reconciliation of the cursor, and the last look at the tip, which only a completed cycle takes. A
-- reconciliation that rejects has put no record.
pub record Answered : Type 0 where
  pub names : Bool
  pub reconciles : Bool
  pub shows_tip : Bool

-- Where the cycle rejects, or returns, by the three calls and the job that failed.
abbrev pub settle : {A : Type 0} → Bool → Bool → Bool → Option JobName → A → A → A → A → A
settle false reconciles shows_tip failing unnamed stuck tipless done = unnamed
settle true false shows_tip failing unnamed stuck tipless done = stuck
settle true true shows_tip (some job) unnamed stuck tipless done = done
settle true true false none unnamed stuck tipless done = tipless
settle true true true none unnamed stuck tipless done = done

-- `DONE`
abbrev pub known_jobs : List JobName
known_jobs = Jobs.job_names

unfoldable pub is_failed : Ending → Bool
is_failed Ending.succeeded = false
is_failed Ending.skipped = false
is_failed Ending.failed = true

abbrev pub status_of : Ending → StepStatus
status_of Ending.succeeded = StepStatus.succeeded
status_of Ending.skipped = StepStatus.skipped
status_of Ending.failed = StepStatus.failed

abbrev pub metrics_emitted : StepOutcome
metrics_emitted = record {
  status = Ending.succeeded;
  at_block = none;
  detail = some (codes "metrics emitted");
  error = none;
  input_hash = none;
}

-- The record of a step; `now` is `Date.now()`.
unfoldable pub seal : Text → JobName → StepOutcome → ℤ → StepRecord
seal cycle_id job outcome now = record {
  cycle_id = cycle_id;
  job = job;
  status = status_of outcome.status;
  input_hash = outcome.input_hash;
  attempts = 1;
  at_block = outcome.at_block;
  last_error = outcome.error;
  detail = outcome.detail;
  updated_at = now;
}

abbrev pub record_metrics : Option Monitor → StepRecord → Option Monitor
record_metrics none step = none
record_metrics (some m) step = some (record_step m step none)

abbrev pub beat_metrics : Option Monitor → Option Monitor
beat_metrics none = none
beat_metrics (some m) = some (heartbeat m)

-- The context at the start of a cycle.
unfoldable pub new_context : {C : Type 0} → Text → EpochCursor → CycleContext C
new_context cycle_id cursor = record {
  cycle_id = cycle_id;
  cursor = cursor;
  ingest = none;
  purchase = none;
  deposits = none;
  funded = none;
  funding_tip = none;
  assets = none;
  snapshot = none;
  epoch = none;
  relay_armed = false;
  deliveries = none;
  claim_for_many = none;
}

-- What the loop leaves: the records it pushed, the job that it stopped at, and the state.
pub record Ran (C S : Type 0) : Type 0 where
  pub steps : List StepRecord
  pub failing_job : Option JobName
  pub world : Cycle C S
  pub metrics : Option Monitor

abbrev pub with_step : {C S : Type 0} → StepRecord → Ran C S → Ran C S
with_step step ran = record ran { steps = step ∷ ran.steps }

module _ {C S : Type 0} (k : KeeperSpec C S) where
  -- `run`
  unfoldable pub run_job : JobName → Step C S
  run_job job w =
      if job == Jobs.ingest
      then run_ingest k w
      else (if job == Jobs.basket_purchase
          then run_basket_purchase k w
          else (if job == Jobs.funding_reconcile
              then run_funding k w
              else (if job == Jobs.snapshot_request
                  then run_snapshot k w
                  else (if job == Jobs.tree_build
                      then run_tree_build k w
                      else (if job == Jobs.manifest_validate
                          then run_manifest_validate k w
                          else (if job == Jobs.root_propose
                              then run_root_propose k w
                              else (if job == Jobs.root_activate
                                  then run_root_activate k w
                                  else (if job == Jobs.claim_relay
                                      then run_claim_relay k w
                                      else (if job == Jobs.monitoring
                                          then (ok metrics_emitted, w)
                                          else (
                                            ok (step_fail (codes "unhandled job " ++ job)),
                                            w,
                                          ))))))))))

  -- The outcome, where a throw is a failure with the error's message.
  abbrev pub caught : Result Thrown StepOutcome → StepOutcome
  caught (ok outcome) = outcome
  caught (err e) = step_fail (k.host.message e)

  unfoldable pub attempt : JobName → Cycle C S → StepOutcome × Cycle C S
  unfolding run_job
  attempt job w = let (answer, after) = run_job job w in (caught answer, after)

  -- `seal` does not await the put of the record, and its failure is swallowed: the record is kept, by
  -- the next step, or it is lost.
  abbrev pub put_sealed : StepRecord → Cycle C S → Cycle C S
  put_sealed step w = record w {
    ledger = if k.lands step then k.store.put w.ledger step else w.ledger;
  }

  abbrev pub halt : JobName → StepRecord → Cycle C S → Option Monitor → Ran C S
  halt job step w metrics = record {
    steps = step ∷ [];
    failing_job = some job;
    world = w;
    metrics = beat_metrics metrics;
  }

  -- The loop over the jobs; `clock` is read once for each record.
  unfoldable pub run_jobs : Text → (ℕ → ℤ) → ℕ → List JobName → Cycle C S → Option Monitor → Ran C S
  unfolding attempt seal is_failed
  run_jobs cycle_id clock n [] w metrics = record {
    steps = [];
    failing_job = none;
    world = w;
    metrics = beat_metrics metrics;
  }
  run_jobs cycle_id clock n (job ∷ rest) w metrics =
      let unknown = seal cycle_id job (step_fail (codes "unknown job " ++ job)) (clock n) in
      let (outcome, after) = attempt job w in
      let step = seal cycle_id job outcome (clock n) in
      let w' = put_sealed step after in
      let seen = record_metrics metrics step in
      let others = run_jobs cycle_id clock (n + 1) rest w' seen in
      if Map.contains known_jobs job
      then (if is_failed outcome.status then halt job step w' seen else with_step step others)
      else halt job unknown (put_sealed unknown w) metrics

  -- `report`
  unfoldable pub report_of : Text → Ran C S → CycleReport
  report_of cycle_id ran = record {
    cycle_id = cycle_id;
    status = elim ran.failing_job [ none ↦ CycleStatus.completed | some job ↦ CycleStatus.halted ];
    failing_job = ran.failing_job;
    steps = ran.steps;
  }

  -- The state of the cycle once its cursor is reconciled.
  unfoldable pub start_cycle : (ℕ → ℤ) → C → S → MemoryStore → Text × Cycle C S
  unfolding new_context
  start_cycle clock chain ledger indexed =
      let (cycle_id, ledger') = k.store.next_cycle_id ledger in
      let (found, ledger'') = reconcile_cursor k chain ledger' (clock 0) in
      (
        cycle_id,
        record {
          chain = chain;
          ledger = ledger'';
          indexed = indexed;
          ctx = new_context cycle_id found.cursor;
        },
      )

  unfoldable pub run_cycle : (ℕ → ℤ) → C → S → MemoryStore → Option Monitor → CycleReport × Ran C S
  unfolding run_jobs report_of start_cycle
  run_cycle clock chain ledger indexed metrics =
      let (cycle_id, w) = start_cycle clock chain ledger indexed in
      let ran = run_jobs cycle_id clock 1 k.config.jobs w metrics in (report_of cycle_id ran, ran)

  -- `runCycle` with the calls that it awaits outside of its try block: where one of them rejects, so
  -- does the cycle, and it makes no report. What was done before stays done.
  unfoldable pub run_cycle_or_reject :
      Answered → (ℕ → ℤ) → C → S → MemoryStore → Option Monitor → Option CycleReport × (C × S)
  unfolding run_cycle
  run_cycle_or_reject answered clock chain ledger indexed metrics =
      let (report, ran) = run_cycle clock chain ledger indexed metrics in
      settle answered.names answered.reconciles answered.shows_tip ran.failing_job
        (none, (chain, ledger)) (none, (chain, (k.store.next_cycle_id ledger).1))
        (none, (ran.world.chain, ran.world.ledger))
        (some report, (ran.world.chain, ran.world.ledger))
