-- ===== src/Keeper/Cycle/Report.antt =====
-- What a cycle reports, and what it leaves in the ledger.
use penny_protocol.Base.Map
use penny_protocol.Base.Text.{text_eq}
use penny_protocol.Keeper.Steps.{Ending, KeeperSpec, Cycle}
use penny_protocol.Keeper.Cycle.{
  settle, CycleReport, Answered, run_cycle_or_reject, record_metrics, start_cycle, status_of,
  Ending, MemoryStore, is_failed, report_of, StepStatus, StepRecord, Monitor, ℤ, JobName, List, ℕ,
  Text, CycleStatus, run_jobs, run_cycle, attempt, seal, put_sealed, known_jobs,
}
use penny_protocol.Base.Text.{Text}
use penny_protocol.Base.{
  Bool, get_or, ◌⊎◌, subst, arith, ◌+◌, ap, refl, inl, false, ◌↔◌, inr, Bool-cases, ◌≢◌, true, some,
  ◌≡◌, none, ◌∷◌, [], Option, ℕ, List,
}
use penny_protocol.Base.Int.{ℤ}
use penny_protocol.Keeper.Jobs.{JobName}
use penny_protocol.Keeper.State.{StepStatus, StepRecord}
use penny_protocol.Keeper.Monitor.{Monitor}
use penny_protocol.Indexer.Store.{MemoryStore}

-- The records of a run of these jobs under one name: all of the jobs and none failed, or those up to
-- and with the first that failed.
pub data IsRun (cycle_id : Text) : List JobName → Option JobName → List StepRecord → Type 0 where
  all_done : IsRun cycle_id [] none []
  stopped :
      {job : JobName} {rest : List JobName} {r : StepRecord}
      → r.cycle_id ≡ cycle_id
      → r.job ≡ job
      → r.status ≡ StepStatus.failed
      → IsRun cycle_id (job ∷ rest) (some job) (r ∷ [])
  went_on :
      {job : JobName} {rest : List JobName} {failing : Option JobName} {r : StepRecord}
      {rs : List StepRecord}
      → r.cycle_id ≡ cycle_id
      → r.job ≡ job
      → Map.contains known_jobs job ≡ true
      → r.status ≢ StepStatus.failed
      → IsRun cycle_id rest failing rs
      → IsRun cycle_id (job ∷ rest) failing (r ∷ rs)

failed_of : (e : Ending) → is_failed e ≡ true → e ≡ Ending.failed
unfolding is_failed
failed_of Ending.succeeded h = cc h
failed_of Ending.skipped h = cc h
failed_of Ending.failed h = refl

status_of-ne_failed : (e : Ending) → is_failed e ≡ false → status_of e ≢ StepStatus.failed
unfolding is_failed
status_of-ne_failed Ending.succeeded h e = cc e
status_of-ne_failed Ending.skipped h e = cc e
status_of-ne_failed Ending.failed h e = cc h

module _ {C S : Type 0} (k : KeeperSpec C S) where
  run_jobs-IsRun :
      (cycle_id : Text) (clock : ℕ → ℤ) (n : ℕ) (jobs : List JobName) (w : Cycle C S)
      (metrics : Option Monitor)
      → let ran = run_jobs k cycle_id clock n jobs w metrics in
        IsRun cycle_id jobs ran.failing_job ran.steps
  unfolding run_jobs seal
  run_jobs-IsRun cycle_id clock n [] w metrics = all_done
  run_jobs-IsRun cycle_id clock n (job ∷ rest) w metrics =
      elim (Bool-cases (Map.contains known_jobs job)) [
        | inr unknown ↦ rw unknown (stopped refl refl refl)
        | inl known ↦ elim (Bool-cases (is_failed (attempt k job w).0.status)) [
          | inl failing ↦
              rw (known, failing) (stopped refl refl (ap status_of (failed_of _ failing)))
          | inr fine ↦
              rw (known, fine)
                (went_on refl refl known (status_of-ne_failed _ fine) (
                  run_jobs-IsRun cycle_id clock (n + 1) rest
                    (put_sealed k (seal cycle_id job (attempt k job w).0 (clock n))
                      (attempt k job w).1)
                    (record_metrics metrics (seal cycle_id job (attempt k job w).0 (clock n)))))
        ]
      ]

  -- The report of a cycle, of the jobs in order.
  abbrev pub IsReport : CycleReport → Type 0
  IsReport report =
      IsRun report.cycle_id k.config.jobs report.failing_job report.steps
      × ((report.status ≡ CycleStatus.completed) ↔ (report.failing_job ≡ none))

  run_cycle-IsReport :
      (clock : ℕ → ℤ) (chain : C) (ledger : S) (indexed : MemoryStore) (metrics : Option Monitor)
      → IsReport (run_cycle k clock chain ledger indexed metrics).0
  unfolding run_cycle report_of
  run_cycle-IsReport clock chain ledger indexed metrics =
      let (cycle_id, w) = start_cycle k clock chain ledger indexed in
      (run_jobs-IsRun cycle_id clock 1 k.config.jobs w metrics, ground arith)

  -- A cycle that comes to an end: the name and the cursor are given to it, and it stops at a job or
  -- sees the tip.
  abbrev pub Ends : Bool → Bool → Bool → Option JobName → Type 0
  Ends names reconciles shows_tip failing =
      (names ≡ true) × (reconciles ≡ true) × ((failing ≢ none) ⊎ (shows_tip ≡ true))

  abbrev Settles : Option CycleReport × (C × S) → Type 0 → Type 0
  Settles settled P =
      (((report : CycleReport) × (settled.0 ≡ some report)) ↔ P)
      × ((report : CycleReport) → settled.0 ≡ some report → IsReport report)

  rejected : (cs : C × S) (P : Type 0) → ¬ P → Settles (none, cs) P
  rejected cs P no_end = ((λ (r, e). absurd (cc e), λ p. absurd (no_end p)), λ r e. absurd (cc e))

  reported :
      (cs : C × S) (P : Type 0) (report : CycleReport)
      → IsReport report
      → P
      → Settles (some report, cs) P
  reported cs P report good ends = (
    (λ found. ends, λ p. (report, refl)),
    λ r e. subst IsReport (ap (λ o. get_or o report) e) good,
  )

  settle_lem :
      (names reconciles shows_tip : Bool) (failing : Option JobName) (a b c : C × S)
      (report : CycleReport)
      → IsReport report
      → Settles
          (settle names reconciles shows_tip failing (none, a) (none, b) (none, c) (some report, c))
          (Ends names reconciles shows_tip failing)
  settle_lem false r t f a b c report good = rejected a _ (λ (e, r, last). cc e)
  settle_lem true false t f a b c report good = rejected b _ (λ (n, e, last). cc e)
  settle_lem true true t (some job) a b c report good =
      reported c _ report good (refl, refl, inl (λ e. cc e))
  settle_lem true true false none a b c report good =
      rejected c _ (λ (n, r, last). elim last [ inl ne ↦ ne refl | inr dark ↦ cc dark ])
  settle_lem true true true none a b c report good = reported c _ report good (refl, refl, inr refl)

  -- For every keeper and every state: a cycle makes a report exactly where the store names it and its
  -- cursor is reconciled, and either some job fails or the last look at the tip is answered; else it
  -- rejects. It reports the records of its jobs in order, all of them if none failed and else those
  -- up to and with the first that failed or is unknown; and it is completed exactly when no job
  -- failed.
  pub run_cycle-IsRun :
      (answered : Answered) (clock : ℕ → ℤ) (chain : C) (ledger : S) (indexed : MemoryStore)
      (metrics : Option Monitor)
      → let settled = run_cycle_or_reject k answered clock chain ledger indexed metrics in
        let failing = (run_cycle k clock chain ledger indexed metrics).1.failing_job in
        (((report : CycleReport) × (settled.0 ≡ some report))
          ↔ Ends answered.names answered.reconciles answered.shows_tip failing)
        × ((report : CycleReport) → settled.0 ≡ some report → IsReport report)
  unfolding run_cycle_or_reject run_cycle
  run_cycle-IsRun answered clock chain ledger indexed metrics =
      let (report, ran) = run_cycle k clock chain ledger indexed metrics in
      settle_lem answered.names answered.reconciles answered.shows_tip ran.failing_job
        (chain, ledger) (chain, (k.store.next_cycle_id ledger).1)
        (ran.world.chain, ran.world.ledger) report
        (run_cycle-IsReport clock chain ledger indexed metrics)
