-- ===== src/Keeper/Cycle/Gated.antt =====
-- No cycle publishes an epoch that the validation of its manifest did not pass.
use penny_protocol.Base.Map
use penny_protocol.Keeper.Jobs
use penny_protocol.Keeper.Pipeline
use penny_protocol.Base.Text.{Text, text_eq, text_beq}
use penny_protocol.Keeper.Steps.{KeeperSpec, Cycle}
use penny_protocol.Keeper.Steps.Frame.{
  run_manifest_validate-world, run_job-idle, run_job-Keeps, run_job-KeepsEpochs, run_job-epoch,
  KeepsEpochs, KeepsEpochs-refl, KeepsEpochs-trans, IsSeparate,
}
use penny_protocol.Keeper.Cycle.{
  MemoryStore, new_context, run_manifest_validate, ok, Monitor, StepRecord, ℤ, JobName, List,
  run_jobs, run_cycle, attempt, seal, put_sealed, known_jobs, record_metrics, is_failed,
  start_cycle, run_job,
}
use penny_protocol.Base.{
  sym, subst, true, All-map, refl, ◌⊎◌, ap, ◌++◌, Option-cases, ◌+◌, inl, inr, Bool-cases, [], ◌∷◌,
  ◌∙◌, none, false, some, ◌≡◌, Option, ◌==◌, All, ℕ, List,
}
use penny_protocol.Keeper.Jobs.{JobName}
use penny_protocol.Base.Int.{ℤ}
use penny_protocol.Indexer.Epoch.{EpochResult}
use penny_protocol.Keeper.State.{StepRecord}
use penny_protocol.Keeper.Monitor.{Monitor}
use penny_protocol.Base.Result.{Result-cases, ok}
use penny_protocol.Keeper.Steps.Release.{validate_outcome, run_manifest_validate}
use penny_protocol.Keeper.Pipeline.{ManifestError}
use penny_protocol.Indexer.Store.{MemoryStore}
use penny_protocol.Keeper.Steps.Sent.{run_job-OnlyAdds, OnlyAdds-trans, OnlyAdds, IsAppending}

abbrev pub IsQuiet : List JobName → Type 0
IsQuiet = All (λ j. (j == Jobs.root_activate) ≡ false)

abbrev pub NoTree : List JobName → Type 0
NoTree = All (λ j. (j == Jobs.tree_build) ≡ false)

validate_is_other : (Jobs.manifest_validate == Jobs.tree_build) ≡ false
unfolding text_beq
validate_is_other = refl

module _ {C S : Type 0} (k : KeeperSpec C S) where
  -- The epoch of the context passed the validation, and no other root than its own was put on the
  -- chain since the state `c`.
  abbrev pub IsPassed : C → Cycle C S → Type 0
  IsPassed c w =
      (epoch : EpochResult) × (w.ctx.epoch ≡ some epoch)
      × (Pipeline.manifest_validate k.host.viem k.host.quote epoch
            (k.adapter.distributor.epoch_count c)
          ≡ ok [])
      × OnlyAdds k.adapter.distributor epoch.root c w.chain

module _ {C S : Type 0} (k : KeeperSpec C S) (law : IsSeparate k.adapter)
    (appending : IsAppending k.adapter.distributor) (cycle_id : Text) (clock : ℕ → ℤ) where
  after_step : ℕ → JobName → Cycle C S → Cycle C S
  after_step n job w =
      put_sealed k (seal cycle_id job (attempt k job w).0 (clock n)) (attempt k job w).1

  metrics_after : ℕ → JobName → Cycle C S → Option Monitor → Option Monitor
  metrics_after n job w metrics =
      record_metrics metrics (seal cycle_id job (attempt k job w).0 (clock n))

  -- What holds of each way in which a first job can go holds of the run.
  run_jobs-cons :
      (P : Cycle C S → Type 0) (n : ℕ) (job : JobName) (rest : List JobName) (w : Cycle C S)
      (metrics : Option Monitor)
      → ((r : StepRecord) → P (put_sealed k r w))
      → (is_failed (attempt k job w).0.status ≡ true → P (after_step n job w))
      → (is_failed (attempt k job w).0.status ≡ false
          → P
              (run_jobs k cycle_id clock
                (n + 1)
                rest
                (after_step n job w)
                (metrics_after n job w metrics)).world)
      → P (run_jobs k cycle_id clock n (job ∷ rest) w metrics).world
  unfolding run_jobs after_step metrics_after
  run_jobs-cons P n job rest w metrics unknown_job fails goes_on =
      elim (Bool-cases (Map.contains known_jobs job)) [
        | inr unknown ↦ rw unknown (unknown_job _)
        | inl known ↦ elim (Bool-cases (is_failed (attempt k job w).0.status)) [
          | inl failing ↦ rw (known, failing) (fails failing)
          | inr fine ↦ rw (known, fine) (goes_on fine)
        ]
      ]

  -- A property that every job of a list keeps from state to state holds at the end of their run.
  run_jobs-keeps :
      (P : Cycle C S → Type 0)
      → ((r : StepRecord) (w : Cycle C S) → P w → P (put_sealed k r w))
      → (n : ℕ) (jobs : List JobName) (w : Cycle C S) (metrics : Option Monitor)
      → All (λ j. (w' : Cycle C S) → P w' → P (attempt k j w').1) jobs
      → P w
      → P (run_jobs k cycle_id clock n jobs w metrics).world
  unfolding run_jobs after_step
  run_jobs-keeps P put n [] w metrics keep h = h
  run_jobs-keeps P put n (job ∷ rest) w metrics keep h =
      let there = put (seal cycle_id job (attempt k job w).0 (clock n)) _ (keep.0 w h) in
      run_jobs-cons P n job rest w metrics (λ r. put r w h) (λ failing. there)
        (λ fine.
          run_jobs-keeps P put (n + 1) rest (after_step n job w) (metrics_after n job w metrics)
            keep.1 there)

  -- With no epoch in the context, nothing is published.
  abbrev IsIdle : C → Cycle C S → Type 0
  IsIdle c w = (w.ctx.relay_armed ≡ false) × (w.ctx.epoch ≡ none) × KeepsEpochs k.adapter c w.chain

  attempt-IsIdle :
      (c : C) (job : JobName) (w : Cycle C S)
      → (job == Jobs.tree_build) ≡ false
      → IsIdle c w
      → IsIdle c (attempt k job w).1
  unfolding attempt
  attempt-IsIdle c job w other (unarmed, idle, same) = (
    (run_job-Keeps k job w).relay_armed ∙ unarmed,
    run_job-epoch k job w other ∙ idle,
    elim (Bool-cases (job == Jobs.root_activate)) [
      | inr quiet ↦
          KeepsEpochs-trans k.adapter c w.chain _ same
            (run_job-KeepsEpochs k job w law unarmed quiet)
      | inl activates ↦ rw (run_job-idle k job w activates idle) same
    ],
  )

  keep-IsIdle :
      (c : C) (job : JobName)
      → (job == Jobs.tree_build) ≡ false
      → (w : Cycle C S) → IsIdle c w
      → IsIdle c (attempt k job w).1
  keep-IsIdle c job other w h = attempt-IsIdle c job w other h

  fine-no_errors :
      (epoch : EpochResult) (expected : ℕ) (errors : List ManifestError)
      → is_failed (validate_outcome k epoch expected errors).status ≡ false
      → errors ≡ []
  unfolding is_failed
  fine-no_errors epoch expected [] fine = refl
  fine-no_errors epoch expected (e ∷ es) fine = absurd (cc fine)

  -- A validation that did not fail found nothing wrong.
  validated :
      (w : Cycle C S) (epoch : EpochResult)
      → w.ctx.epoch ≡ some epoch
      → is_failed (attempt k Jobs.manifest_validate w).0.status ≡ false
      → IsPassed k w.chain w
  unfolding attempt run_job run_manifest_validate text_beq is_failed
  validated w epoch there fine =
      elim (Result-cases (
        Pipeline.manifest_validate k.host.viem k.host.quote epoch
          (k.adapter.distributor.epoch_count w.chain))) [
            | inr (e, thrown) ↦ absurd (cc (rw (there, run_manifest_validate, thrown) at fine))
            | inl (errors, answer) ↦
                let none_found =
                  fine-no_errors epoch (k.adapter.distributor.epoch_count w.chain) errors
                    (rw (there, run_manifest_validate, answer) at fine) in
                (epoch, there, answer ∙ ap ok none_found, λ n. inl refl)
          ]

  attempt-validate : (w : Cycle C S) → (attempt k Jobs.manifest_validate w).1 ≡ w
  unfolding attempt run_job text_beq
  attempt-validate w = run_manifest_validate-world k w

  IsPassed-attempt :
      (c : C) (job : JobName) (w : Cycle C S)
      → (job == Jobs.tree_build) ≡ false
      → (w.ctx.relay_armed ≡ false) × IsPassed k c w
      → ((attempt k job w).1.ctx.relay_armed ≡ false) × IsPassed k c (attempt k job w).1
  unfolding attempt
  IsPassed-attempt c job w other (unarmed, all) =
      let (epoch, there, passed, adds) = all in
      (
        (run_job-Keeps k job w).relay_armed ∙ unarmed,
        (
          epoch,
          run_job-epoch k job w other ∙ there,
          passed,
          OnlyAdds-trans k.adapter.distributor epoch.root c w.chain _ adds
              (run_job-OnlyAdds k job w epoch law appending unarmed there),
        ),
      )

  -- The jobs from manifest-validate on publish nothing, or the epoch passed.
  abbrev IsGuarded : C → Cycle C S → Type 0
  IsGuarded c w = KeepsEpochs k.adapter c w.chain ⊎ IsPassed k c w

  run_jobs-IsGuarded_from :
      (n : ℕ) (post : List JobName) (w : Cycle C S) (metrics : Option Monitor)
      → NoTree post
      → w.ctx.relay_armed ≡ false
      → IsGuarded w.chain
          (run_jobs k cycle_id clock n (Jobs.manifest_validate ∷ post) w metrics).world
  unfolding after_step
  run_jobs-IsGuarded_from n post w metrics no_tree unarmed = elim (Option-cases w.ctx.epoch) [
    | inl idle ↦
        inl
          (run_jobs-keeps (IsIdle w.chain) (λ r w' h. h) n (Jobs.manifest_validate ∷ post) w metrics
            (
              keep-IsIdle w.chain Jobs.manifest_validate validate_is_other,
              All-map _ _ (keep-IsIdle w.chain) post no_tree,
            )
            (unarmed, idle, KeepsEpochs-refl k.adapter w.chain)).2
    | inr (epoch, there) ↦
        run_jobs-cons (IsGuarded w.chain) n Jobs.manifest_validate post w metrics
          (λ r. inl (KeepsEpochs-refl k.adapter w.chain))
          (λ failing. inl (
            subst (λ (w' : Cycle C S). KeepsEpochs k.adapter w.chain w'.chain)
              (sym (attempt-validate w)) (KeepsEpochs-refl k.adapter w.chain)))
          (λ fine.
            inr
              (run_jobs-keeps (λ w'. (w'.ctx.relay_armed ≡ false) × IsPassed k w.chain w')
                (λ r w' h. h) (n + 1) post (after_step n Jobs.manifest_validate w)
                (metrics_after n Jobs.manifest_validate w metrics)
                (All-map _ _ (λ j other w' h. IsPassed-attempt w.chain j w' other h) post no_tree)
                (IsPassed-attempt w.chain Jobs.manifest_validate w validate_is_other
                  (unarmed, validated w epoch there fine))).1)
  ]

  run_jobs-IsGuarded :
      (n : ℕ) (pre post : List JobName) (w : Cycle C S) (metrics : Option Monitor)
      → IsQuiet pre
      → NoTree post
      → w.ctx.relay_armed ≡ false
      → IsGuarded w.chain
          (run_jobs k cycle_id clock n (pre ++ (Jobs.manifest_validate ∷ post)) w metrics).world
  unfolding after_step attempt
  run_jobs-IsGuarded n [] post w metrics quiet no_tree unarmed =
      run_jobs-IsGuarded_from n post w metrics no_tree unarmed
  run_jobs-IsGuarded n (job ∷ pre) post w metrics quiet no_tree unarmed =
      let same = run_job-KeepsEpochs k job w law unarmed quiet.0 in
      run_jobs-cons (IsGuarded w.chain) n job (pre ++ (Jobs.manifest_validate ∷ post)) w metrics
        (λ r. inl (KeepsEpochs-refl k.adapter w.chain)) (λ failing. inl same)
        (λ fine.
          elim (run_jobs-IsGuarded (n + 1) pre post (after_step n job w)
            (metrics_after n job w metrics) quiet.1 no_tree
            ((run_job-Keeps k job w).relay_armed ∙ unarmed)) [
              | inl kept ↦ inl (KeepsEpochs-trans k.adapter w.chain _ _ same kept)
              | inr (epoch, there, passed, adds) ↦ inr (
                epoch,
                there,
                rw same.epoch_count at passed,
                OnlyAdds-trans k.adapter.distributor epoch.root w.chain _ _
                    (λ m. inl (same.epoch_root m)) adds,
              )
            ])

module _ {C S : Type 0} (k : KeeperSpec C S) where
  -- For every keeper whose jobs have manifest-validate after every tree-build and before every
  -- root-activate, on a chain whose purchases leave the distributor alone and whose distributor puts
  -- no other root than the one it is called with, and every state: a cycle leaves the distributor's
  -- epochs as they were, or the epoch that it built passed the validation, with no error found,
  -- against the number of epochs on the chain when the cycle began, and at each index the chain has
  -- the root that it had or the root of that epoch.
  pub run_cycle-gated :
      (clock : ℕ → ℤ) (chain : C) (ledger : S) (indexed : MemoryStore) (metrics : Option Monitor)
      (pre post : List JobName)
      → IsSeparate k.adapter
      → IsAppending k.adapter.distributor
      → k.config.jobs ≡ pre ++ (Jobs.manifest_validate ∷ post)
      → IsQuiet pre
      → NoTree post
      → let ran = (run_cycle k clock chain ledger indexed metrics).1 in
        KeepsEpochs k.adapter chain ran.world.chain ⊎ IsPassed k chain ran.world
  unfolding run_cycle start_cycle new_context
  run_cycle-gated clock chain ledger indexed metrics pre post law appending jobs quiet no_tree =
      let (cycle_id, w) = start_cycle k clock chain ledger indexed in
      subst
        (λ all.
          let end = (run_jobs k cycle_id clock 1 all w metrics).world in
          KeepsEpochs k.adapter chain end.chain ⊎ IsPassed k chain end)
        (sym jobs)
        (run_jobs-IsGuarded k law appending cycle_id clock 1 pre post w metrics quiet no_tree refl)
