-- ===== src/Keeper/System/Reached.antt =====
-- In every state that the keeper reaches, the ledger's cursor is one of the chain.
use penny_protocol.Base.Text.{codes, Text, text_eq, text_beq, text_beq_iff}
use penny_protocol.Base.Map
use penny_protocol.Keeper.Jobs
use penny_protocol.Keeper.StepStore.{IsStepStore}
use penny_protocol.Keeper.Steps.{step_fail, KeeperSpec, Cycle}
use penny_protocol.Keeper.Steps.Recorded.{reconcile_cursor, settled_detail}
use penny_protocol.Keeper.Steps.Frame.{run_job-Keeps, IsSeparate}
use penny_protocol.Keeper.Publish.{carries-some, IsDistributor}
use penny_protocol.Keeper.Cycle.{
  new_context, run_job, attempt, seal, put_sealed, run_jobs, run_cycle, start_cycle, known_jobs,
  is_failed, record_metrics,
}
use penny_protocol.Keeper.System.{
  Monitor, MemoryStore, ℤ, ◌≡◌, ℕ, KeepsRoots, Move, Reach, after_jobs,
}
use penny_protocol.Keeper.System.Sound.{
  backed_lem, activation_ok, proposal_ok, IsSound, IsStart, reconcile_cursor-IsSound,
}
use penny_protocol.Keeper.System.Steps.{
  negative, ℤ-cases, IsJson, IsAppendOnly, attempt-KeepsRoots, activation_ok-keeps,
  activation_ok-silent, proposal_ok-silent,
}
use penny_protocol.Keeper.System.Records.{activate-activation_ok, propose-proposal_ok}
use penny_protocol.Keeper.Jobs.{JobName}
use penny_protocol.Keeper.State.{StepRecord}
use penny_protocol.Base.{
  Bool, if◌then◌else◌, some, ◌⊎◌, [], ◌+◌, inl, ◌++◌, inr, Bool-cases, ◌∷◌, refl, All, Option, sym,
  true, List, ◌∙◌, false, subst, ◌==◌, ℕ, ◌≡◌, All-map,
}
use penny_protocol.Base.Int.{pos, ℤ}
use penny_protocol.Indexer.Store.{MemoryStore}
use penny_protocol.Keeper.Monitor.{Monitor}
use penny_protocol.Keeper.Pipeline.{EpochCursor, empty_cursor}

-- What the keeper relies on: its store, the distributor, the other contracts and JSON.
pub record IsReliable {C S : Type 0} (k : KeeperSpec C S) : Type 0 where
  pub of_store : IsStepStore k.store
  pub of_distributor : IsDistributor k.adapter.distributor
  pub append_only : IsAppendOnly k.adapter
  pub separate : IsSeparate k.adapter
  pub of_json : IsJson k.host

module _ {C S : Type 0} (k : KeeperSpec C S) (law : IsReliable k) where
  keeps-IsSound : (c c' : C) (s : S) → KeepsRoots k.adapter c c' → IsSound k c s → IsSound k c' s
  keeps-IsSound c c' s keep sound = record {
    activations =
        All-map _ _ (λ r h. activation_ok-keeps k c c' r keep h)
          (k.store.history s Jobs.root_activate) sound.activations;
    proposals = sound.proposals;
  }

  put-IsSound :
      (c : C) (s : S) (r : StepRecord)
      → IsSound k c s
      → ((r.job == Jobs.root_activate) ≡ true → activation_ok k c r ≡ true)
      → ((r.job == Jobs.root_propose) ≡ true → proposal_ok k.host r ≡ true)
      → IsSound k c (k.store.put s r)
  put-IsSound c s r sound activates proposes = record {
    activations =
        law.of_store.history_all (activation_ok k c) s r Jobs.root_activate sound.activations
          activates;
    proposals =
        law.of_store.history_all (proposal_ok k.host) s r Jobs.root_propose sound.proposals
          proposes;
  }

  -- Where the record of a step goes through, and where it is lost.
  landed-IsSound :
      (c : C) (s : S) (r : StepRecord)
      → IsSound k c s
      → ((r.job == Jobs.root_activate) ≡ true → activation_ok k c r ≡ true)
      → ((r.job == Jobs.root_propose) ≡ true → proposal_ok k.host r ≡ true)
      → IsSound k c (if k.lands r then k.store.put s r else s)
  landed-IsSound c s r sound activates proposes = by_fate (k.lands r)
    where
      by_fate : (b : Bool) → IsSound k c (if b then k.store.put s r else s)
      by_fate true = put-IsSound c s r sound activates proposes
      by_fate false = sound

  -- A state inside a cycle.
  abbrev IsSafe : Cycle C S → Type 0
  IsSafe w = (w.ctx.relay_armed ≡ false) × IsSound k w.chain w.ledger

  attempt-IsSafe : (job : JobName) (w : Cycle C S) → IsSafe w → IsSafe (attempt k job w).1
  unfolding attempt
  attempt-IsSafe job w (unarmed, sound) =
      let keeps = run_job-Keeps k job w in
      (
        keeps.relay_armed ∙ unarmed,
        subst (IsSound k (run_job k job w).1.chain) (sym keeps.ledger) (
            keeps-IsSound w.chain (run_job k job w).1.chain w.ledger
              (attempt-KeepsRoots k job w law.separate law.append_only unarmed) sound),
      )

  sealed-IsSafe :
      (cycle_id : Text) (now : ℤ) (job : JobName) (w : Cycle C S)
      → IsSafe w
      → IsSafe (put_sealed k (seal cycle_id job (attempt k job w).0 now) (attempt k job w).1)
  unfolding attempt run_job text_beq seal
  sealed-IsSafe cycle_id now job w safe =
      let (unarmed, sound) = attempt-IsSafe job w safe in
      (
        unarmed,
        landed-IsSound (attempt k job w).1.chain (attempt k job w).1.ledger
            (seal cycle_id job (attempt k job w).0 now) sound
            (λ e.
              subst
                (λ j.
                  activation_ok k (attempt k j w).1.chain (seal cycle_id j (attempt k j w).0 now)
                  ≡ true)
                (sym ((text_beq_iff job Jobs.root_activate).0 e))
                (activate-activation_ok k w cycle_id now law.of_distributor law.of_json))
            (λ e.
              subst (λ j. proposal_ok k.host (seal cycle_id j (attempt k j w).0 now) ≡ true)
                (sym ((text_beq_iff job Jobs.root_propose).0 e))
                (propose-proposal_ok k w cycle_id now law.of_json)),
      )

  unknown-IsSafe :
      (cycle_id : Text) (now : ℤ) (job : JobName) (error : Text) (w : Cycle C S)
      → IsSafe w
      → IsSafe (put_sealed k (seal cycle_id job (step_fail error) now) w)
  unfolding seal settled_detail
  unknown-IsSafe cycle_id now job error w (unarmed, sound) = (
    unarmed,
    landed-IsSound w.chain w.ledger (seal cycle_id job (step_fail error) now) sound
        (λ e. activation_ok-silent k w.chain _ refl) (λ e. proposal_ok-silent k _ refl),
  )

  run_jobs-IsSafe :
      (cycle_id : Text) (clock : ℕ → ℤ) (n : ℕ) (jobs : List JobName) (w : Cycle C S)
      (metrics : Option Monitor)
      → IsSafe w
      → IsSafe (run_jobs k cycle_id clock n jobs w metrics).world
  unfolding run_jobs
  run_jobs-IsSafe cycle_id clock n [] w metrics safe = safe
  run_jobs-IsSafe cycle_id clock n (job ∷ rest) w metrics safe =
      let there = sealed-IsSafe cycle_id (clock n) job w safe in
      elim (Bool-cases (Map.contains known_jobs job)) [
        | inr unknown ↦
            rw unknown (unknown-IsSafe cycle_id (clock n) job (codes "unknown job " ++ job) w safe)
        | inl known ↦ elim (Bool-cases (is_failed (attempt k job w).0.status)) [
          | inl failing ↦ rw (known, failing) there
          | inr fine ↦
              rw (known, fine)
                (run_jobs-IsSafe cycle_id clock (n + 1) rest
                  (put_sealed k (seal cycle_id job (attempt k job w).0 (clock n))
                    (attempt k job w).1)
                  (record_metrics metrics (seal cycle_id job (attempt k job w).0 (clock n))) there)
        ]
      ]

  next-IsSound : (c : C) (s : S) → IsSound k c s → IsSound k c (k.store.next_cycle_id s).1
  next-IsSound c s sound = record {
    activations =
        subst (All (λ r. activation_ok k c r ≡ true))
          (sym (law.of_store.history_next s Jobs.root_activate)) sound.activations;
    proposals =
        subst (All (λ r. proposal_ok k.host r ≡ true))
          (sym (law.of_store.history_next s Jobs.root_propose)) sound.proposals;
  }

  start_cycle-IsSafe :
      (clock : ℕ → ℤ) (c : C) (s : S) (indexed : MemoryStore)
      → IsSound k c s
      → IsSafe (start_cycle k clock c s indexed).1
  unfolding start_cycle new_context
  start_cycle-IsSafe clock c s indexed sound =
      let s' = (k.store.next_cycle_id s).1 in
      (refl, (reconcile_cursor-IsSound k c s' (clock 0) law.of_store (next-IsSound c s sound)).0)

  after_jobs-IsSafe :
      (clock : ℕ → ℤ) (c : C) (s : S) (indexed : MemoryStore) (metrics : Option Monitor)
      (jobs : List JobName)
      → IsSound k c s
      → IsSafe (after_jobs k clock c s indexed metrics jobs)
  after_jobs-IsSafe clock c s indexed metrics jobs sound =
      run_jobs-IsSafe (start_cycle k clock c s indexed).0 clock 1 jobs
        (start_cycle k clock c s indexed).1 metrics (start_cycle-IsSafe clock c s indexed sound)

  Move-IsSound :
      {c : C} {s : S} {c' : C} {s' : S} → Move k c s c' s' → IsSound k c s → IsSound k c' s'
  unfolding run_cycle
  Move-IsSound {c} {s} {c'} {s'} (Move.cycled clock indexed metrics at_c at_s) sound =
      let safe = after_jobs-IsSafe clock c s indexed metrics k.config.jobs sound in
      subst (λ x. IsSound k x s') (sym at_c) (subst (IsSound k _) (sym at_s) safe.1)
  Move-IsSound {c} {s} {c'} {s'} (Move.killed_early at_c at_s) sound =
      subst (λ x. IsSound k x s') (sym at_c)
        (subst (IsSound k c) (sym at_s) (next-IsSound c s sound))
  Move-IsSound {c} {s} {c'} {s'}
        (Move.killed_after clock indexed metrics pre post job w jobs ran at_c at_s) sound =
      let safe = subst IsSafe (sym ran) (after_jobs-IsSafe clock c s indexed metrics pre sound) in
      let after = attempt-IsSafe job w safe in
      subst (λ x. IsSound k x s') (sym at_c) (subst (IsSound k _) (sym at_s) after.1)
  Move-IsSound {c} {s} {c'} {s'}
        (Move.killed_between clock indexed metrics pre post w jobs ran at_c at_s) sound =
      let safe = subst IsSafe (sym ran) (after_jobs-IsSafe clock c s indexed metrics pre sound) in
      subst (λ x. IsSound k x s') (sym at_c) (subst (IsSound k _) (sym at_s) safe.1)
  Move-IsSound {c} {s} {c'} {s'} (Move.others_acted keep same) sound =
      subst (IsSound k c') (sym same) (keeps-IsSound c c' s keep sound)

  Reach-IsSound :
      {c : C} {s : S} {c' : C} {s' : S} → IsSound k c s → Reach k c s c' s' → IsSound k c' s'
  Reach-IsSound sound Reach.here = sound
  Reach-IsSound sound (Reach.next r m) = Move-IsSound m (Reach-IsSound sound r)

module _ {C S : Type 0} (k : KeeperSpec C S) where
  start-on_chain :
      (c : C) (cursor : EpochCursor)
      → IsStart k c cursor
      → (cursor ≡ empty_cursor)
        ⊎ ((n : ℕ) × (cursor.epoch_index ≡ pos n)
            × (k.adapter.distributor.epoch_root c n ≡ some cursor.root))
  start-on_chain c cursor (inl e) = inl e
  start-on_chain c cursor (inr h) = elim (ℤ-cases cursor.epoch_index) [
    | inl (n, at) ↦ inr (
      n,
      at,
      carries-some k.adapter.distributor _ cursor.root
          (sym (backed_lem k c cursor n cursor.root at refl) ∙ h),
    )
    | inr (n, at) ↦ absurd (negative k c cursor n at h)
  ]

  -- For a keeper whose store, distributor, other contracts and JSON keep their laws, from any chain
  -- with a ledger that has no activation and no proposal: in every state that is reached by whole
  -- cycles, cycles killed at any point between their jobs and records, and whatever else happens on
  -- the chain that keeps the published roots, a cycle starts from the empty cursor or from one whose
  -- root the chain carries under the cursor's index.
  pub reached-on_chain :
      (c c' : C) (s s' : S) (now : ℤ)
      → IsReliable k
      → k.store.history s Jobs.root_activate ≡ []
      → k.store.history s Jobs.root_propose ≡ []
      → Reach k c s c' s'
      → let cursor = (reconcile_cursor k c' s' now).0.cursor in
        (cursor ≡ empty_cursor)
        ⊎ ((n : ℕ) × (cursor.epoch_index ≡ pos n)
            × (k.adapter.distributor.epoch_root c' n ≡ some cursor.root))
  reached-on_chain c c' s s' now law no_activation no_proposal reached =
      start-on_chain c' (reconcile_cursor k c' s' now).0.cursor
        (reconcile_cursor-IsSound k c' s' now law.of_store (
          Reach-IsSound k law
            (record {
              activations = subst (All (λ r. activation_ok k c r ≡ true)) (sym no_activation) tt;
              proposals = subst (All (λ r. proposal_ok k.host r ≡ true)) (sym no_proposal) tt;
            })
            reached)).1
