-- ===== src/Keeper/System/Records.antt =====
-- The records that the steps of a cycle write are sound.
use penny_protocol.Base.Text.{Text, text_eq, text_beq_iff}
use penny_protocol.Keeper.Jobs
use penny_protocol.Keeper.Steps.{
  step_ok, Thrown, KeeperSpec, Host, Cycle, ProposeIntent, StepOutcome,
}
use penny_protocol.Keeper.Steps.Recorded.{parse_int_record_cursor, settled_detail}
use penny_protocol.Keeper.Steps.Release.{
  both, run_root_activate, run_root_propose, next_cursor_of, intent_of,
}
use penny_protocol.Keeper.Steps.Activated.{run_root_activate-IsActivated}
use penny_protocol.Keeper.Publish.{carries, IsDistributor}
use penny_protocol.Keeper.Cycle.{seal, caught}
use penny_protocol.Keeper.System.Sound.{activation_ok, proposal_ok, honest, aims}
use penny_protocol.Keeper.System.Steps.{
  IsJson, both-some, activate-nothing, unsettled, activation_ok-silent, proposal_ok-silent,
  activated-ok,
}
use penny_protocol.Base.Int.{beq_ℤ_iff, pos, ℤ}
use penny_protocol.Keeper.Pipeline.{cursor_of, EpochCursor}
use penny_protocol.Base.{
  Bool-cases, none, refl, Option, subst, ◌∙◌, sym, ap, inr, arith, inl, Option-cases, some, true,
  ◌≡◌,
}
use penny_protocol.Indexer.Epoch.{EpochResult}
use penny_protocol.Indexer.Ingest.{SnapshotResult}
use penny_protocol.Base.Result.{ok, err, Result}
use penny_protocol.Keeper.Config.{is_blank}

-- A cursor that parses whole is the one that was written.
written :
    (host : Host) (cursor next : EpochCursor)
    → IsJson host
    → parse_int_record_cursor host (host.stringify_cursor cursor) ≡ some next
    → (next.epoch_index ≡ cursor.epoch_index) × (next.root ≡ cursor.root)
unfolding parse_int_record_cursor
written host cursor next json h =
    elim (Option-cases (host.parse_cursor (host.stringify_cursor cursor))) [
      | inl garbled ↦ absurd (ground (arith, h, garbled))
      | inr (p, parsed) ↦
          let same : p.cursor ≡ next = ground (arith, h, parsed) in
          let (index, root) = json.cursors cursor p parsed in
          (
            ap (λ (c : EpochCursor). c.epoch_index) (sym same) ∙ index,
            ap (λ (c : EpochCursor). c.root) (sym same) ∙ root,
          )
    ]

aims-true :
    (cursor : EpochCursor) (intent : ProposeIntent)
    → cursor.epoch_index ≡ pos intent.epoch_index
    → cursor.root ≡ intent.root
    → aims cursor intent ≡ true
aims-true cursor intent at root =
    let same = (beq_ℤ_iff cursor.epoch_index (pos intent.epoch_index)).1 at in
    let same_root = (text_beq_iff cursor.root intent.root).1 root in ground arith

carried : (o : Option Text) (root : Text) → o ≡ some root → carries o root ≡ true
carried o root h = rw h ((text_beq_iff root root).1 refl)

module _ {C S : Type 0} (k : KeeperSpec C S) where
  pub activate-activation_ok :
      (w : Cycle C S) (cycle_id : Text) (now : ℤ)
      → IsDistributor k.adapter.distributor
      → IsJson k.host
      → let (answer, after) = run_root_activate k w in
        activation_ok k after.chain (seal cycle_id Jobs.root_activate (caught k answer) now) ≡ true
  activate-activation_ok w cycle_id now law json =
      elim (Option-cases (both w.ctx.epoch w.ctx.snapshot)) [
        | inl nothing ↦
            rw (activate-nothing k w nothing)
              (activation_ok-silent k w.chain _ (unfold settled_detail seal in refl))
        | inr ((epoch, taken), found) ↦
            let (built, shot) = both-some w.ctx.epoch w.ctx.snapshot epoch taken found in
            answered epoch taken built shot (run_root_activate k w).0 refl
      ]
    where
      after : C
      after = (run_root_activate k w).1.chain

      answered :
          (epoch : EpochResult) (taken : SnapshotResult)
          → w.ctx.epoch ≡ some epoch
          → w.ctx.snapshot ≡ some taken
          → (answer : Result Thrown StepOutcome) → (run_root_activate k w).0 ≡ answer
          → activation_ok k after (seal cycle_id Jobs.root_activate (caught k answer) now) ≡ true
      answered epoch taken built shot (err e) h =
          activation_ok-silent k after _ (unfold settled_detail seal in refl)
      answered epoch taken built shot (ok outcome) h =
          elim (unsettled k after cycle_id Jobs.root_activate outcome now) [
            | inr silent ↦ activation_ok-silent k after _ silent
            | inl success ↦
                let done = run_root_activate-IsActivated k w epoch taken outcome law built shot h in
                let next = next_cursor_of epoch taken w.ctx.funding_tip in
                subst (λ o. activation_ok k after (seal cycle_id Jobs.root_activate o now) ≡ true)
                  (sym (done.cursor success).1)
                  (activated-ok k after cycle_id epoch.manifest.content_hash
                    (some taken.block.number) now next epoch.epoch_index json
                    (unfold cursor_of in refl)
                    (unfold cursor_of in carried _ epoch.root done.on_chain))
          ]

  -- The record of a proposal is honest.
  proposed-ok :
      (cycle_id : Text) (hash : Text) (now : ℤ) (intent : ProposeIntent) (next : EpochCursor)
      → IsJson k.host
      → intent.next_cursor ≡ k.host.stringify_cursor next
      → next.epoch_index ≡ pos intent.epoch_index
      → next.root ≡ intent.root
      → proposal_ok k.host (
          seal cycle_id Jobs.root_propose
            (step_ok hash none (some (k.host.stringify_intent intent)))
            now)
        ≡ true
  unfolding proposal_ok seal settled_detail
  proposed-ok cycle_id hash now intent next json text index root =
      elim (Bool-cases (is_blank (k.host.stringify_intent intent))) [
        | inl blank ↦ rw (proposal_ok, blank) refl
        | inr shown ↦ elim (Option-cases (k.host.parse_intent (k.host.stringify_intent intent))) [
          | inl garbled ↦ rw (proposal_ok, shown, garbled) refl
          | inr (back, parsed) ↦ rw (proposal_ok, shown, parsed) (back-honest back parsed)
        ]
      ]
    where
      back-honest :
          (back : ProposeIntent)
          → k.host.parse_intent (k.host.stringify_intent intent) ≡ some back
          → honest k.host back ≡ true
      back-honest back parsed =
          let (same_index, same_root, same_text) = json.intents intent back parsed in
          elim (Option-cases (parse_int_record_cursor k.host back.next_cursor)) [
            | inl gone ↦ rw (honest, gone) refl
            | inr (cursor, found) ↦
                let (at, of_root) =
                  written k.host next cursor json
                    (ap (parse_int_record_cursor k.host) (sym text ∙ sym same_text) ∙ found) in
                rw (honest, found)
                  (aims-true cursor back (at ∙ index ∙ ap pos (sym same_index))
                    (of_root ∙ root ∙ sym same_root))
          ]

  pub propose-proposal_ok :
      (w : Cycle C S) (cycle_id : Text) (now : ℤ)
      → IsJson k.host
      → proposal_ok k.host (seal cycle_id Jobs.root_propose (caught k (run_root_propose k w).0) now)
        ≡ true
  unfolding run_root_propose
  propose-proposal_ok w cycle_id now json = elim (Option-cases (both w.ctx.epoch w.ctx.snapshot)) [
    | inl nothing ↦
        rw (run_root_propose, nothing) (proposal_ok-silent k _ (unfold settled_detail seal in refl))
    | inr ((epoch, taken), found) ↦
        rw (run_root_propose, found)
          (unfold intent_of cursor_of in
            proposed-ok cycle_id epoch.manifest.content_hash now (intent_of k w.ctx epoch taken)
              (next_cursor_of epoch taken w.ctx.funding_tip) json refl refl refl)
  ]
