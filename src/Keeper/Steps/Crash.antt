-- ===== src/Keeper/Steps/Crash.antt =====
-- A kill between the publication of a root and the record of it: what `reconcileCursor` of
-- services/keeper/src/steps.ts restores.
use penny_protocol.Keeper.Jobs
use penny_protocol.Base.Text.{codes, Text, text_eq, text_beq, text_beq_iff}
use penny_protocol.Keeper.StepStore.{IsStepStore}
use penny_protocol.Keeper.Steps.{
  Ending, ok, ℤ, step_ok, SnapshotResult, EpochCursor, EpochResult, Host, KeeperSpec, Cycle,
  StepOutcome, ProposeIntent, whole,
}
use penny_protocol.Keeper.Steps.Recorded.{
  recovered_record, reconcile_cursor, first_cursor, parse_int_record_cursor, adopted, read_cursor,
  latest_intent, first_intent, settled_detail,
}
use penny_protocol.Keeper.Steps.Release.{
  run_root_activate, run_root_propose, intent_of, next_cursor_of,
}
use penny_protocol.Keeper.Cycle.{seal}
use penny_protocol.Keeper.State.{step_id, key_of, StepStatus, StepRecord}
use penny_protocol.Keeper.Pipeline.{cursor_of, EpochCursor}
use penny_protocol.Indexer.Epoch.{EpochResult}
use penny_protocol.Base.{
  subst, sym, ap₂, ◌++◌, true, ◌∙◌, All, ap, arith, ◌∷◌, refl, none, some, false, ◌≡◌, List, ◌==◌,
}
use penny_protocol.Indexer.Ingest.{SnapshotResult}
use penny_protocol.Base.Result.{ok}
use penny_protocol.Base.Int.{pos, ltb_ℤ, ℤ}
use penny_protocol.Keeper.Config.{is_blank}
use penny_protocol.Keeper.Publish.{IsDistributor}
use penny_protocol.Keeper.Steps.Activated.{run_root_activate-IsActivated, IsActivated}
use penny_protocol.Keeper.Steps.Reconciled.{reconcile-recovered}

propose_is_other : (Jobs.root_propose == Jobs.root_activate) ≡ false
unfolding text_beq
propose_is_other = refl

-- What JSON promises of an intent and a cursor: the text is not empty, and parses to the value.
pub record IsReadable (host : Host) (intent : ProposeIntent) (next : EpochCursor) : Type 0 where
  pub intent_text : host.parse_intent (host.stringify_intent intent) ≡ some intent
  pub intent_shown : is_blank (host.stringify_intent intent) ≡ false
  pub cursor_text : host.parse_cursor (host.stringify_cursor next) ≡ some (whole next)
  pub cursor_shown : is_blank (host.stringify_cursor next) ≡ false

first_intent-head :
    (host : Host) (r : StepRecord) (rest : List StepRecord) (raw : Text) (intent : ProposeIntent)
    → r.status ≡ StepStatus.succeeded
    → r.detail ≡ some raw
    → is_blank raw ≡ false
    → host.parse_intent raw ≡ some intent
    → first_intent host (r ∷ rest) ≡ some (intent, r.cycle_id)
unfolding first_intent settled_detail
first_intent-head host r rest raw intent status detail shown parsed = ground arith

module _ {C S : Type 0} (k : KeeperSpec C S) where
  -- The outcome of the proposal of an epoch.
  abbrev pub proposal_of : Cycle C S → EpochResult → SnapshotResult → StepOutcome
  proposal_of w epoch taken =
      step_ok epoch.manifest.content_hash none
        (some (k.host.stringify_intent (intent_of k w.ctx epoch taken)))

  run_root_propose-proposal :
      (w : Cycle C S) (epoch : EpochResult) (taken : SnapshotResult)
      → w.ctx.epoch ≡ some epoch
      → w.ctx.snapshot ≡ some taken
      → run_root_propose k w ≡ (ok (proposal_of w epoch taken), w)
  unfolding run_root_propose
  run_root_propose-proposal w epoch taken built shot = ground arith

  module _ (law : IsStepStore k.store) (w : Cycle C S) (epoch : EpochResult)
      (taken : SnapshotResult) (cycle_id : Text) (now : ℤ) where
    intent : ProposeIntent
    intent = intent_of k w.ctx epoch taken

    next : EpochCursor
    next = next_cursor_of epoch taken w.ctx.funding_tip

    proposed : StepRecord
    proposed = seal cycle_id Jobs.root_propose (proposal_of w epoch taken) now

    abbrev IsNewest : Type 0
    IsNewest =
        (k.store.get w.ledger (key_of proposed) ≡ none)
        × All (λ q. ltb_ℤ q.updated_at now ≡ true) (k.store.history w.ledger Jobs.root_propose)

    proposed-latest_intent :
        IsNewest
        → IsReadable k.host intent next
        → latest_intent k (k.store.put w.ledger proposed) ≡ some (intent, cycle_id)
    unfolding latest_intent proposed seal intent
    proposed-latest_intent (fresh, later) readable =
        ap (first_intent k.host) (law.history_latest w.ledger proposed fresh later)
        ∙ first_intent-head k.host proposed (k.store.history w.ledger Jobs.root_propose)
            (k.host.stringify_intent intent) intent refl refl readable.intent_shown
            readable.intent_text

    proposed-read_cursor :
        IsNewest → read_cursor k (k.store.put w.ledger proposed) ≡ read_cursor k w.ledger
    unfolding read_cursor proposed seal
    proposed-read_cursor (fresh, later) =
        ap (first_cursor k.host)
          (law.history_other w.ledger proposed Jobs.root_activate fresh propose_is_other)

    -- On a chain that carries the root, the intent's cursor is adopted.
    adopted-next :
        (c : C)
        → IsReadable k.host intent next
        → ltb_ℤ (read_cursor k w.ledger).epoch_index (pos epoch.epoch_index) ≡ true
        → k.adapter.distributor.epoch_root c epoch.epoch_index ≡ some epoch.root
        → adopted k c (read_cursor k w.ledger) intent ≡ some next
    unfolding adopted parse_int_record_cursor intent intent_of next cursor_of
    adopted-next c readable behind stands = ground (
      arith,
      readable.cursor_text,
      readable.cursor_shown,
      (text_beq_iff epoch.root epoch.root).1 refl,
    )

    restored :
        (c : C) (later : ℤ)
        → IsNewest
        → IsReadable k.host intent next
        → ltb_ℤ (read_cursor k w.ledger).epoch_index (pos epoch.epoch_index) ≡ true
        → k.adapter.distributor.epoch_root c epoch.epoch_index ≡ some epoch.root
        → let s = k.store.put w.ledger proposed in
          reconcile_cursor k c s later ≡ (
            record { cursor = next; recovered = true },
            k.store.put s (recovered_record cycle_id intent next later),
          )
    restored c later newest readable behind stands =
        reconcile-recovered k c (k.store.put w.ledger proposed) later intent cycle_id next
          (proposed-latest_intent newest readable)
          (ap (λ cursor. adopted k c cursor intent) (proposed-read_cursor newest)
            ∙ adopted-next c readable behind stands)

    -- The recovered record is what `seal` makes of the activation's outcome.
    recovered-seal :
        (later : ℤ)
        → recovered_record cycle_id intent next later
          ≡ seal
              (cycle_id ++ codes "~recovered")
              Jobs.root_activate
              (step_ok epoch.manifest.content_hash
                (some taken.block.number)
                (some (k.host.stringify_cursor next)))
              later
    unfolding recovered_record intent intent_of next cursor_of seal
    recovered-seal later = refl

  -- The state in which root-activate runs, right after the proposal was recorded.
  abbrev pub after_proposal : Cycle C S → Text → StepOutcome → ℤ → Cycle C S
  after_proposal w cycle_id proposal now = record w {
    ledger = k.store.put w.ledger (seal cycle_id Jobs.root_propose proposal now);
  }

  -- For every keeper whose store keeps its laws, on a distributor as documented, in every state with
  -- an epoch and a snapshot whose recorded cursor is behind the epoch, where the proposal's record is
  -- new and the latest, and JSON reads back the intent and the cursor: if root-propose returned and
  -- was recorded, and root-activate then returned a success whose record was lost, a reconciliation
  -- at any later time adopts the very cursor that the activation left in the context, and writes the
  -- record that was lost, under a name that marks it as recovered.
  pub crash-recovers :
      (w : Cycle C S) (epoch : EpochResult) (taken : SnapshotResult) (cycle_id : Text)
      (now later : ℤ) (proposal outcome : StepOutcome)
      → IsStepStore k.store
      → IsDistributor k.adapter.distributor
      → w.ctx.epoch ≡ some epoch
      → w.ctx.snapshot ≡ some taken
      → ltb_ℤ (read_cursor k w.ledger).epoch_index (pos epoch.epoch_index) ≡ true
      → k.store.get w.ledger (step_id cycle_id Jobs.root_propose) ≡ none
      → All (λ q. ltb_ℤ q.updated_at now ≡ true) (k.store.history w.ledger Jobs.root_propose)
      → IsReadable k.host
          (intent_of k w.ctx epoch taken)
          (next_cursor_of epoch taken w.ctx.funding_tip)
      → (run_root_propose k w).0 ≡ ok proposal
      → (run_root_activate k (after_proposal w cycle_id proposal now)).0 ≡ ok outcome
      → outcome.status ≡ Ending.succeeded
      → let w' = after_proposal w cycle_id proposal now in
        let after = (run_root_activate k w').1 in
        let lost = seal (cycle_id ++ codes "~recovered") Jobs.root_activate outcome later in
        reconcile_cursor k after.chain w'.ledger later
        ≡ (record { cursor = after.ctx.cursor; recovered = true }, k.store.put w'.ledger lost)
  unfolding seal proposed next intent
  crash-recovers w epoch taken cycle_id now later proposal outcome law chain_law built shot behind
        fresh newest readable was_proposed was_activated success =
      let (at_next, same_outcome) = activated.cursor success in
      same_ledger
      ∙ ap₂
          (λ cursor lost. (
            record { cursor = cursor; recovered = true },
            k.store.put w'.ledger
                (seal (cycle_id ++ codes "~recovered") Jobs.root_activate lost later),
          ))
          (sym at_next) (sym same_outcome)
    where
      same_proposal : proposal_of w epoch taken ≡ proposal
      same_proposal =
          cc (was_proposed, ap (λ p. p.0) (run_root_propose-proposal w epoch taken built shot))

      w' : Cycle C S
      w' = after_proposal w cycle_id proposal now

      activated : IsActivated k w' epoch taken outcome (run_root_activate k w').1
      activated =
          run_root_activate-IsActivated k w' epoch taken outcome chain_law built shot was_activated

      same_ledger : reconcile_cursor k (run_root_activate k w').1.chain w'.ledger later ≡ (
        record { cursor = next_cursor_of epoch taken w.ctx.funding_tip; recovered = true },
        k.store.put w'.ledger (
            seal
              (cycle_id ++ codes "~recovered")
              Jobs.root_activate
              (step_ok epoch.manifest.content_hash
                (some taken.block.number)
                (some (k.host.stringify_cursor (next_cursor_of epoch taken w.ctx.funding_tip))))
              later),
      )
      same_ledger =
          subst
            (λ p.
              let s = k.store.put w.ledger (seal cycle_id Jobs.root_propose p now) in
              reconcile_cursor k (run_root_activate k w').1.chain s later ≡ (
                record { cursor = next law w epoch taken cycle_id now; recovered = true },
                k.store.put s (
                    seal (cycle_id ++ codes "~recovered") Jobs.root_activate
                      (step_ok epoch.manifest.content_hash (some taken.block.number)
                        (some (k.host.stringify_cursor (next law w epoch taken cycle_id now))))
                      later),
              ))
            same_proposal
            (restored law w epoch taken cycle_id now (run_root_activate k w').1.chain later
                (fresh, newest) readable behind activated.on_chain
              ∙ ap
                  (λ r. (
                    record { cursor = next law w epoch taken cycle_id now; recovered = true },
                    k.store.put (k.store.put w.ledger (proposed law w epoch taken cycle_id now)) r,
                  ))
                  (recovered-seal law w epoch taken cycle_id now later))
