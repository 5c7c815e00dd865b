-- ===== src/Keeper/Steps/Recorded.antt =====
-- What the steps read back from the ledger: the cursor, the latest intent, and the reason to skip;
-- `reconcileCursor` of services/keeper/src/steps.ts.
use penny_protocol.Keeper.Steps.{
  Text, Option, ℤ, List, EpochCursor, Host, KeeperSpec, ProposeIntent,
}
use penny_protocol.Base.{
  not, [], ◌==◌, ◌&&◌, ◌∷◌, false, true, some, Bool, if◌then◌else◌, none, ◌++◌, List, Option,
}
use penny_protocol.Keeper.Jobs.{root_activate, root_propose, JobName}
use penny_protocol.Keeper.State.{StepStatus, StepRecord}
use penny_protocol.Base.Text.{text_eq, codes, Text}
use penny_protocol.Keeper.Pipeline.{empty_cursor, EpochCursor}
use penny_protocol.Base.Int.{ltb_ℤ, ℤ}
use penny_protocol.Keeper.Config.{is_unset, is_blank}
use penny_protocol.Keeper.Publish.{carries}

abbrev pub is_succeeded : StepStatus → Bool
is_succeeded StepStatus.succeeded = true
is_succeeded StepStatus.pending = false
is_succeeded StepStatus.running = false
is_succeeded StepStatus.failed = false
is_succeeded StepStatus.skipped = false

-- The text of a record that succeeded with a detail that is not empty.
unfoldable pub settled_detail : StepRecord → Option Text
settled_detail r = if is_succeeded r.status && not (is_unset r.detail) then r.detail else none

-- `record.inputHash === hash`
abbrev pub is_hash : Option Text → Text → Bool
is_hash none hash = false
is_hash (some own) hash = own == hash

-- `JSON.parse`, where there is a detail.
abbrev pub parse_or_skip {ℓ} : {A : Type ℓ} → (Text → Option A) → Option Text → Option A
parse_or_skip parse none = none
parse_or_skip parse (some text) = parse text

-- The loop of `readCursor` over the history of root-activate.
unfoldable pub first_cursor : Host → List StepRecord → EpochCursor
unfolding settled_detail
first_cursor host [] = empty_cursor
first_cursor host (r ∷ rest) = elim (parse_or_skip host.parse_cursor (settled_detail r)) [
  | none ↦ first_cursor host rest
  | some p ↦ p.cursor
]

-- The loop of `latestIntent` over the history of root-propose.
unfoldable pub first_intent : Host → List StepRecord → Option (ProposeIntent × Text)
unfolding settled_detail
first_intent host [] = none
first_intent host (r ∷ rest) = elim (parse_or_skip host.parse_intent (settled_detail r)) [
  | none ↦ first_intent host rest
  | some intent ↦ some (intent, r.cycle_id)
]

-- The loop of `resumeReason`; `forward` is what the awaited test answers.
unfoldable pub first_same : List StepRecord → Text → Bool → Option Text
first_same [] hash forward = none
first_same (r ∷ rest) hash forward =
    let next = first_same rest hash forward in
    if is_succeeded r.status && is_hash r.input_hash hash
    then (if forward then some (codes "identical to cycle " ++ r.cycle_id) else none)
    else next

unfoldable pub resume_of : List StepRecord → Option Text → Bool → Option Text
unfolding first_same
resume_of history none forward = none
resume_of history (some hash) forward =
    if is_blank hash then none else first_same history hash forward

-- `parseIntRecordCursor`
unfoldable pub parse_int_record_cursor : Host → Text → Option EpochCursor
parse_int_record_cursor host raw = if is_blank raw then none else elim (host.parse_cursor raw) [
  | none ↦ none
  | some p ↦ if p.has_epoch_index && p.has_funded_up_to_block then some p.cursor else none
]

-- The record that stands for the one lost in a crash.
unfoldable pub recovered_record : Text → ProposeIntent → EpochCursor → ℤ → StepRecord
recovered_record cycle_id intent next now = record {
  cycle_id = cycle_id ++ codes "~recovered";
  job = root_activate;
  status = StepStatus.succeeded;
  input_hash = some intent.content_hash;
  attempts = 1;
  at_block = some next.finalized_block;
  last_error = none;
  detail = some intent.next_cursor;
  updated_at = now;
}

pub record Reconciled : Type 0 where
  pub cursor : EpochCursor
  pub recovered : Bool

module _ {C S : Type 0} (k : KeeperSpec C S) where
  unfoldable pub read_cursor : S → EpochCursor
  unfolding first_cursor
  read_cursor s = first_cursor k.host (k.store.history s root_activate)

  unfoldable pub latest_intent : S → Option (ProposeIntent × Text)
  unfolding first_intent
  latest_intent s = first_intent k.host (k.store.history s root_propose)

  unfoldable pub resume_reason : S → JobName → Option Text → Bool → Option Text
  unfolding resume_of
  resume_reason s job hash forward = resume_of (k.store.history s job) hash forward

  -- The intent's cursor, if it is ahead of the recorded one and the chain carries its root.
  unfoldable pub adopted : C → EpochCursor → ProposeIntent → Option EpochCursor
  unfolding parse_int_record_cursor
  adopted c cursor intent = elim (parse_int_record_cursor k.host intent.next_cursor) [
    | none ↦ none
    | some next ↦
        if ltb_ℤ cursor.epoch_index next.epoch_index
          && carries (k.adapter.distributor.epoch_root c intent.epoch_index) intent.root
        then some next
        else none
  ]

  -- `now` is `Date.now()`.
  unfoldable pub reconcile_cursor : C → S → ℤ → Reconciled × S
  unfolding read_cursor latest_intent adopted recovered_record
  reconcile_cursor c s now =
      let cursor = read_cursor s in
      elim (latest_intent s) [
        | none ↦ (record { cursor = cursor; recovered = false }, s)
        | some (intent, cycle_id) ↦ elim (adopted c cursor intent) [
          | none ↦ (record { cursor = cursor; recovered = false }, s)
          | some next ↦ (
            record { cursor = next; recovered = true },
            k.store.put s (recovered_record cycle_id intent next now),
          )
        ]
      ]
