-- ===== src/Keeper/Steps/Reconciled.antt =====
-- What `reconcileCursor` of services/keeper/src/steps.ts makes of the ledger and the chain.
use penny_protocol.Keeper.Jobs
use penny_protocol.Base.Text.{Text, text_eq, text_beq}
use penny_protocol.Keeper.StepStore.{IsStepStore}
use penny_protocol.Keeper.Steps.{EpochCursor, Host, KeeperSpec, ProposeIntent}
use penny_protocol.Keeper.Steps.Recorded.{
  first_intent, parse_int_record_cursor, adopted, read_cursor, latest_intent, first_cursor,
  settled_detail, recovered_record, reconcile_cursor, Reconciled,
}
use penny_protocol.Keeper.State.{key_of, StepStatus, StepRecord}
use penny_protocol.Base.{
  inr, inl, Option-cases, ◌∙◌, All, ap, true, arith, refl, none, ◌∷◌, some, false, List, ◌≡◌, ◌==◌,
}
use penny_protocol.Keeper.Pipeline.{EpochCursor}
use penny_protocol.Base.Int.{negsuc, pos, ℤ, ltb_ℤ}
use penny_protocol.Keeper.Publish.{carries}

pub activate_is_other : (Jobs.root_activate == Jobs.root_propose) ≡ false
unfolding text_beq
activate_is_other = refl

ltb_ℤ_irrefl : (a : ℤ) → ltb_ℤ a a ≡ false
ltb_ℤ_irrefl (pos n) = ground arith
ltb_ℤ_irrefl (negsuc n) = ground arith

-- The first record of a history decides the cursor, if it succeeded and parses.
pub first_cursor-head :
    (host : Host) (r : StepRecord) (rest : List StepRecord) (raw : Text) (next : EpochCursor)
    → r.status ≡ StepStatus.succeeded
    → r.detail ≡ some raw
    → parse_int_record_cursor host raw ≡ some next
    → first_cursor host (r ∷ rest) ≡ next
unfolding first_cursor settled_detail parse_int_record_cursor
first_cursor-head host r rest raw next status detail h = ground arith

module _ {C S : Type 0} (k : KeeperSpec C S) where
  pub adopted-some :
      (c : C) (cursor : EpochCursor) (intent : ProposeIntent) (next : EpochCursor)
      → adopted k c cursor intent ≡ some next
      → (parse_int_record_cursor k.host intent.next_cursor ≡ some next)
        × (ltb_ℤ cursor.epoch_index next.epoch_index ≡ true)
        × (carries (k.adapter.distributor.epoch_root c intent.epoch_index) intent.root ≡ true)
  unfolding adopted
  adopted-some c cursor intent next h = ground arith

  -- A cursor is not ahead of itself.
  adopted_self :
      (c : C) (intent : ProposeIntent) (next : EpochCursor)
      → parse_int_record_cursor k.host intent.next_cursor ≡ some next
      → adopted k c next intent ≡ none
  unfolding adopted
  adopted_self c intent next h = ground (arith, h, ltb_ℤ_irrefl next.epoch_index)

  -- Nothing to adopt: the cursor is the recorded one, and the ledger stays.
  abbrev kept : S → Reconciled × S
  kept s = (record { cursor = read_cursor k s; recovered = false }, s)

  pub reconcile-kept :
      (c : C) (s : S) (now : ℤ) (intent : ProposeIntent) (cycle_id : Text)
      → latest_intent k s ≡ some (intent, cycle_id)
      → adopted k c (read_cursor k s) intent ≡ none
      → reconcile_cursor k c s now ≡ kept s
  unfolding reconcile_cursor
  reconcile-kept c s now intent cycle_id last gone = rw (reconcile_cursor, last, gone) refl

  reconcile-no_intent :
      (c : C) (s : S) (now : ℤ) → latest_intent k s ≡ none → reconcile_cursor k c s now ≡ kept s
  unfolding reconcile_cursor
  reconcile-no_intent c s now gone = rw (reconcile_cursor, gone) refl

  pub reconcile-recovered :
      (c : C) (s : S) (now : ℤ) (intent : ProposeIntent) (cycle_id : Text) (next : EpochCursor)
      → latest_intent k s ≡ some (intent, cycle_id)
      → adopted k c (read_cursor k s) intent ≡ some next
      → reconcile_cursor k c s now ≡ (
        record { cursor = next; recovered = true },
        k.store.put s (recovered_record cycle_id intent next now),
      )
  unfolding reconcile_cursor
  reconcile-recovered c s now intent cycle_id next last adopts =
      rw (reconcile_cursor, last, adopts) refl

  -- The ledger and the cursor after a reconciliation, at any later time on the same chain.
  pub record IsReconciled (c : C) (s : S) (found : Reconciled) (s' : S) : Type 0 where
    pub reads : read_cursor k s' ≡ found.cursor
    pub once :
        (later : ℤ)
        → reconcile_cursor k c s' later ≡ (record { cursor = found.cursor; recovered = false }, s')
    pub untouched : found.recovered ≡ false → s' ≡ s
    pub on_chain :
        found.recovered ≡ true
        → (intent : ProposeIntent) × (cycle_id : Text) × (latest_intent k s
            ≡ some (intent, cycle_id))
          × (carries (k.adapter.distributor.epoch_root c intent.epoch_index) intent.root ≡ true)
          × (ltb_ℤ (read_cursor k s).epoch_index found.cursor.epoch_index ≡ true)

  -- The record that a recovery writes is a new one, and later than what the ledger has.
  abbrev pub IsLater : S → ℤ → ProposeIntent → Text → EpochCursor → Type 0
  IsLater s now intent cycle_id next =
      (k.store.get s (key_of (recovered_record cycle_id intent next now)) ≡ none)
      × All (λ q. ltb_ℤ q.updated_at now ≡ true) (k.store.history s Jobs.root_activate)

  module _ (law : IsStepStore k.store) (c : C) (s : S) (now : ℤ) where
    recovered-history :
        (intent : ProposeIntent) (cycle_id : Text) (next : EpochCursor)
        → IsLater s now intent cycle_id next
        → let r = recovered_record cycle_id intent next now in
          (k.store.history (k.store.put s r) Jobs.root_activate
            ≡ r ∷ k.store.history s Jobs.root_activate)
          × (k.store.history (k.store.put s r) Jobs.root_propose
              ≡ k.store.history s Jobs.root_propose)
    unfolding recovered_record
    recovered-history intent cycle_id next (fresh, later) =
        let r = recovered_record cycle_id intent next now in
        (law.history_latest s r fresh later, law.history_other s r _ fresh activate_is_other)

    recovered-read_cursor :
        (intent : ProposeIntent) (cycle_id : Text) (next : EpochCursor)
        → IsLater s now intent cycle_id next
        → parse_int_record_cursor k.host intent.next_cursor ≡ some next
        → read_cursor k (k.store.put s (recovered_record cycle_id intent next now)) ≡ next
    unfolding read_cursor recovered_record
    recovered-read_cursor intent cycle_id next late parsed =
        let r = recovered_record cycle_id intent next now in
        rw (recovered-history intent cycle_id next late).0 (
          first_cursor-head k.host r (k.store.history s Jobs.root_activate) intent.next_cursor next
            refl refl parsed)

    recovered-latest_intent :
        (intent : ProposeIntent) (cycle_id : Text) (next : EpochCursor)
        → IsLater s now intent cycle_id next
        → latest_intent k (k.store.put s (recovered_record cycle_id intent next now))
          ≡ latest_intent k s
    unfolding latest_intent
    recovered-latest_intent intent cycle_id next late =
        ap (first_intent k.host) (recovered-history intent cycle_id next late).1

    recovered-IsReconciled :
        (intent : ProposeIntent) (cycle_id : Text) (next : EpochCursor)
        → IsLater s now intent cycle_id next
        → latest_intent k s ≡ some (intent, cycle_id)
        → adopted k c (read_cursor k s) intent ≡ some next
        → IsReconciled c s
            (record { cursor = next; recovered = true })
            (k.store.put s (recovered_record cycle_id intent next now))
    recovered-IsReconciled intent cycle_id next late last adopts =
        let (parsed, ahead, stands) = adopted-some c (read_cursor k s) intent next adopts in
        let s' = k.store.put s (recovered_record cycle_id intent next now) in
        let reads : read_cursor k s' ≡ next =
          recovered-read_cursor intent cycle_id next late parsed in
        record {
          reads = reads;
          once = λ later.
              reconcile-kept c s' later intent cycle_id
                (recovered-latest_intent intent cycle_id next late ∙ last)
                (rw reads (adopted_self c intent next parsed))
              ∙ ap (λ x. (record { cursor = x; recovered = false }, s')) reads;
          untouched = λ e. absurd (cc e);
          on_chain = λ e. (intent, cycle_id, last, stands, ahead);
        }

    kept-IsReconciled :
        ((later : ℤ) → reconcile_cursor k c s later ≡ kept s) → IsReconciled c s (kept s).0 s
    kept-IsReconciled again = record {
      reads = refl;
      once = again;
      untouched = λ e. refl;
      on_chain = λ e. absurd (cc e);
    }

  -- For every keeper whose store keeps its laws, every chain, ledger and time, where a record of a
  -- recovery would be new and later than those of root-activate: after the reconciliation the ledger
  -- reads as the cursor that was found; a further one, at any time, finds the same cursor, recovers
  -- nothing and writes nothing; where nothing was recovered the ledger is as it was; and where
  -- something was, the chain carries the latest intent's root and the cursor moved ahead.
  pub reconcile_cursor-IsReconciled :
      (c : C) (s : S) (now : ℤ)
      → IsStepStore k.store
      → ((intent : ProposeIntent) (cycle_id : Text) (next : EpochCursor)
          → latest_intent k s ≡ some (intent, cycle_id)
          → IsLater s now intent cycle_id next)
      → let (found, s') = reconcile_cursor k c s now in IsReconciled c s found s'
  reconcile_cursor-IsReconciled c s now law late = elim (Option-cases (latest_intent k s)) [
    | inl gone ↦
        rw (reconcile-no_intent c s now gone)
          (kept-IsReconciled law c s now (λ later. reconcile-no_intent c s later gone))
    | inr ((intent, cycle_id), last) ↦ elim (Option-cases (adopted k c (read_cursor k s) intent)) [
      | inl gone ↦ rw (reconcile-kept c s now intent cycle_id last gone) (
          kept-IsReconciled law c s now
            (λ later. reconcile-kept c s later intent cycle_id last gone))
      | inr (next, adopts) ↦ rw (reconcile-recovered c s now intent cycle_id next last adopts) (
          recovered-IsReconciled law c s now intent cycle_id next (late intent cycle_id next last)
            last adopts)
    ]
  ]
