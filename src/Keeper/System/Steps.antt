-- ===== src/Keeper/System/Steps.antt =====
-- Every job, with the record that is put of it, keeps what the ledger says of the chain sound.
use penny_protocol.Base.Text.{codes, Text, text_eq, text_beq, text_beq_iff}
use penny_protocol.Keeper.Jobs
use penny_protocol.Keeper.Steps.{
  step_ok, step_skip, ParsedCursor, Chain, KeeperSpec, Host, Cycle, ProposeIntent, StepOutcome,
  Ending,
}
use penny_protocol.Keeper.Steps.Frame.{run_job-KeepsEpochs, IsSeparate}
use penny_protocol.Keeper.Steps.Recorded.{parse_or_skip, settled_detail}
use penny_protocol.Keeper.Steps.Release.{cumulative_totals, both, run_root_activate, run_publish}
use penny_protocol.Keeper.Steps.Activated.{skip_reason, activate-skips, activate-publishes}
use penny_protocol.Keeper.Publish.{carries-some, carries, publish_if_needed}
use penny_protocol.Keeper.Cycle.{run_job, attempt, seal}
use penny_protocol.Keeper.System.{ℤ, ℕ, List, ◌≡◌, KeepsRoots}
use penny_protocol.Keeper.System.Sound.{backed_lem, activation_ok, proposal_ok, backed}
use penny_protocol.Keeper.Pipeline.{EpochCursor}
use penny_protocol.Keeper.State.{StepRecord}
use penny_protocol.Base.{
  [], ◌==◌, get_or, Bool-cases, sym, ◌⊎◌, ◌≢◌, ap, none, false, ◌∙◌, Option, inr, inl, refl,
  Option-cases, arith, true, some, List, ◌≡◌, ℕ,
}
use penny_protocol.Base.Int.{pos, negsuc, ℤ}
use penny_protocol.Indexer.Epoch.{EpochResult}
use penny_protocol.Keeper.Jobs.{JobName}
use penny_protocol.Indexer.Ingest.{SnapshotResult}
use penny_protocol.Base.Result.{ok}
use penny_protocol.Keeper.Config.{is_blank}

-- A published root stays: the distributor only appends epochs.
pub record IsAppendOnly {C : Type 0} (adapter : Chain C) : Type 0 where
  pub keeps :
      (c : C) (root : Text) (assets : List Text) (totals : List ℤ) (hash : Text)
      → KeepsRoots adapter c (adapter.distributor.publish_epoch c root assets totals hash).1

-- What JSON promises of a cursor and an intent that it reads back: these fields are the same.
pub record IsJson (host : Host) : Type 0 where
  pub cursors :
      (cursor : EpochCursor) (p : ParsedCursor)
      → host.parse_cursor (host.stringify_cursor cursor) ≡ some p
      → (p.cursor.epoch_index ≡ cursor.epoch_index) × (p.cursor.root ≡ cursor.root)
  pub intents :
      (intent back : ProposeIntent)
      → host.parse_intent (host.stringify_intent intent) ≡ some back
      → (back.epoch_index ≡ intent.epoch_index)
        × (back.root ≡ intent.root)
        × (back.next_cursor ≡ intent.next_cursor)

carries-keeps :
    {C : Type 0} (adapter : Chain C) (c c' : C) (n : ℕ) (root : Text)
    → KeepsRoots adapter c c'
    → carries (adapter.distributor.epoch_root c n) root ≡ true
    → carries (adapter.distributor.epoch_root c' n) root ≡ true
carries-keeps adapter c c' n root keep h =
    let stands = carries-some adapter.distributor (adapter.distributor.epoch_root c n) root h in
    rw (keep n root stands) ((text_beq_iff root root).1 refl)

pub ℤ-cases : (i : ℤ) → ((n : ℕ) × (i ≡ pos n)) ⊎ ((n : ℕ) × (i ≡ negsuc n))
ℤ-cases (pos n) = inl (n, refl)
ℤ-cases (negsuc n) = inr (n, refl)

Ending-cases : (e : Ending) → (e ≡ Ending.succeeded) ⊎ ((e ≡ Ending.skipped) ⊎ (e ≡ Ending.failed))
Ending-cases Ending.succeeded = inl refl
Ending-cases Ending.skipped = inr (inl refl)
Ending-cases Ending.failed = inr (inr refl)

pub both-some :
    {A B : Type 0} (a : Option A) (b : Option B) (x : A) (y : B)
    → both a b ≡ some (x, y)
    → (a ≡ some x) × (b ≡ some y)
both-some none b x y h = absurd (cc h)
both-some (some a) none x y h = absurd (cc h)
both-some (some a) (some b) x y h = (
  ap (λ o. some (get_or {A = _ × _} o (a, b)).0) h,
  ap (λ o. some (get_or {A = _ × _} o (a, b)).1) h,
)

module _ {C S : Type 0} (k : KeeperSpec C S) where
  pub negative :
      (c : C) (cursor : EpochCursor) (n : ℕ)
      → cursor.epoch_index ≡ negsuc n
      → backed k c cursor ≢ true
  unfolding backed
  negative c cursor n at h = ground arith

  backed-keeps :
      (c c' : C) (cursor : EpochCursor)
      → KeepsRoots k.adapter c c'
      → backed k c cursor ≡ true
      → backed k c' cursor ≡ true
  unfolding backed
  backed-keeps c c' cursor keep h = elim (ℤ-cases cursor.epoch_index) [
    | inl (n, at) ↦
        backed_lem k c' cursor n cursor.root at refl
        ∙ carries-keeps k.adapter c c' n cursor.root keep
            (sym (backed_lem k c cursor n cursor.root at refl) ∙ h)
    | inr (n, at) ↦ absurd (negative c cursor n at h)
  ]

  pub activation_ok-keeps :
      (c c' : C) (r : StepRecord)
      → KeepsRoots k.adapter c c'
      → activation_ok k c r ≡ true
      → activation_ok k c' r ≡ true
  unfolding activation_ok
  activation_ok-keeps c c' r keep h =
      elim (Option-cases (parse_or_skip k.host.parse_cursor (settled_detail r))) [
        | inl nothing ↦ rw (activation_ok, nothing) refl
        | inr (p, said) ↦
            rw (activation_ok, said)
              (backed-keeps c c' p.cursor keep (rw (activation_ok, said) at h))
      ]

  publish_if_needed-KeepsRoots :
      (c : C) (root : Text) (assets : List Text) (n : ℕ) (totals : List ℤ) (hash : Text)
      → IsAppendOnly k.adapter
      → KeepsRoots k.adapter c
          (publish_if_needed k.adapter.distributor c root assets n totals hash).1
  unfolding publish_if_needed
  publish_if_needed-KeepsRoots c root assets n totals hash law m r h =
      ground (arith, h, law.keeps c root assets totals hash m r h)

  pub activate-nothing :
      (w : Cycle C S)
      → both w.ctx.epoch w.ctx.snapshot ≡ none
      → run_root_activate k w ≡ (ok (step_skip (codes "no epoch to activate") none), w)
  unfolding run_root_activate
  activate-nothing w h = ground arith

  run_publish-KeepsRoots :
      (w : Cycle C S) (epoch : EpochResult) (taken : SnapshotResult)
      → IsAppendOnly k.adapter
      → KeepsRoots k.adapter w.chain (run_publish k epoch taken w).1.chain
  unfolding run_publish
  run_publish-KeepsRoots w epoch taken law m r h =
      let assets = get_or w.ctx.assets [] in
      ground (
        arith,
        publish_if_needed-KeepsRoots w.chain epoch.root assets epoch.epoch_index
            (cumulative_totals epoch assets) epoch.manifest.content_hash law m r h,
      )

  run_root_activate-KeepsRoots :
      (w : Cycle C S)
      → IsAppendOnly k.adapter
      → KeepsRoots k.adapter w.chain (run_root_activate k w).1.chain
  run_root_activate-KeepsRoots w law m r h = elim (Option-cases (both w.ctx.epoch w.ctx.snapshot)) [
    | inl nothing ↦ rw (activate-nothing w nothing) h
    | inr ((epoch, taken), found) ↦
        let (built, shot) = both-some w.ctx.epoch w.ctx.snapshot epoch taken found in
        elim (Option-cases (skip_reason k w epoch)) [
          | inr (reason, done) ↦ rw (activate-skips k w epoch taken reason built shot done) h
          | inl fresh ↦
              rw (activate-publishes k w epoch taken built shot fresh)
                (run_publish-KeepsRoots w epoch taken law m r h)
        ]
  ]

  pub attempt-KeepsRoots :
      (job : JobName) (w : Cycle C S)
      → IsSeparate k.adapter
      → IsAppendOnly k.adapter
      → w.ctx.relay_armed ≡ false
      → KeepsRoots k.adapter w.chain (attempt k job w).1.chain
  unfolding attempt run_job text_beq
  attempt-KeepsRoots job w separate law unarmed m r h =
      elim (Bool-cases (job == Jobs.root_activate)) [
        | inr quiet ↦ (run_job-KeepsEpochs k job w separate unarmed quiet).epoch_root m ∙ h
        | inl activates ↦
            let same : job ≡ Jobs.root_activate = (text_beq_iff _ _).0 activates in
            rw same (run_root_activate-KeepsRoots w law m r h)
      ]

  -- An outcome that did not succeed says nothing.
  pub unsettled :
      (c : C) (cycle_id : Text) (job : JobName) (o : StepOutcome) (now : ℤ)
      → (o.status ≡ Ending.succeeded) ⊎ (settled_detail (seal cycle_id job o now) ≡ none)
  unfolding seal settled_detail
  unsettled c cycle_id job o now = elim (Ending-cases o.status) [
    | inl e ↦ inl e
    | inr (inl e) ↦ inr (ground arith)
    | inr (inr e) ↦ inr (ground arith)
  ]

  pub activation_ok-silent :
      (c : C) (r : StepRecord) → settled_detail r ≡ none → activation_ok k c r ≡ true
  unfolding activation_ok
  activation_ok-silent c r h = rw (activation_ok, h) refl

  pub proposal_ok-silent : (r : StepRecord) → settled_detail r ≡ none → proposal_ok k.host r ≡ true
  unfolding proposal_ok
  proposal_ok-silent r h = rw (proposal_ok, h) refl

  -- The record of an activation, with a cursor whose root stands, is sound.
  pub activated-ok :
      (c : C) (cycle_id : Text) (hash : Text) (at : Option ℕ) (now : ℤ) (next : EpochCursor) (n : ℕ)
      → IsJson k.host
      → next.epoch_index ≡ pos n
      → carries (k.adapter.distributor.epoch_root c n) next.root ≡ true
      → activation_ok k c (
          seal cycle_id Jobs.root_activate
            (step_ok hash at (some (k.host.stringify_cursor next)))
            now)
        ≡ true
  unfolding activation_ok seal settled_detail
  activated-ok c cycle_id hash at now next n json index stands =
      let text = k.host.stringify_cursor next in
      elim (Bool-cases (is_blank text)) [
        | inl blank ↦ rw (activation_ok, blank) refl
        | inr shown ↦ elim (Option-cases (k.host.parse_cursor text)) [
          | inl garbled ↦ rw (activation_ok, shown, garbled) refl
          | inr (p, parsed) ↦
              let (same_index, same_root) = json.cursors next p parsed in
              rw (activation_ok, shown, parsed)
                (backed_lem k c p.cursor n next.root (same_index ∙ index) same_root ∙ stands)
        ]
      ]
