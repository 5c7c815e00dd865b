-- ===== src/Keeper/System/Sound.antt =====
-- What a ledger may say of the chain, and that a reconciliation keeps it.
use penny_protocol.Base.Text.{Text, text_eq, text_beq_iff}
use penny_protocol.Keeper.Jobs
use penny_protocol.Base.{◌∙◌, ℕ, none, refl}
use penny_protocol.Keeper.StepStore.{IsStepStore}
use penny_protocol.Keeper.Steps.{KeeperSpec, Host, ProposeIntent}
use penny_protocol.Keeper.Steps.Recorded.{
  parse_or_skip, settled_detail, parse_int_record_cursor, first_cursor, first_intent, adopted,
  read_cursor, latest_intent, reconcile_cursor, recovered_record,
}
use penny_protocol.Keeper.Steps.Reconciled.{adopted-some, activate_is_other}
use penny_protocol.Keeper.Publish.{carries}
use penny_protocol.Base.{
  subst, get_or, [], ap, inr, inl, ◌⊎◌, Option-cases, false, ◌∷◌, ◌&&◌, arith, some, true, ◌≡◌,
  ◌==◌, All, Bool, List,
}
use penny_protocol.Keeper.Pipeline.{empty_cursor, EpochCursor}
use penny_protocol.Keeper.State.{StepRecord}
use penny_protocol.Base.Int.{beq_ℤ_iff, int_eq, negsuc, pos, ℤ}

-- The cursor is of the intent's epoch.
abbrev pub aims : EpochCursor → ProposeIntent → Bool
aims cursor intent = (cursor.epoch_index == pos intent.epoch_index) && (cursor.root == intent.root)

-- The intent's cursor, if it parses whole, is of the intent's epoch.
unfoldable pub honest : Host → ProposeIntent → Bool
honest host intent = elim (parse_int_record_cursor host intent.next_cursor) [
  | none ↦ true
  | some next ↦ aims next intent
]

-- A record of a proposal that says something says an honest intent.
unfoldable pub proposal_ok : Host → StepRecord → Bool
unfolding honest
proposal_ok host r = elim (parse_or_skip host.parse_intent (settled_detail r)) [
  | none ↦ true
  | some intent ↦ honest host intent
]

module _ {C S : Type 0} (k : KeeperSpec C S) where
  -- The chain carries the cursor's root under its index.
  unfoldable pub backed : C → EpochCursor → Bool
  backed c cursor = elim cursor.epoch_index [
    | pos n ↦ carries (k.adapter.distributor.epoch_root c n) cursor.root
    | negsuc n ↦ false
  ]

  -- A record of an activation that says something says a backed cursor.
  unfoldable pub activation_ok : C → StepRecord → Bool
  unfolding backed
  activation_ok c r = elim (parse_or_skip k.host.parse_cursor (settled_detail r)) [
    | none ↦ true
    | some p ↦ backed c p.cursor
  ]

  pub record IsSound (c : C) (s : S) : Type 0 where
    pub activations : All (λ r. activation_ok c r ≡ true) (k.store.history s Jobs.root_activate)
    pub proposals : All (λ r. proposal_ok k.host r ≡ true) (k.store.history s Jobs.root_propose)

  first_cursor-backed :
      (c : C) (history : List StepRecord)
      → All (λ r. activation_ok c r ≡ true) history
      → (first_cursor k.host history ≡ empty_cursor)
        ⊎ (backed c (first_cursor k.host history) ≡ true)
  unfolding first_cursor activation_ok
  first_cursor-backed c [] h = inl refl
  first_cursor-backed c (r ∷ rest) h =
      elim (Option-cases (parse_or_skip k.host.parse_cursor (settled_detail r))) [
        | inl nothing ↦ rw (first_cursor, nothing) (first_cursor-backed c rest h.1)
        | inr (p, said) ↦ rw (first_cursor, said) (inr (rw (activation_ok, said) at h.0))
      ]

  first_intent-honest :
      (history : List StepRecord) (intent : ProposeIntent) (cycle_id : Text)
      → All (λ r. proposal_ok k.host r ≡ true) history
      → first_intent k.host history ≡ some (intent, cycle_id)
      → honest k.host intent ≡ true
  unfolding first_intent proposal_ok
  first_intent-honest [] intent cycle_id h e = absurd (cc e)
  first_intent-honest (r ∷ rest) intent cycle_id h e =
      elim (Option-cases (parse_or_skip k.host.parse_intent (settled_detail r))) [
        | inl nothing ↦
            first_intent-honest rest intent cycle_id h.1 (rw (first_intent, nothing) at e)
        | inr (said, found) ↦
            let same : said ≡ intent =
              ap (λ o. (get_or {A = ProposeIntent × Text} o (intent, cycle_id)).0)
                (rw (first_intent, found) at e) in
            subst (λ i. honest k.host i ≡ true) same (rw (proposal_ok, found) at h.0)
      ]

  pub backed_lem :
      (c : C) (cursor : EpochCursor) (n : ℕ) (root : Text)
      → cursor.epoch_index ≡ pos n
      → cursor.root ≡ root
      → backed c cursor ≡ carries (k.adapter.distributor.epoch_root c n) root
  unfolding backed
  backed_lem c cursor n root at same = ground arith

  -- An adopted cursor of an honest intent is backed.
  adopted-backed :
      (c : C) (cursor : EpochCursor) (intent : ProposeIntent) (next : EpochCursor)
      → honest k.host intent ≡ true
      → adopted k c cursor intent ≡ some next
      → backed c next ≡ true
  unfolding honest
  adopted-backed c cursor intent next h e =
      let (parsed, ahead, stands) = adopted-some k c cursor intent next e in
      let aimed : aims next intent ≡ true = rw (honest, parsed) at h in
      let at : (next.epoch_index == pos intent.epoch_index) ≡ true = ground arith in
      let same : (next.root == intent.root) ≡ true = ground arith in
      backed_lem c next intent.epoch_index intent.root
        ((beq_ℤ_iff next.epoch_index (pos intent.epoch_index)).0 at)
        ((text_beq_iff next.root intent.root).0 same)
      ∙ stands

  recovered-activation_ok :
      (c : C) (cycle_id : Text) (intent : ProposeIntent) (next : EpochCursor) (now : ℤ)
      → parse_int_record_cursor k.host intent.next_cursor ≡ some next
      → activation_ok c (recovered_record cycle_id intent next now) ≡ backed c next
  unfolding activation_ok recovered_record settled_detail parse_int_record_cursor
  recovered-activation_ok c cycle_id intent next now h = ground arith

  -- A cursor that a cycle may start from.
  abbrev pub IsStart : C → EpochCursor → Type 0
  IsStart c cursor = (cursor ≡ empty_cursor) ⊎ (backed c cursor ≡ true)

  -- A reconciliation keeps what the ledger says sound, and finds a cursor to start from.
  pub reconcile_cursor-IsSound :
      (c : C) (s : S) (now : ℤ)
      → IsStepStore k.store
      → IsSound c s
      → let (found, s') = reconcile_cursor k c s now in IsSound c s' × IsStart c found.cursor
  unfolding reconcile_cursor recovered_record
  reconcile_cursor-IsSound c s now law sound = elim (Option-cases (latest_intent k s)) [
    | inl gone ↦ rw (reconcile_cursor, gone) (sound, recorded)
    | inr ((intent, cycle_id), last) ↦ elim (Option-cases (adopted k c (read_cursor k s) intent)) [
      | inl gone ↦ rw (reconcile_cursor, last, gone) (sound, recorded)
      | inr (next, adopts) ↦
          let stands =
            adopted-backed c (read_cursor k s) intent next
              (first_intent-honest (k.store.history s Jobs.root_propose) intent cycle_id
                sound.proposals (unfold latest_intent in last))
              adopts in
          let r = recovered_record cycle_id intent next now in
          rw (reconcile_cursor, last, adopts)
            (
              record {
                activations =
                    law.history_all (activation_ok c) s r Jobs.root_activate sound.activations (λ e.
                      recovered-activation_ok c cycle_id intent next now
                        (adopted-some k c (read_cursor k s) intent next adopts).0
                      ∙ stands);
                proposals =
                    law.history_all (proposal_ok k.host) s r Jobs.root_propose sound.proposals
                      (λ e. absurd (cc (activate_is_other, e)));
              },
              inr stands,
            )
    ]
  ]
    where
      recorded : IsStart c (read_cursor k s)
      recorded =
          unfold read_cursor in
          first_cursor-backed c (k.store.history s Jobs.root_activate) sound.activations
