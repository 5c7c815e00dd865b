-- ===== src/Indexer/Ingest/Finality.antt =====
-- Snapshots are taken at confirmed blocks only.
use penny_protocol.Base.{
  sym, Option-cases, subst, ℕ, ◌-◌, ◌≤◌, ◌≡◌, refl, ap, ◌∙◌, inl, inr, Option, none, some, arith,
  ltb, if◌then◌else◌, Bool-cases, get_or,
}
use penny_protocol.Base.Int.{sub_ℕ}
use penny_protocol.Base.Result.{Result, ok, err, ◌>>=◌, ◌>>◌, throw_if}
use penny_protocol.Indexer.Events.{BlockHeader, Error}
use penny_protocol.Indexer.Store.{MemoryStore, block_at, latest_block, transfers}
use penny_protocol.Indexer.Snapshot.{balances_at, eligible}
use penny_protocol.Indexer.Ingest.{
  Indexer, SnapshotResult, confirmed_cursor, number_of, or_throw, snapshot,
}
use penny_protocol.Base.Map.{IsMap}
use penny_protocol.Indexer.Snapshot.Balances.{balances_at-IsMap}
use penny_protocol.Base.Text.{text_eq}

-- The height that a snapshot is asked for: the confirmed one unless the caller names another.
abbrev pub asked_height : Indexer → BlockHeader → Option ℕ → ℕ
asked_height indexer tip at_block = get_or at_block (tip.number - indexer.confirmation_depth)

-- What `snapshot` returns for a stored block, from the logs up to its height.
abbrev pub taken_at : Indexer → MemoryStore → BlockHeader → ℕ → BlockHeader → SnapshotResult
taken_at indexer s tip height block =
    let balances = balances_at (transfers s) height in
    let eligibility = eligible balances indexer.threshold indexer.excluded in
    record {
      block = block;
      balances = balances;
      eligibility = eligibility;
      total_eligible_supply = eligibility.total_eligible_supply;
      confirmed_depth = sub_ℕ tip.number height;
    }

-- `snapshot` by the block that is stored at the height asked for.
abbrev pub outcome :
    Indexer → MemoryStore → BlockHeader → ℕ → Option BlockHeader → Result Error SnapshotResult
outcome indexer s tip height none = err Error.block_not_ingested
outcome indexer s tip height (some block) =
    if ltb (tip.number - indexer.confirmation_depth) height
    then err Error.block_not_final
    else ok (taken_at indexer s tip height block)

confirmed_lem :
    (indexer : Indexer) (s : MemoryStore) {tip : BlockHeader}
    → latest_block s ≡ some tip
    → confirmed_cursor indexer s ≡ some (tip.number - indexer.confirmation_depth)
unfolding confirmed_cursor
confirmed_lem indexer s latest = rw latest (ap some (omega arith))

taken_lem :
    (indexer : Indexer) (s : MemoryStore) {tip : BlockHeader} (h : ℕ) (o : Option BlockHeader)
    → latest_block s ≡ some tip
    → (or_throw o Error.block_not_ingested >>= λ block.
        throw_if (ltb (tip.number - indexer.confirmation_depth) h) Error.block_not_final
        >> ok (record {
          block = block;
          balances = balances_at (transfers s) h;
          eligibility = eligible (balances_at (transfers s) h) indexer.threshold indexer.excluded;
          total_eligible_supply =
              (eligible
                (balances_at (transfers s) h)
                indexer.threshold
                indexer.excluded).total_eligible_supply;
          confirmed_depth = sub_ℕ (get_or (number_of (latest_block s)) 0) h;
        }))
      ≡ outcome indexer s tip h o
unfolding or_throw
taken_lem indexer s h none latest = refl
taken_lem indexer s {tip} h (some b) latest =
    elim (Bool-cases (ltb (tip.number - indexer.confirmation_depth) h)) [
      | inl far ↦ rw far refl
      | inr near ↦ rw (near, latest) refl
    ]

-- With an empty store `snapshot` throws that nothing is confirmed. Otherwise it throws that the
-- block is not ingested, if the store has none at the height asked for (by default the tip's height
-- less the depth, at least 0), then that it is not final, if it is above that height, and else
-- returns the balances and the election of the logs up to the height, with the block's depth.
pub snapshot-outcome :
    (indexer : Indexer) (s : MemoryStore) (at_block : Option ℕ)
    → (latest_block s ≡ none → snapshot indexer s at_block ≡ err Error.no_confirmed_blocks)
      × ((tip : BlockHeader)
          → latest_block s ≡ some tip
          → snapshot indexer s at_block
            ≡ outcome indexer s tip
                (asked_height indexer tip at_block)
                (block_at s (asked_height indexer tip at_block)))
unfolding snapshot
snapshot-outcome indexer s at_block = (
  λ empty.
      let e : confirmed_cursor indexer s ≡ none = unfold confirmed_cursor in rw empty refl in
      rw (e, or_throw) refl,
  λ tip latest. rw (confirmed_lem indexer s latest) (
      taken_lem indexer s (asked_height indexer tip at_block)
        (block_at s (asked_height indexer tip at_block)) latest),
)

-- Once any block is stored the cursor is defined, at height 0 while the chain is no longer than the
-- confirmation depth.
confirmed_cursor_early :
    (indexer : Indexer) (s : MemoryStore) (tip : BlockHeader)
    → latest_block s ≡ some tip
    → tip.number ≤ indexer.confirmation_depth
    → confirmed_cursor indexer s ≡ some 0
confirmed_cursor_early indexer s tip latest early =
    confirmed_lem indexer s latest ∙ ap some (omega arith)

-- The balances of a snapshot have one entry for each address.
pub snapshot-IsMap :
    (indexer : Indexer) (s : MemoryStore) (at_block : Option ℕ) (taken : SnapshotResult)
    → snapshot indexer s at_block ≡ ok taken
    → IsMap taken.balances
snapshot-IsMap indexer s at_block taken h =
    let (empty, full) = snapshot-outcome indexer s at_block in
    elim (Option-cases (latest_block s)) [
      | inl gone ↦ absurd (cc (empty gone, h))
      | inr (tip, latest) ↦
          let height = asked_height indexer tip at_block in
          IsMap_of_outcome tip height (block_at s height) (sym (full tip latest) ∙ h)
    ]
  where
    get_ok : Result Error SnapshotResult → SnapshotResult
    get_ok (ok t) = t
    get_ok (err e) = taken

    IsMap_of_outcome :
        (tip : BlockHeader) (height : ℕ) (o : Option BlockHeader)
        → outcome indexer s tip height o ≡ ok taken
        → IsMap taken.balances
    IsMap_of_outcome tip height none e = absurd (cc e)
    IsMap_of_outcome tip height (some b) e =
        elim (Bool-cases (ltb (tip.number - indexer.confirmation_depth) height)) [
          | inl far ↦ absurd (cc (rw far at e))
          | inr near ↦
              let found : ok (taken_at indexer s tip height b) ≡ ok taken = rw near at e in
              subst IsMap (ap (λ t. (get_ok t).balances) found)
                (balances_at-IsMap (transfers s) height)
        ]
