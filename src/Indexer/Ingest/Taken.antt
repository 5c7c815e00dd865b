-- ===== src/Indexer/Ingest/Taken.antt =====
-- What `snapshot` of services/indexer/src/indexer.ts takes, and when it does.
use penny_protocol.Base.{
  true, leb, ◌≢◌, ◌↔◌, false, sym, subst, ℕ, ◌-◌, ◌≤◌, ◌≡◌, refl, ap, ◌∙◌, inl, inr, Option, none,
  some, arith, ltb, Bool-cases,
}
use penny_protocol.Base.Int.{◌-ℤ◌, pos}
use penny_protocol.Base.Result.{Result, ok, err}
use penny_protocol.Indexer.Events.{BlockHeader, Error}
use penny_protocol.Indexer.Store.{MemoryStore, block_at, latest_block, transfers}
use penny_protocol.Indexer.Snapshot.{zero_address}
use penny_protocol.Indexer.Ingest.{Indexer, SnapshotResult, snapshot}
use penny_protocol.Base.Map.{IsMap}
use penny_protocol.Indexer.Snapshot.Balances.{
  sent, up_to, received, balance_of, balances_at_lem, balances_at-IsMap,
}
use penny_protocol.Base.Text.{Text, text_eq}
use penny_protocol.Indexer.Snapshot.Eligible.{IsElection, eligible-IsElection}
use penny_protocol.Indexer.Ingest.Finality.{snapshot-outcome, taken_at, outcome, asked_height}

-- What a snapshot holds: the stored block of the height, which has the confirmations that are asked
-- for; for each address but zero what it received less what it sent up to that height; and the
-- election by these balances.
pub record IsTaken (indexer : Indexer) (s : MemoryStore) (tip : BlockHeader) (height : ℕ)
    (taken : SnapshotResult) : Type 0 where
  pub block : block_at s height ≡ some taken.block
  pub final : height ≤ tip.number - indexer.confirmation_depth
  pub depth : taken.confirmed_depth ≡ pos (tip.number - height)
  pub balances :
      (w : Text)
      → w ≢ zero_address
      → balance_of taken.balances w
        ≡ received w (up_to height (transfers s)) -ℤ sent w (up_to height (transfers s))
  pub is_map : IsMap taken.balances
  pub elected : IsElection indexer.threshold indexer.excluded taken.balances taken.eligibility
  pub supply : taken.total_eligible_supply ≡ taken.eligibility.total_eligible_supply

-- The height of a snapshot can be taken: its block is stored, and final.
abbrev pub CanTake : Indexer → MemoryStore → BlockHeader → ℕ → Type 0
CanTake indexer s tip height =
    (block : BlockHeader) × (block_at s height ≡ some block)
    × (height ≤ tip.number - indexer.confirmation_depth)

-- When a snapshot is returned, and what it holds.
pub record IsFinal (indexer : Indexer) (s : MemoryStore) (at_block : Option ℕ) (tip : BlockHeader)
    : Type 0 where
  pub returns_iff :
      ((taken : SnapshotResult) × (snapshot indexer s at_block ≡ ok taken))
      ↔ CanTake indexer s tip (asked_height indexer tip at_block)
  pub holds :
      (taken : SnapshotResult)
      → snapshot indexer s at_block ≡ ok taken
      → IsTaken indexer s tip (asked_height indexer tip at_block) taken

outcome_returned :
    (indexer : Indexer) (s : MemoryStore) (tip : BlockHeader) (height : ℕ) (o : Option BlockHeader)
    (taken : SnapshotResult)
    → outcome indexer s tip height o ≡ ok taken
    → (b : BlockHeader) × (o ≡ some b)
      × (height ≤ tip.number - indexer.confirmation_depth)
      × (taken_at indexer s tip height b ≡ taken)
outcome_returned indexer s tip height none taken e = absurd (cc e)
outcome_returned indexer s tip height (some b) taken e =
    elim (Bool-cases (ltb (tip.number - indexer.confirmation_depth) height)) [
      | inl far ↦ absurd (cc (rw far at e))
      | inr near ↦
          let found : ok (taken_at indexer s tip height b) ≡ ok taken = rw near at e in
          (b, refl, ground arith, ap (get_ok taken) found)
    ]
  where
    get_ok : SnapshotResult → Result Error SnapshotResult → SnapshotResult
    get_ok other (ok t) = t
    get_ok other (err e) = other

taken_at-IsTaken :
    (indexer : Indexer) (s : MemoryStore) (tip : BlockHeader) (height : ℕ) (b : BlockHeader)
    → block_at s height ≡ some b
    → height ≤ tip.number - indexer.confirmation_depth
    → IsTaken indexer s tip height (taken_at indexer s tip height b)
taken_at-IsTaken indexer s tip height b stored final =
    let is_map = balances_at-IsMap (transfers s) height in
    let below : leb height tip.number ≡ true = ground (arith, final) in
    record {
      block = stored;
      final = final;
      depth = rw below refl;
      balances = λ w ne. balances_at_lem (transfers s) height w ne;
      is_map = is_map;
      elected = eligible-IsElection indexer.threshold indexer.excluded _ is_map;
      supply = refl;
    }

pub snapshot-IsFinal :
    (indexer : Indexer) (s : MemoryStore) (at_block : Option ℕ) (tip : BlockHeader)
    → latest_block s ≡ some tip
    → IsFinal indexer s at_block tip
snapshot-IsFinal indexer s at_block tip latest =
    let height = asked_height indexer tip at_block in
    let same = (snapshot-outcome indexer s at_block).1 tip latest in
    record {
      returns_iff = (
        λ (taken, made).
            let (b, stored, final, e) =
              outcome_returned indexer s tip height (block_at s height) taken (sym same ∙ made) in
            (b, stored, final),
        λ (b, stored, final).
            let near : ltb (tip.number - indexer.confirmation_depth) height ≡ false =
              ground arith in
            (taken_at indexer s tip height b, same ∙ rw (stored, near) refl),
      );
      holds = λ taken made.
          let (b, stored, final, e) =
            outcome_returned indexer s tip height (block_at s height) taken (sym same ∙ made) in
          subst (IsTaken indexer s tip height) e
            (taken_at-IsTaken indexer s tip height b stored final);
    }
