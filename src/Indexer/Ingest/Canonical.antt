-- ===== src/Indexer/Ingest/Canonical.antt =====
-- After `ingestRange` the store holds the source's blocks, and nothing of an abandoned branch.
use penny_protocol.Base.Map
use penny_protocol.Base.{
  subst, ◌↔◌, not, length, ℕ, ◌≤◌, nat_eq, ◌≡◌, refl, sym, ap, ◌∙◌, true, false, none, some, List,
  arith, ltb, All, All-map,
}
use penny_protocol.Base.Text.{Text, text_eq}
use penny_protocol.Base.Map.{Map, IsMap}
use penny_protocol.Base.Result.{ok_of_throw, Result, ok, err}
use penny_protocol.Indexer.Events.{BlockHeader, TransferLog, Error}
use penny_protocol.Indexer.Blocks.{is_contiguous}
use penny_protocol.Indexer.Blocks.Laws.{is_contiguous_iff, IsLinked, is_contiguous-IsAscending}
use penny_protocol.Indexer.Store.{MemoryStore, block_at}
use penny_protocol.Indexer.Ingest.{Indexer, IngestResult, roll_back, push, ingest_range}
use penny_protocol.Indexer.Store.Rollback.{IsKeyed}
use penny_protocol.Indexer.Ingest.Unwound.{
  log_after_fork, after_fork, roll_back_lem, first_conflict,
}
use penny_protocol.Indexer.Ingest.Pushed.{logs_of, latest_log, latest_at, latest_at_each, push_lem}

abbrev ok_or :
    Result Error (IngestResult × MemoryStore)
    → IngestResult × MemoryStore
    → IngestResult × MemoryStore
ok_or (ok x) other = x
ok_or (err e) other = other

accepted :
    (indexer : Indexer) (s : MemoryStore) (from to : ℕ) (r : IngestResult) (s' : MemoryStore)
    → ingest_range indexer s from to ≡ ok (r, s')
    → (from ≤ to) × IsLinked (indexer.source.get_blocks from to)
unfolding ingest_range
accepted indexer s from to r s' made =
    let (upright, rest) = ok_of_throw (ltb to from) Error.inverted_range _ (r, s') made in
    let (linked, _) =
      ok_of_throw (not (is_contiguous (indexer.source.get_blocks from to)))
        Error.non_contiguous_chain _ (r, s') rest in
    (
      ground (arith, upright),
      (is_contiguous_iff (indexer.source.get_blocks from to)).0 (ground (arith, linked)),
    )

-- What `ingestRange` leaves in the store for the batch that it fetched.
pub record IsIngested (s : MemoryStore) (bs : List BlockHeader) (logs : List TransferLog)
    (r : IngestResult) (s' : MemoryStore) : Type 0 where
  pub stored : All (λ b. block_at s' b.number ≡ some b) bs
  pub fork : r.rolled_back_at_fork ≡ first_conflict s bs
  pub others :
      (n : ℕ) → block_at s' n ≡ latest_at bs n (after_fork (first_conflict s bs) n (block_at s n))
  pub rows :
      (key : Text)
      → Map.get s'.log_rows key
        ≡ latest_log
            (logs_of logs bs)
            key
            (log_after_fork (first_conflict s bs) (Map.get s.log_rows key))
  pub keyed : IsKeyed s'

ingested :
    (indexer : Indexer) (s : MemoryStore) (from to : ℕ)
    → IsKeyed s
    → from ≤ to
    → is_contiguous (indexer.source.get_blocks from to) ≡ true
    → (r : IngestResult) × (s' : MemoryStore) × (ingest_range indexer s from to ≡ ok (r, s'))
      × IsIngested s (indexer.source.get_blocks from to) (indexer.source.get_transfers from to) r s'
unfolding ingest_range
ingested indexer s from to h in_order linked =
    let bs = indexer.source.get_blocks from to in
    let logs = indexer.source.get_transfers from to in
    let a = is_contiguous-IsAscending bs linked in
    let back = roll_back_lem s bs h a in
    let rolled = roll_back s none bs in
    let pushed = push_lem rolled.0 0 logs bs back.keyed in
    let after = push rolled.0 0 logs bs in
    let upright : ltb to from ≡ false = ground arith in
    (
      record {
        pushed_blocks = length bs;
        pushed_transfers = after.1;
        rolled_back_at_fork = rolled.1;
      },
      after.0,
      rw (upright, linked) refl,
      record {
        stored = All-map _ _ (λ b each. pushed.blocks b.number ∙ each _) bs (latest_at_each bs a);
        fork = back.fork;
        others = λ n. pushed.blocks n ∙ ap (latest_at bs n) (back.kept n);
        rows = λ key. pushed.rows key ∙ ap (latest_log (logs_of logs bs) key) (back.kept_logs key);
        keyed = pushed.keyed;
      },
    )

-- On a store with one entry for each key:
-- `ingestRange` returns exactly for a range that is not inverted whose blocks are each the child of
-- the one before. Every fetched block is then stored under its height; the fork that is reported is
-- the height of the first of them whose hash differs from that of the stored block; every other
-- height, and every log but those fetched for the batch, is as before, or gone if it is at or above
-- that fork; and the logs fetched for the heights of the batch are stored.
pub ingest_range-IsIngested :
    (indexer : Indexer) (s : MemoryStore) (from to : ℕ)
    → IsKeyed s
    → let bs = indexer.source.get_blocks from to in
      let logs = indexer.source.get_transfers from to in
      (((r : IngestResult) × (s' : MemoryStore) × (ingest_range indexer s from to ≡ ok (r, s')))
        ↔ ((from ≤ to) × IsLinked bs))
      × ((r : IngestResult) (s' : MemoryStore)
          → ingest_range indexer s from to ≡ ok (r, s')
          → IsIngested s bs logs r s')
unfolding ingested
ingest_range-IsIngested indexer s from to h = (
  (
    λ (r, s', made). accepted indexer s from to r s' made,
    λ (in_order, linked).
        let (r, s', made, good) =
          ingested indexer s from to h in_order
            ((is_contiguous_iff (indexer.source.get_blocks from to)).1 linked) in
        (r, s', made),
  ),
  λ r s' made.
      let (in_order, linked) = accepted indexer s from to r s' made in
      let (r2, s2, again, good) =
        ingested indexer s from to h in_order
          ((is_contiguous_iff (indexer.source.get_blocks from to)).1 linked) in
      let same : ok (r2, s2) ≡ ok (r, s') = sym again ∙ made in
      subst
        (λ (x : IngestResult × MemoryStore).
          IsIngested s (indexer.source.get_blocks from to) (indexer.source.get_transfers from to)
            x.0 x.1)
        (ap (λ x. ok_or x (r2, s2)) same) good,
)
