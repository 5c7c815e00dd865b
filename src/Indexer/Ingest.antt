-- ===== src/Indexer/Ingest.antt =====
-- `ingestRange` and `snapshot` of services/indexer/src/indexer.ts.
pub mod Unwound
pub mod Pushed
pub mod Canonical
pub mod Finality
pub mod Taken
use penny_protocol.Base.{
  ℕ, ◌+◌, ◌*◌, ◌^◌, ◌-◌, ◌==◌, nat_eq, Bool, true, false, not, Option, none, some, get_or, List, [],
  ◌∷◌, if◌then◌else◌, ltb, filter_by, length,
}
use penny_protocol.Base.Int.{ℤ, pos, ◌-ℤ◌, sub_ℕ}
use penny_protocol.Base.Text.{Text, text_eq}
use penny_protocol.Base.Map.{Map}
use penny_protocol.Base.Result.{Result, ok, err, ◌>>=◌, ◌>>◌, throw_if}
use penny_protocol.Indexer.Events.{
  BlockHeader, TransferLog, BlockSource, Error, inverted_range, non_contiguous_chain,
  no_confirmed_blocks, block_not_ingested, block_not_final,
}
use penny_protocol.Indexer.Blocks.{confirmed_tip, is_contiguous, default_confirmation_depth}
use penny_protocol.Indexer.Store.{
  empty_store, MemoryStore, block_at, upsert_block, upsert_transfers, delete_from_block,
  latest_block, transfers,
}
use penny_protocol.Indexer.Snapshot.{Eligibility, balances_at, eligible}

abbrev pub eligibility_threshold : ℤ
eligibility_threshold = pos (100_000 * 10 ^ 18)

-- The options, as the constructor stores them, with the source of blocks.
pub record Indexer : Type 0 where
  pub source : BlockSource
  pub confirmation_depth : ℕ
  pub threshold : ℤ
  pub excluded : List Text

-- `new Indexer(source, store, options)`: what is left out has its default.
unfoldable pub new_indexer : BlockSource → Option ℕ → Option ℤ → Option (List Text) → Indexer
new_indexer source confirmation_depth threshold excluded = record {
  source = source;
  confirmation_depth = get_or confirmation_depth default_confirmation_depth;
  threshold = get_or threshold eligibility_threshold;
  excluded = get_or excluded [];
}

-- `memoryIndexer`: an indexer with an empty store in memory.
unfoldable pub memory_indexer :
    BlockSource → Option ℕ → Option ℤ → Option (List Text) → Indexer × MemoryStore
unfolding new_indexer
memory_indexer source confirmation_depth threshold excluded =
    (new_indexer source confirmation_depth threshold excluded, empty_store)

pub record IngestResult : Type 0 where
  pub pushed_blocks : ℕ
  pub pushed_transfers : ℕ
  pub rolled_back_at_fork : Option ℕ

-- A stored block of this height has another hash.
unfoldable pub conflicts : MemoryStore → BlockHeader → Bool
conflicts s block = elim (block_at s block.number) [
  | none ↦ false
  | some stored ↦ not (stored.hash == block.hash)
]

-- The first loop: each conflict rolls the store back; the first one is reported.
unfoldable pub roll_back : MemoryStore → Option ℕ → List BlockHeader → MemoryStore × Option ℕ
unfolding conflicts
roll_back s fork [] = (s, fork)
roll_back s fork (block ∷ rest) =
    let hit = conflicts s block in
    roll_back (if hit then (delete_from_block s block.number).0 else s)
      (if hit then some (get_or fork block.number) else fork) rest

-- The second loop: each block with the logs of its height.
unfoldable pub push : MemoryStore → ℕ → List TransferLog → List BlockHeader → MemoryStore × ℕ
push s pushed logs [] = (s, pushed)
push s pushed logs (block ∷ rest) =
    let (s', added) =
      upsert_transfers (upsert_block s block)
        (filter_by (λ t. t.block_number == block.number) logs) in
    push s' (pushed + added) logs rest

unfoldable pub ingest_range :
    Indexer → MemoryStore → ℕ → ℕ → Result Error (IngestResult × MemoryStore)
unfolding roll_back push
ingest_range indexer s from_block to_block = do
  throw_if (ltb to_block from_block) inverted_range
  let blocks = indexer.source.get_blocks from_block to_block
  let logs = indexer.source.get_transfers from_block to_block
  throw_if (not (is_contiguous blocks)) non_contiguous_chain
  let rolled = roll_back s none blocks
  let pushed = push rolled.0 0 logs blocks
  ok (
    record {
      pushed_blocks = length blocks;
      pushed_transfers = pushed.1;
      rolled_back_at_fork = rolled.1;
    },
    pushed.0,
  )

abbrev number_of : Option BlockHeader → Option ℕ
number_of none = none
number_of (some b) = some b.number

unfoldable pub confirmed_cursor : Indexer → MemoryStore → Option ℕ
unfolding confirmed_tip
confirmed_cursor indexer s = confirmed_tip (number_of (latest_block s)) indexer.confirmation_depth

pub record SnapshotResult : Type 0 where
  pub block : BlockHeader
  pub balances : Map Text ℤ
  pub eligibility : Eligibility
  pub total_eligible_supply : ℤ
  pub confirmed_depth : ℤ

unfoldable pub or_throw {ℓ} : {A : Type ℓ} → Option A → Error → Result Error A
or_throw none e = err e
or_throw (some a) e = ok a

unfoldable pub snapshot : Indexer → MemoryStore → Option ℕ → Result Error SnapshotResult
unfolding or_throw
snapshot indexer s at_block = do
  confirmed ← or_throw (confirmed_cursor indexer s) no_confirmed_blocks
  let block_number = get_or at_block confirmed
  block ← or_throw (block_at s block_number) block_not_ingested
  throw_if (ltb confirmed block_number) block_not_final
  let balances = balances_at (transfers s) block_number
  let eligibility = eligible balances indexer.threshold indexer.excluded
  ok (record {
    block = block;
    balances = balances;
    eligibility = eligibility;
    total_eligible_supply = eligibility.total_eligible_supply;
    confirmed_depth = sub_ℕ (get_or (number_of (latest_block s)) 0) block_number;
  })
