-- ===== src/Indexer/Store.antt =====
-- services/indexer/src/store.ts: the in-memory store of blocks and transfer logs.
pub mod Laws
pub mod Latest
pub mod Rollback
use penny_protocol.Base.{
  ℕ, ◌+◌, ◌*◌, Bool, true, false, ◌&&◌, ◌||◌, nat_eq, ◌==◌, Option, none, some, List, [], ◌∷◌, ◌++◌,
  if◌then◌else◌, leb, ltb,
}
use penny_protocol.Base.Text.{Text, text_eq, codes}
use penny_protocol.Base.Decimal.{show}
use penny_protocol.Base.Map
use penny_protocol.Base.Map.{Map}
use penny_protocol.Base.Sort.{sort}
use penny_protocol.Indexer.Events.{BlockHeader, TransferLog}

-- `${blockNumber}:${txIndex}:${logIndex}`
unfoldable pub transfer_key : TransferLog → Text
transfer_key t =
    show t.block_number ++ (codes ":" ++ (show t.tx_index ++ (codes ":" ++ show t.log_index)))

pub record MemoryStore : Type 0 where
  pub blocks : Map ℕ BlockHeader
  pub log_rows : Map Text TransferLog

abbrev pub empty_store : MemoryStore
empty_store = record { blocks = []; log_rows = [] }

unfoldable pub upsert_block : MemoryStore → BlockHeader → MemoryStore
upsert_block s block = record s { blocks = Map.set s.blocks block.number block }

unfoldable pub block_at : MemoryStore → ℕ → Option BlockHeader
block_at s number = Map.get s.blocks number

-- `!latest || b.number > latest.number`
is_later : Option BlockHeader → BlockHeader → Bool
is_later none b = true
is_later (some latest) b = ltb latest.number b.number

latest_of : Option BlockHeader → List BlockHeader → Option BlockHeader
unfolding is_later
latest_of latest [] = latest
latest_of latest (b ∷ bs) = latest_of (if is_later latest b then some b else latest) bs

unfoldable pub latest_block : MemoryStore → Option BlockHeader
unfolding latest_of
latest_block s = latest_of none (Map.values s.blocks)

unfoldable pub upsert_rows : Map Text TransferLog → ℕ → List TransferLog → Map Text TransferLog × ℕ
upsert_rows rows added [] = (rows, added)
upsert_rows rows added (t ∷ ts) =
    upsert_rows (Map.set rows (transfer_key t) t)
      (if Map.has rows (transfer_key t) then added else added + 1) ts

-- The store, and how many of the logs were new.
unfoldable pub upsert_transfers : MemoryStore → List TransferLog → MemoryStore × ℕ
unfolding upsert_rows
upsert_transfers s logs =
    let (rows, added) = upsert_rows s.log_rows 0 logs in (record s { log_rows = rows }, added)

-- `a.blockNumber - b.blockNumber || a.txIndex - b.txIndex || a.logIndex - b.logIndex` is at most 0.
unfoldable pub log_leb : TransferLog → TransferLog → Bool
log_leb a b =
    ltb a.block_number b.block_number
    || ((a.block_number == b.block_number)
        && (ltb a.tx_index b.tx_index
            || ((a.tx_index == b.tx_index) && leb a.log_index b.log_index)))

unfoldable pub transfers : MemoryStore → List TransferLog
unfolding log_leb
transfers s = sort log_leb (Map.values s.log_rows)

-- The loop over a copy of the keys.
unfoldable pub delete_blocks : ℕ → List ℕ → Map ℕ BlockHeader → ℕ → Map ℕ BlockHeader × ℕ
delete_blocks at_block [] blocks removed = (blocks, removed)
delete_blocks at_block (n ∷ ns) blocks removed =
    let hit = leb at_block n in
    delete_blocks at_block ns (if hit then Map.delete blocks n else blocks)
      (if hit then removed + 1 else removed)

-- The loop over a copy of the entries.
unfoldable pub delete_logs :
    ℕ → Map Text TransferLog → Map Text TransferLog → ℕ → Map Text TransferLog × ℕ
delete_logs at_block [] rows removed = (rows, removed)
delete_logs at_block ((key, t) ∷ rest) rows removed =
    let hit = leb at_block t.block_number in
    delete_logs at_block rest (if hit then Map.delete rows key else rows)
      (if hit then removed + 1 else removed)

pub record Removed : Type 0 where
  pub removed_blocks : ℕ
  pub removed_transfers : ℕ

unfoldable pub delete_from_block : MemoryStore → ℕ → MemoryStore × Removed
unfolding delete_blocks delete_logs
delete_from_block s at_block =
    let (blocks, removed_blocks) = delete_blocks at_block (Map.keys s.blocks) s.blocks 0 in
    let (rows, removed_transfers) = delete_logs at_block s.log_rows s.log_rows 0 in
    (
      record { blocks = blocks; log_rows = rows },
      record { removed_blocks = removed_blocks; removed_transfers = removed_transfers },
    )
