-- ===== src/Indexer/Ingest/Pushed.antt =====
-- The second loop of `ingestRange`, services/indexer/src/indexer.ts: what is stored of the batch.
use penny_protocol.Base.Map
use penny_protocol.Base.{
  ◌++◌, ℕ, ◌+◌, ◌<◌, ◌==◌, nat_eq, nat_beq_iff, ◌≡◌, refl, sym, ap, ◌∙◌, false, Option, some, List,
  [], ◌∷◌, arith, if◌then◌else◌, All, All-map, filter_by,
}
use penny_protocol.Base.Text.{Text, text_eq}
use penny_protocol.Base.Map.{Map, IsMap}
use penny_protocol.Indexer.Events.{BlockHeader, TransferLog}
use penny_protocol.Indexer.Blocks.Laws.{IsAscending}
use penny_protocol.Indexer.Store.{
  transfer_key, upsert_rows, MemoryStore, block_at, upsert_block, upsert_transfers,
}
use penny_protocol.Indexer.Store.Laws.{block_at-upsert_block}
use penny_protocol.Indexer.Ingest.{push}
use penny_protocol.Indexer.Store.Rollback.{IsKeyed}

-- The last block of the batch at a height, or what was there.
abbrev pub latest_at : List BlockHeader → ℕ → Option BlockHeader → Option BlockHeader
latest_at [] n stored = stored
latest_at (b ∷ bs) n stored = latest_at bs n (if b.number == n then some b else stored)

block_at-upsert_transfers :
    (s : MemoryStore) (logs : List TransferLog) (n : ℕ)
    → block_at (upsert_transfers s logs).0 n ≡ block_at s n
unfolding block_at upsert_transfers
block_at-upsert_transfers s logs n = refl

-- The last of the logs with a key, or what was there.
abbrev pub latest_log : List TransferLog → Text → Option TransferLog → Option TransferLog
latest_log [] key stored = stored
latest_log (t ∷ ts) key stored =
    latest_log ts key (if transfer_key t == key then some t else stored)

latest_log-append :
    (ts us : List TransferLog) (key : Text) (o : Option TransferLog)
    → latest_log (ts ++ us) key o ≡ latest_log us key (latest_log ts key o)
latest_log-append [] us key o = refl
latest_log-append (t ∷ ts) us key o =
    latest_log-append ts us key (if transfer_key t == key then some t else o)

get-upsert_rows :
    (rows : Map Text TransferLog) (added : ℕ) (ts : List TransferLog) (key : Text)
    → Map.get (upsert_rows rows added ts).0 key ≡ latest_log ts key (Map.get rows key)
unfolding upsert_rows
get-upsert_rows rows added [] key = refl
get-upsert_rows rows added (t ∷ ts) key =
    get-upsert_rows (Map.set rows (transfer_key t) t) _ ts key
    ∙ ap (latest_log ts key) (Map.get-set rows (transfer_key t) key t)

upsert_rows-IsMap :
    (rows : Map Text TransferLog) (added : ℕ) (ts : List TransferLog)
    → IsMap rows
    → IsMap (upsert_rows rows added ts).0
unfolding upsert_rows
upsert_rows-IsMap rows added [] h = h
upsert_rows-IsMap rows added (t ∷ ts) h =
    upsert_rows-IsMap (Map.set rows (transfer_key t) t) _ ts
      (Map.set-IsMap rows (transfer_key t) t h)

-- The logs of the heights of the batch, in the order of its blocks.
abbrev pub logs_of : List TransferLog → List BlockHeader → List TransferLog
logs_of logs [] = []
logs_of logs (b ∷ bs) =
    filter_by (λ (t : TransferLog). t.block_number == b.number) logs ++ logs_of logs bs

rows-upsert :
    (s : MemoryStore) (b : BlockHeader) (own : List TransferLog) (key : Text)
    → Map.get (upsert_transfers (upsert_block s b) own).0.log_rows key
      ≡ latest_log own key (Map.get s.log_rows key)
unfolding upsert_transfers upsert_block
rows-upsert s b own key = get-upsert_rows s.log_rows 0 own key

pub record IsPushed (s : MemoryStore) (logs : List TransferLog) (bs : List BlockHeader)
    (after : MemoryStore) : Type 0 where
  pub keyed : IsKeyed after
  pub blocks : (n : ℕ) → block_at after n ≡ latest_at bs n (block_at s n)
  pub rows :
      (key : Text)
      → Map.get after.log_rows key ≡ latest_log (logs_of logs bs) key (Map.get s.log_rows key)

pub push_lem :
    (s : MemoryStore) (pushed : ℕ) (logs : List TransferLog) (bs : List BlockHeader)
    → IsKeyed s
    → IsPushed s logs bs (push s pushed logs bs).0
unfolding push
push_lem s pushed logs [] h = record { keyed = h; blocks = λ n. refl; rows = λ key. refl }
push_lem s pushed logs (b ∷ bs) h =
    let own = filter_by (λ (t : TransferLog). t.block_number == b.number) logs in
    let r = upsert_transfers (upsert_block s b) own in
    let rest = push_lem r.0 (pushed + r.1) logs bs (
      unfold upsert_transfers upsert_block in
      record {
        of_blocks = Map.set-IsMap s.blocks b.number b h.of_blocks;
        of_logs = upsert_rows-IsMap s.log_rows 0 own h.of_logs;
      }) in
    record {
      keyed = rest.keyed;
      blocks = λ n.
          rest.blocks n
          ∙ ap (latest_at bs n)
              (block_at-upsert_transfers (upsert_block s b) own n ∙ block_at-upsert_block s b n);
      rows = λ key.
          rest.rows key
          ∙ ap (latest_log (logs_of logs bs) key) (rows-upsert s b own key)
          ∙ sym (latest_log-append own (logs_of logs bs) key (Map.get s.log_rows key));
    }

latest_at_above :
    (bs : List BlockHeader) (n : ℕ) (o : Option BlockHeader)
    → All (λ c. n < c.number) bs
    → latest_at bs n o ≡ o
latest_at_above [] n o h = refl
latest_at_above (b ∷ bs) n o h =
    let other : (b.number == n) ≡ false = ground arith in rw other (latest_at_above bs n o h.1)

pub latest_at_each :
    (bs : List BlockHeader)
    → IsAscending bs
    → All (λ b. (o : Option BlockHeader) → latest_at bs b.number o ≡ some b) bs
latest_at_each [] a = tt
latest_at_each (b ∷ bs) (above, a) = (
  λ o. rw ((nat_beq_iff b.number b.number).1 refl) (latest_at_above bs b.number (some b) above),
  All-map _ _ (λ c h o. h _) bs (latest_at_each bs a),
)
