-- ===== src/Indexer/Store/Rollback.antt =====
-- What `deleteFromBlock` of services/indexer/src/store.ts removes and keeps, blocks and logs.
use penny_protocol.Base.Map
use penny_protocol.Base.{
  ◌⊎◌, false, subst, true, ◌+◌, Bool-cases, ◌==◌, refl, ◌∙◌, leb, if◌then◌else◌, nat_eq, ◌≡◌,
  Option, ℕ, none, some, [], ◌∷◌, inl, inr,
}
use penny_protocol.Indexer.Store.{
  Text, BlockHeader, TransferLog, delete_from_block, block_at, delete_logs, MemoryStore,
}
use penny_protocol.Base.Map.{IsMap, Map}
use penny_protocol.Indexer.Events.{TransferLog, BlockHeader}
use penny_protocol.Base.Text.{text_beq_iff, text_eq, Text}
use penny_protocol.Indexer.Store.Laws.{delete_from_block-IsMap, block_at-delete_from_block}

-- What a rollback leaves of a block or a log, by the height it is of.
abbrev pub kept_block : ℕ → ℕ → Option BlockHeader → Option BlockHeader
kept_block at_block n o = if leb at_block n then none else o

abbrev pub kept_log : ℕ → Option TransferLog → Option TransferLog
kept_log at_block none = none
kept_log at_block (some t) = if leb at_block t.block_number then none else some t

-- What the loop makes of an entry, by what is left to visit.
abbrev visited : ℕ → Option TransferLog → Option TransferLog → Option TransferLog
visited at_block none o = o
visited at_block (some t) o = if leb at_block t.block_number then none else o

get-delete_logs :
    (at_block : ℕ) (rest rows : Map Text TransferLog) (removed : ℕ) (key : Text)
    → IsMap rest
    → IsMap rows
    → Map.get (delete_logs at_block rest rows removed).0 key
      ≡ visited at_block (Map.get rest key) (Map.get rows key)
unfolding delete_logs Map.get
get-delete_logs at_block [] rows removed key d h = refl
get-delete_logs at_block ((k, t) ∷ rest) rows removed key d h =
    elim (Bool-cases (leb at_block t.block_number)) [
      | inl hit ↦
          rw (hit, delete_logs)
            (get-delete_logs at_block rest (Map.delete rows k) (removed + 1) key d.1
                (Map.delete-IsMap rows k h)
              ∙ rw (Map.get-delete rows k key h) (dropped hit (Bool-cases (k == key))))
      | inr miss ↦
          rw (miss, delete_logs)
            (get-delete_logs at_block rest rows removed key d.1 h
              ∙ passed miss (Bool-cases (k == key)))
    ]
  where
    gone : (k == key) ≡ true → Map.get rest key ≡ none
    gone same =
        Map.get-none rest key
          (subst (λ x. Map.has rest x ≡ false) ((text_beq_iff k key).0 same) d.0)

    dropped :
        leb at_block t.block_number ≡ true
        → ((k == key) ≡ true) ⊎ ((k == key) ≡ false)
        → visited at_block (Map.get rest key) (if k == key then none else Map.get rows key)
          ≡ visited at_block (if k == key then some t else Map.get rest key) (Map.get rows key)
    dropped hit (inl same) = rw (same, gone same, hit) refl
    dropped hit (inr other) = rw other refl

    passed :
        leb at_block t.block_number ≡ false
        → ((k == key) ≡ true) ⊎ ((k == key) ≡ false)
        → visited at_block (Map.get rest key) (Map.get rows key)
          ≡ visited at_block (if k == key then some t else Map.get rest key) (Map.get rows key)
    passed miss (inl same) = rw (same, gone same, miss) refl
    passed miss (inr other) = rw other refl

delete_logs-IsMap :
    (at_block : ℕ) (rest rows : Map Text TransferLog) (removed : ℕ)
    → IsMap rows
    → IsMap (delete_logs at_block rest rows removed).0
unfolding delete_logs
delete_logs-IsMap at_block [] rows removed h = h
delete_logs-IsMap at_block ((k, t) ∷ rest) rows removed h =
    elim (Bool-cases (leb at_block t.block_number)) [
      | inl hit ↦
          rw (hit, delete_logs)
            (delete_logs-IsMap at_block rest (Map.delete rows k) (removed + 1)
              (Map.delete-IsMap rows k h))
      | inr miss ↦ rw (miss, delete_logs) (delete_logs-IsMap at_block rest rows removed h)
    ]

-- Both maps have one entry for each key.
pub record IsKeyed (s : MemoryStore) : Type 0 where
  pub of_blocks : IsMap s.blocks
  pub of_logs : IsMap s.log_rows

-- The blocks and the logs at or above the height are gone, and all others are as they were.
pub record IsRolledBack (s : MemoryStore) (at_block : ℕ) (after : MemoryStore) : Type 0 where
  pub blocks : (n : ℕ) → block_at after n ≡ kept_block at_block n (block_at s n)
  pub logs : (key : Text) → Map.get after.log_rows key ≡ kept_log at_block (Map.get s.log_rows key)
  pub keyed : IsKeyed after

-- On a store with one entry for each key: after the rollback no block and no log of a height at or
-- above the given one is found, and every other block and log is as before.
pub delete_from_block-IsRolledBack :
    (s : MemoryStore) (at_block : ℕ)
    → IsKeyed s
    → IsRolledBack s at_block (delete_from_block s at_block).0
delete_from_block-IsRolledBack s at_block keyed = record {
  blocks = λ n. block_at-delete_from_block s at_block n keyed.of_blocks;
  logs = λ key.
      unfold delete_from_block in
      get-delete_logs at_block s.log_rows s.log_rows 0 key keyed.of_logs keyed.of_logs
      ∙ visited_self (Map.get s.log_rows key);
  keyed = record {
    of_blocks = delete_from_block-IsMap s at_block keyed.of_blocks;
    of_logs =
        unfold delete_from_block in
        delete_logs-IsMap at_block s.log_rows s.log_rows 0 keyed.of_logs;
  };
}
  where
    visited_self : (o : Option TransferLog) → visited at_block o o ≡ kept_log at_block o
    visited_self none = refl
    visited_self (some t) = refl
