-- ===== src/Indexer/Ingest/Unwound.antt =====
-- The first loop of `ingestRange`, services/indexer/src/indexer.ts: which branch is abandoned.
use penny_protocol.Base.Map
use penny_protocol.Base.{
  not, Bool, ℕ, ◌<◌, ◌==◌, nat_eq, ◌≡◌, refl, sym, ap, ◌∙◌, inl, inr, true, false, Option, none,
  some, List, [], ◌∷◌, arith, leb, if◌then◌else◌, Bool-cases, All, All-map,
}
use penny_protocol.Base.Text.{Text, text_eq}
use penny_protocol.Base.Map.{Map, IsMap}
use penny_protocol.Indexer.Events.{BlockHeader, TransferLog}
use penny_protocol.Indexer.Blocks.Laws.{IsAscending}
use penny_protocol.Indexer.Store.{MemoryStore, block_at, delete_from_block}
use penny_protocol.Indexer.Ingest.{conflicts, roll_back}
use penny_protocol.Indexer.Store.Rollback.{
  delete_from_block-IsRolledBack, IsKeyed, kept_block, kept_log,
}

-- A stored block differs from the one that the source has of its height.
abbrev pub differs : Option BlockHeader → BlockHeader → Bool
differs none b = false
differs (some stored) b = if stored.hash == b.hash then false else true

-- The height of the first block of the batch that differs from the stored one.
unfoldable pub first_conflict : MemoryStore → List BlockHeader → Option ℕ
first_conflict s [] = none
first_conflict s (b ∷ bs) =
    let later = first_conflict s bs in
    if differs (block_at s b.number) b then some b.number else later

conflicts_lem :
    (s : MemoryStore) (b : BlockHeader) → conflicts s b ≡ differs (block_at s b.number) b
unfolding conflicts
conflicts_lem s b = by_stored (block_at s b.number)
  where
    by_stored :
        (o : Option BlockHeader)
        → (elim o as (λ x. Bool) [ none ↦ false | some stored ↦ not (stored.hash == b.hash) ])
          ≡ differs o b
    by_stored none = refl
    by_stored (some stored) = ground arith

-- What a rollback at the fork leaves of a height.
abbrev pub after_fork : Option ℕ → ℕ → Option BlockHeader → Option BlockHeader
after_fork none n stored = stored
after_fork (some fork) n stored = kept_block fork n stored

-- And of a log.
abbrev pub log_after_fork : Option ℕ → Option TransferLog → Option TransferLog
log_after_fork none stored = stored
log_after_fork (some fork) stored = kept_log fork stored

no_conflict :
    (s : MemoryStore) (b : BlockHeader) → block_at s b.number ≡ none → conflicts s b ≡ false
unfolding conflicts
no_conflict s b h = rw (h, conflicts) refl

-- Above a rollback there is nothing left to disagree with.
roll_back_once :
    (s : MemoryStore) (fork : ℕ) (bs : List BlockHeader)
    → All (λ b. block_at s b.number ≡ none) bs
    → roll_back s (some fork) bs ≡ (s, some fork)
unfolding roll_back
roll_back_once s fork [] h = refl
roll_back_once s fork (b ∷ bs) h =
    rw (no_conflict s b h.0, roll_back) (roll_back_once s fork bs h.1)

pub record RolledBack (s : MemoryStore) (bs : List BlockHeader) (r : MemoryStore × Option ℕ)
    : Type 0 where
  pub fork : r.1 ≡ first_conflict s bs
  pub kept : (n : ℕ) → block_at r.0 n ≡ after_fork (first_conflict s bs) n (block_at s n)
  pub kept_logs :
      (key : Text)
      → Map.get r.0.log_rows key ≡ log_after_fork (first_conflict s bs) (Map.get s.log_rows key)
  pub keyed : IsKeyed r.0

pub roll_back_lem :
    (s : MemoryStore) (bs : List BlockHeader)
    → IsKeyed s
    → IsAscending bs
    → RolledBack s bs (roll_back s none bs)
unfolding roll_back first_conflict
roll_back_lem s [] h a = record {
  fork = refl;
  kept = λ n. refl;
  kept_logs = λ key. refl;
  keyed = h;
}
roll_back_lem s (b ∷ bs) h (above, a) = elim (Bool-cases (differs (block_at s b.number) b)) [
  | inl other ↦
      let hit = conflicts_lem s b ∙ other in
      let s' = (delete_from_block s b.number).0 in
      let back = delete_from_block-IsRolledBack s b.number h in
      let gone : All (λ c. block_at s' c.number ≡ none) bs =
        All-map (λ c. b.number < c.number) _ (λ c p. back.blocks c.number ∙ cleared c.number _ p) bs
          above in
      let at_head : first_conflict s (b ∷ bs) ≡ some b.number = rw (other, first_conflict) refl in
      rw (hit, roll_back, roll_back_once s' b.number bs gone)
        (record {
          fork = sym at_head;
          kept = λ n. back.blocks n ∙ ap (λ f. after_fork f n (block_at s n)) (sym at_head);
          kept_logs = λ key.
              back.logs key ∙ ap (λ f. log_after_fork f (Map.get s.log_rows key)) (sym at_head);
          keyed = back.keyed;
        })
  | inr same ↦
      let fine = conflicts_lem s b ∙ same in
      let back = roll_back_lem s bs h a in
      let behind : first_conflict s (b ∷ bs) ≡ first_conflict s bs =
        rw (same, first_conflict) refl in
      rw (fine, roll_back)
        (record {
          fork = back.fork ∙ sym behind;
          kept = λ n. back.kept n ∙ ap (λ f. after_fork f n (block_at s n)) (sym behind);
          kept_logs = λ key.
              back.kept_logs key ∙ ap (λ f. log_after_fork f (Map.get s.log_rows key)) (sym behind);
          keyed = back.keyed;
        })
]
  where
    cleared :
        (n : ℕ) (o : Option BlockHeader)
        → b.number < n
        → (if leb b.number n then none else o) ≡ none
    cleared n o p = ground arith
