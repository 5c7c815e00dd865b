-- ===== src/Indexer/Store/Laws.antt =====
-- What the store returns after each of its operations.
use penny_protocol.Base.{
  ◌⊎◌, ◌+◌, ℕ, ◌==◌, nat_eq, nat_beq_iff, ◌≡◌, refl, ◌∙◌, inl, inr, true, false, none, some, List,
  [], ◌∷◌, arith, leb, if◌then◌else◌, Bool-cases,
}
use penny_protocol.Base.Text.{text_eq}
use penny_protocol.Base.Map
use penny_protocol.Base.Map.{Map, IsMap}
use penny_protocol.Indexer.Events.{BlockHeader}
use penny_protocol.Indexer.Store.{
  MemoryStore, upsert_block, block_at, delete_blocks, delete_from_block,
}

-- A block that was stored is found, and the others are as before.
pub block_at-upsert_block :
    (s : MemoryStore) (b : BlockHeader) (n : ℕ)
    → block_at (upsert_block s b) n ≡ (if b.number == n then some b else block_at s n)
unfolding block_at upsert_block
block_at-upsert_block s b n = Map.get-set s.blocks b.number n b

get-delete_blocks :
    (at_block : ℕ) (ns : List ℕ) (m : Map ℕ BlockHeader) (removed n : ℕ)
    → IsMap m
    → Map.get (delete_blocks at_block ns m removed).0 n
      ≡ (if leb at_block n then (if Map.contains ns n then none else Map.get m n) else Map.get m n)
unfolding delete_blocks Map.contains
get-delete_blocks at_block [] m removed n h = ground arith
get-delete_blocks at_block (k ∷ ks) m removed n h = elim (Bool-cases (leb at_block k)) [
  | inl hit ↦
      rw (hit, delete_blocks)
        (get-delete_blocks at_block ks (Map.delete m k) (removed + 1) n (Map.delete-IsMap m k h)
          ∙ rw (Map.get-delete m k n h) (ground (arith, nat_beq_iff k n)))
  | inr miss ↦
      rw (miss, delete_blocks)
        (get-delete_blocks at_block ks m removed n h ∙ ground (arith, nat_beq_iff k n))
]

-- After the rollback no block at or above the height is found, and the blocks below are as before.
pub block_at-delete_from_block :
    (s : MemoryStore) (at_block n : ℕ)
    → IsMap s.blocks
    → block_at (delete_from_block s at_block).0 n ≡ (if leb at_block n then none else block_at s n)
unfolding block_at delete_from_block
block_at-delete_from_block s at_block n h =
    get-delete_blocks at_block (Map.keys s.blocks) s.blocks 0 n h
    ∙ rw (Map.contains-keys s.blocks n) (gone (Bool-cases (Map.has s.blocks n)))
  where
    gone :
        (Map.has s.blocks n ≡ true) ⊎ (Map.has s.blocks n ≡ false)
        → (if leb at_block n
            then (if Map.has s.blocks n then none else Map.get s.blocks n)
            else Map.get s.blocks n)
          ≡ (if leb at_block n then none else Map.get s.blocks n)
    gone (inl there) = rw there refl
    gone (inr missing) = rw (missing, Map.get-none s.blocks n missing) refl

delete_blocks-IsMap :
    (at_block : ℕ) (ns : List ℕ) (m : Map ℕ BlockHeader) (removed : ℕ)
    → IsMap m
    → IsMap (delete_blocks at_block ns m removed).0
unfolding delete_blocks
delete_blocks-IsMap at_block [] m removed h = h
delete_blocks-IsMap at_block (k ∷ ks) m removed h = elim (Bool-cases (leb at_block k)) [
  | inl hit ↦
      rw (hit, delete_blocks)
        (delete_blocks-IsMap at_block ks (Map.delete m k) (removed + 1) (Map.delete-IsMap m k h))
  | inr miss ↦ rw (miss, delete_blocks) (delete_blocks-IsMap at_block ks m removed h)
]

-- A rollback leaves a map of blocks a map.
pub delete_from_block-IsMap :
    (s : MemoryStore) (at_block : ℕ)
    → IsMap s.blocks
    → IsMap (delete_from_block s at_block).0.blocks
unfolding delete_from_block
delete_from_block-IsMap s at_block h = delete_blocks-IsMap at_block (Map.keys s.blocks) s.blocks 0 h

pub upsert_block-IsMap :
    (s : MemoryStore) (b : BlockHeader) → IsMap s.blocks → IsMap (upsert_block s b).blocks
unfolding upsert_block
upsert_block-IsMap s b h = Map.set-IsMap s.blocks b.number b h
