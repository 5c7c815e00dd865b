-- ===== src/Indexer/Store/Latest.antt =====
-- `latestBlock` finds the highest block.
use penny_protocol.Base.{
  ◌≤◌, ◌≡◌, inl, inr, Option, none, some, List, [], ◌∷◌, arith, ltb, Bool-cases, All,
}
use penny_protocol.Base.Map
use penny_protocol.Indexer.Events.{BlockHeader}
use penny_protocol.Indexer.Store.{MemoryStore, is_later, latest_of, latest_block}

-- At least as high as a block found earlier.
abbrev NotBelow : Option BlockHeader → BlockHeader → Type 0
NotBelow none b = Unit
NotBelow (some a) b = a.number ≤ b.number

latest_of_lem :
    (a : Option BlockHeader) (bs : List BlockHeader) (top : BlockHeader)
    → latest_of a bs ≡ some top
    → NotBelow a top × All (λ b. b.number ≤ top.number) bs
unfolding latest_of is_later
latest_of_lem none [] top h = (tt, tt)
latest_of_lem (some a) [] top h = (ground arith, tt)
latest_of_lem none (b ∷ bs) top h =
    let (here, later) = latest_of_lem (some b) bs top h in (tt, (here, later))
latest_of_lem (some a) (b ∷ bs) top h = elim (Bool-cases (ltb a.number b.number)) [
  | inl higher ↦
      let (here, later) = latest_of_lem (some b) bs top (rw higher at h) in
      (ground arith, (here, later))
  | inr lower ↦
      let (here, later) = latest_of_lem (some a) bs top (rw lower at h) in
      (here, (ground arith, later))
]

-- No stored block is higher than the one that `latestBlock` returns.
pub latest_block-highest :
    (s : MemoryStore) (top : BlockHeader)
    → latest_block s ≡ some top
    → All (λ b. b.number ≤ top.number) (Map.values s.blocks)
unfolding latest_block
latest_block-highest s top h = (latest_of_lem none (Map.values s.blocks) top h).1
