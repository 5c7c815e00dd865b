-- ===== src/Indexer/Blocks.antt =====
-- services/indexer/src/blocks.ts: finality and the shape of a batch of headers.
pub mod Laws
use penny_protocol.Base.{
  ℕ, ◌+◌, ◌-◌, ◌==◌, nat_eq, Bool, true, false, not, ◌&&◌, Option, none, some, List, [], ◌∷◌, max,
  if◌then◌else◌, leb,
}
use penny_protocol.Base.Text.{text_eq}
use penny_protocol.Base.Map
use penny_protocol.Base.Map.{Map}
use penny_protocol.Base.Sort.{sort}
use penny_protocol.Indexer.Events.{BlockHeader}

abbrev pub default_confirmation_depth : ℕ
default_confirmation_depth = 12

-- `Math.max(0, tip - depth)`: subtraction on ℕ stops at 0, which the `max` does in the source.
unfoldable pub confirmed_tip : Option ℕ → ℕ → Option ℕ
confirmed_tip none depth = none
confirmed_tip (some tip) depth = some (max 0 (tip - depth))

by_number : Map ℕ BlockHeader → List BlockHeader → Map ℕ BlockHeader
by_number m [] = m
by_number m (b ∷ bs) = by_number (Map.set m b.number b) bs

differs : Option BlockHeader → BlockHeader → Bool
differs none block = false
differs (some stored) block = not (stored.hash == block.hash)

first_fork : Map ℕ BlockHeader → List BlockHeader → Option ℕ
unfolding differs
first_fork existing [] = none
first_fork existing (block ∷ rest) =
    let later = first_fork existing rest in
    if differs (Map.get existing block.number) block then some block.number else later

unfoldable pub fork_at : List BlockHeader → List BlockHeader → Option ℕ
unfolding by_number first_fork
fork_at existing incoming = first_fork (by_number [] existing) incoming

links : BlockHeader → List BlockHeader → Bool
links prev [] = true
links prev (cur ∷ rest) =
    (prev.number + 1 == cur.number) && (cur.parent_hash == prev.hash) && links cur rest

unfoldable pub is_contiguous : List BlockHeader → Bool
unfolding links
is_contiguous [] = true
is_contiguous (first ∷ rest) = links first rest

abbrev head_of : List BlockHeader → Option BlockHeader
head_of [] = none
head_of (b ∷ bs) = some b

unfoldable pub lowest_stored : List BlockHeader → Option BlockHeader
lowest_stored batch = head_of (sort (λ a b. leb a.number b.number) batch)
