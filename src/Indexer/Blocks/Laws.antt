-- ===== src/Indexer/Blocks/Laws.antt =====
-- What a contiguous batch of headers looks like.
use penny_protocol.Base.{refl, [], All-map, arith, ◌↔◌, ◌<◌, true, ◌+◌, ◌∷◌, ◌≡◌, List, All}
use penny_protocol.Indexer.Blocks.{BlockHeader, links, is_contiguous}
use penny_protocol.Indexer.Events.{BlockHeader}
use penny_protocol.Base.Text.{text_beq_iff}

-- The heights of a batch grow.
abbrev pub IsAscending : List BlockHeader → Type 0
IsAscending [] = Unit
IsAscending (b ∷ bs) = All (λ c. b.number < c.number) bs × IsAscending bs

links-IsAscending :
    (prev : BlockHeader) (bs : List BlockHeader)
    → links prev bs ≡ true
    → All (λ c. prev.number < c.number) bs × IsAscending bs
unfolding links
links-IsAscending prev [] h = (tt, tt)
links-IsAscending prev (b ∷ bs) h =
    let (above, ascending) = links-IsAscending b bs (ground arith) in
    let next : prev.number < b.number = ground arith in
    ((next, All-map _ _ (λ c p. omega arith) bs above), (above, ascending))

pub is_contiguous-IsAscending : (bs : List BlockHeader) → is_contiguous bs ≡ true → IsAscending bs
unfolding is_contiguous
is_contiguous-IsAscending [] h = tt
is_contiguous-IsAscending (b ∷ bs) h = links-IsAscending b bs h

-- Each block follows the one before it: its number is the next, and it names that one's hash.
abbrev pub IsLinked : List BlockHeader → Type 0
IsLinked [] = Unit
IsLinked (a ∷ []) = Unit
IsLinked (a ∷ b ∷ rest) = (b.number ≡ a.number + 1) × (b.parent_hash ≡ a.hash) × IsLinked (b ∷ rest)

links_iff : (a : BlockHeader) (bs : List BlockHeader) → (links a bs ≡ true) ↔ IsLinked (a ∷ bs)
unfolding links
links_iff a [] = (λ h. tt, λ h. refl)
links_iff a (b ∷ bs) = (
  λ h. (
    ground arith,
    (text_beq_iff b.parent_hash a.hash).0 (ground arith),
    (links_iff b bs).0 (ground arith),
  ),
  λ h. ground (arith, (text_beq_iff b.parent_hash a.hash).1 h.1, (links_iff b bs).1 h.2),
)

-- `isContiguous` accepts a batch exactly when every block in it follows the one before it.
pub is_contiguous_iff : (bs : List BlockHeader) → (is_contiguous bs ≡ true) ↔ IsLinked bs
unfolding is_contiguous
is_contiguous_iff [] = (λ h. tt, λ h. refl)
is_contiguous_iff (b ∷ bs) = links_iff b bs
