-- ===== src/Indexer/Merkle.antt =====
-- services/indexer/src/merkle.ts: the tree over the leaves, its proofs and their check.
pub mod Proofs
use penny_protocol.Base.{
  ℕ, zero, suc, ◌+◌, ◌-◌, ◌/◌, ◌%◌, min, Bool, true, false, ◌==◌, Option, none, some, List, [], ◌∷◌,
  ◌++◌, if◌then◌else◌, leb, ltb, nat_beq, length, get_elem?,
}
use penny_protocol.Base.Int.{ℤ}
use penny_protocol.Base.Text.{Text, text_eq, text_leb, codes}
use penny_protocol.Base.Result.{Result, ok, err, ◌>>=◌, ◌>>◌, throw_if}
use penny_protocol.Indexer.Events.{
  Error, missing_leaf, empty_tree, index_out_of_range, out_of_fuel, not_encodable,
}

-- The functions of viem that the indexer calls, on hex texts.
pub record Viem : Type 0 where
  pub keccak256 : Text → Text
  pub concat_hex : List Text → Text
  pub to_hex : Text → Text
  -- `encodeAbiParameters([address, uint256[]], [wallet, cumulative])`, where it does not throw
  pub encode_leaf : Text → List ℤ → Text
  -- Whether the wallet is an address and each amount a uint256, else it throws
  pub encodes : Text → List ℤ → Bool

abbrev pub zero_root : Text
zero_root = codes "0x0000000000000000000000000000000000000000000000000000000000000000"

-- The paired neighbour, or the node itself at an odd end.
unfoldable pub sibling_pos : ℕ → ℕ → ℕ
sibling_pos size pos = if nat_beq (pos % 2) 0 then min (pos + 1) (size - 1) else pos - 1

-- `level[siblingPos]!`, a position that is always there.
or_missing : Option Text → Result Error Text
or_missing none = err missing_leaf
or_missing (some t) = ok t

module _ (v : Viem) where
  -- The leaf of a wallet that viem encodes.
  unfoldable pub leaf_hash : Text → List ℤ → Text
  leaf_hash wallet cumulative = v.keccak256 (v.encode_leaf wallet cumulative)

  unfoldable pub leaf_for : Text → List ℤ → Result Error Text
  unfolding leaf_hash
  leaf_for wallet cumulative =
      if v.encodes wallet cumulative then ok (leaf_hash wallet cumulative) else err not_encodable

  unfoldable pub hash_pair : Text → Text → Text
  hash_pair a b =
      if text_leb a b
      then v.keccak256 (v.concat_hex (a ∷ b ∷ []))
      else v.keccak256 (v.concat_hex (b ∷ a ∷ []))

  -- One pass of the inner loop: pairs of neighbours, and a last odd node with itself.
  unfoldable pub next_level : List Text → List Text
  next_level [] = []
  next_level (a ∷ []) = hash_pair a a ∷ []
  next_level (a ∷ b ∷ rest) = hash_pair a b ∷ next_level rest

  root_loop : ℕ → List Text → Result Error Text
  root_loop fuel [] = err empty_tree
  root_loop fuel (root ∷ []) = ok root
  root_loop zero (a ∷ b ∷ rest) = err out_of_fuel
  root_loop (suc fuel) (a ∷ b ∷ rest) = root_loop fuel (next_level (a ∷ b ∷ rest))

  unfoldable pub root_of : List Text → Result Error Text
  unfolding root_loop next_level
  root_of [] = ok zero_root
  root_of (leaf ∷ rest) = root_loop (length (leaf ∷ rest)) (leaf ∷ rest)

  proof_loop : ℕ → List Text → ℕ → List Text → Result Error (List Text)
  unfolding or_missing sibling_pos
  proof_loop fuel [] pos proof = ok proof
  proof_loop fuel (a ∷ []) pos proof = ok proof
  proof_loop zero (a ∷ b ∷ rest) pos proof = err out_of_fuel
  proof_loop (suc fuel) (a ∷ b ∷ rest) pos proof = do
    sibling ← or_missing (get_elem? (a ∷ b ∷ rest) (sibling_pos (length (a ∷ b ∷ rest)) pos))
    proof_loop fuel (next_level (a ∷ b ∷ rest)) (pos / 2) (proof ++ (sibling ∷ []))

  unfoldable pub proof_for : List Text → ℕ → Result Error (List Text)
  unfolding proof_loop next_level
  proof_for leaves index = do
    throw_if (leb (length leaves) index) index_out_of_range
    proof_loop (length leaves) leaves index []

  unfoldable pub compute : Text → List Text → Text
  compute computed [] = computed
  compute computed (element ∷ proof) = compute (hash_pair computed element) proof

  unfoldable pub verify : List Text → Text → Text → Bool
  unfolding compute
  verify proof root leaf = compute leaf proof == root
