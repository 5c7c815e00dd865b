-- ===== src/Indexer/Merkle/Proofs.antt =====
-- Every leaf's proof verifies against the root, whatever the hash function.
use penny_protocol.Base.{
  false, leb, sym, ◌++◌, true, ◌≤◌, ℕ, zero, suc, ◌+◌, ◌/◌, ◌<◌, ◌≡◌, refl, ap, ◌∙◌, some, List, [],
  ◌∷◌, arith, length, get_elem?,
}
use penny_protocol.Base.Text.{text_beq_iff, Text, text_leb_total, text_leb_antisymm}
use penny_protocol.Indexer.Merkle.{
  or_missing, Error, compute, ok, proof_loop, verify, root_loop, proof_for, root_of, Viem,
  hash_pair, next_level, sibling_pos,
}
use penny_protocol.Base.Result.{err, ok}
use penny_protocol.Indexer.Events.{Error}
use mathlib.Core.List.{append_assoc, append-nil}

sibling_two :
    (n p : ℕ) → p < n → sibling_pos (suc (suc n)) (suc (suc p)) ≡ suc (suc (sibling_pos n p))
unfolding sibling_pos
sibling_two n p h = ground arith

first_pos : (n : ℕ) → sibling_pos (suc (suc n)) 0 ≡ 1
unfolding sibling_pos
first_pos n = ground arith

half_two : (p : ℕ) → suc (suc p) / 2 ≡ suc (p / 2)
half_two p = omega arith

some_eq : {x y : Text} → some x ≡ some y → x ≡ y
some_eq e = cc

bound : (l : List Text) (p : ℕ) {x : Text} → get_elem? l p ≡ some x → p < length l
bound [] p h = absurd (cc h)
bound (a ∷ l) zero h = omega arith
bound (a ∷ l) (suc p) h = omega (arith, bound l p h)

module _ (v : Viem) where
  -- The order of a pair does not matter.
  hash_pair_comm : (a b : Text) → hash_pair v a b ≡ hash_pair v b a
  unfolding hash_pair
  hash_pair_comm a b = ground (arith, text_leb_total a b, text_leb_antisymm a b)

  length-next_level : (l : List Text) → length (next_level v l) ≡ (length l + 1) / 2
  unfolding next_level
  length-next_level [] = omega arith
  length-next_level (a ∷ []) = omega arith
  length-next_level (a ∷ b ∷ rest) = omega (arith, length-next_level rest)

  -- A node and its sibling hash to the node above both.
  parent_of :
      (l : List Text) (p : ℕ) (x : Text)
      → get_elem? l p ≡ some x
      → (s : Text) × (get_elem? l (sibling_pos (length l) p) ≡ some s)
        × (get_elem? (next_level v l) (p / 2) ≡ some (hash_pair v x s))
  unfolding next_level
  parent_of [] p x h = absurd (cc h)
  parent_of (a ∷ []) zero x h =
      (a, unfold sibling_pos in refl, ap (λ t. some (hash_pair v t a)) (some_eq h))
  parent_of (a ∷ []) (suc p) x h = absurd (cc h)
  parent_of (a ∷ b ∷ rest) zero x h =
      (b, rw (first_pos (length rest)) refl, ap (λ t. some (hash_pair v t b)) (some_eq h))
  parent_of (a ∷ b ∷ rest) (suc zero) x h = (
    a,
    unfold sibling_pos in refl,
    ap some (hash_pair_comm a b ∙ ap (λ t. hash_pair v t a) (some_eq h)),
  )
  parent_of (a ∷ b ∷ rest) (suc (suc p)) x h =
      let (s, here, above) = parent_of rest p x h in
      (
        s,
        rw (sibling_two (length rest) p (bound rest p h)) here,
        ap (get_elem? (hash_pair v a b ∷ next_level v rest)) (half_two p) ∙ above,
      )

  -- The loops end within their bound, and the proof that they collect leads from the node to the
  -- root.
  record Climb (fuel : ℕ) (l : List Text) (p : ℕ) (x : Text) (acc : List Text) : Type 0 where
    root : Text
    proof : List Text
    root_found : root_loop v fuel l ≡ ok root
    proof_found : proof_loop v fuel l p acc ≡ ok (acc ++ proof)
    leads : compute v x proof ≡ root

  climb :
      (fuel : ℕ) (l : List Text) (p : ℕ) (x : Text) (acc : List Text)
      → get_elem? l p ≡ some x
      → length l ≤ suc fuel
      → Climb fuel l p x acc
  unfolding root_loop proof_loop compute
  climb fuel [] p x acc h len = absurd (cc h)
  climb fuel (a ∷ []) (suc p) x acc h len = absurd (cc h)
  climb fuel (a ∷ []) zero x acc h len = record {
    root = a;
    proof = [];
    root_found = refl;
    proof_found = ap ok (sym (append-nil acc));
    leads = sym (some_eq h);
  }
  climb zero (a ∷ b ∷ rest) p x acc h len = absurd (omega arith)
  climb (suc fuel) (a ∷ b ∷ rest) p x acc h len =
      let level = a ∷ b ∷ rest in
      let (s, here, above) = parent_of (a ∷ b ∷ rest) p x h in
      let up =
        climb fuel (next_level v (a ∷ b ∷ rest)) (p / 2) (hash_pair v x s) (acc ++ (s ∷ [])) above
          (omega (arith, length-next_level (a ∷ b ∷ rest), len)) in
      record {
        root = up.root;
        proof = s ∷ up.proof;
        root_found = up.root_found;
        proof_found =
            rw (here, or_missing) (up.proof_found ∙ ap ok (append_assoc acc (s ∷ []) up.proof));
        leads = up.leads;
      }

  -- For every list of leaves and every index within it, `rootOf` and `proofFor` return (their loops
  -- end), and `verify` accepts the leaf at the index with that proof and that root.
  pub verify-proof_for :
      (leaves : List Text) (index : ℕ) (leaf : Text)
      → get_elem? leaves index ≡ some leaf
      → (root : Text) × (proof : List Text) × (root_of v leaves ≡ ok root)
        × (proof_for v leaves index ≡ ok proof)
        × (verify v proof root leaf ≡ true)
  unfolding root_of proof_for verify
  verify-proof_for [] index leaf h = absurd (cc h)
  verify-proof_for (l ∷ ls) index leaf h =
      let up = climb (length (l ∷ ls)) (l ∷ ls) index leaf [] h (omega arith) in
      let inside : leb (length (l ∷ ls)) index ≡ false = in_range (bound (l ∷ ls) index h) in
      (
        up.root,
        up.proof,
        up.root_found,
        rw inside up.proof_found,
        (text_beq_iff (compute v leaf up.proof) up.root).1 up.leads,
      )
    where
      in_range : {n i : ℕ} → i < n → leb n i ≡ false
      in_range p = ground arith

  -- An index past the last leaf is refused.
  pub proof_for_out_of_range :
      (leaves : List Text) (index : ℕ)
      → length leaves ≤ index
      → proof_for v leaves index ≡ err Error.index_out_of_range
  unfolding proof_for
  proof_for_out_of_range leaves index h =
      let outside : leb (length leaves) index ≡ true = ground arith in rw outside refl
