-- ===== src/Indexer/Epoch/Proven.antt =====
-- Each wallet's published proof verifies against the published root.
use penny_protocol.Base.Map
use penny_protocol.Base.Text.{text_beq_iff, text_eq}
use penny_protocol.Indexer.Merkle.{leaf_hash, verify, zero_root, root_of, leaf_for, Viem}
use penny_protocol.Base.Text.{Text}
use penny_protocol.Indexer.Cumulative.{CumulativeByAsset}
use penny_protocol.Base.{
  inr, Bool-cases, inl, false, map, ◌⊎◌, All, true, refl, zero, arith, [], subst, suc, ◌∷◌, ◌+◌,
  some, ◌≡◌, get_elem?, ℕ, List,
}
use penny_protocol.Indexer.Epoch.{Error, ok, leaves_of, entitlements, proofs_of, EpochWalletProof}
use penny_protocol.Base.Result.{err, ok}
use penny_protocol.Indexer.Merkle.Proofs.{verify-proof_for}
use penny_protocol.Base.{true}
use penny_protocol.Indexer.Epoch.{leaves_of, proofs_of}
use penny_protocol.Indexer.Events.{Error}

module _ (v : Viem) where
  -- The proofs are those of the wallets, in order, and each of them is accepted.
  pub IsProven : CumulativeByAsset → List Text → Text → List Text → List EpochWalletProof → Type 0
  IsProven cumulative assets root [] [] = Unit
  IsProven cumulative assets root [] (p ∷ ps) = ⊥
  IsProven cumulative assets root (w ∷ ws) [] = ⊥
  IsProven cumulative assets root (w ∷ ws) (p ∷ ps) =
      (p.wallet ≡ w)
      × (p.cumulative ≡ entitlements cumulative assets w)
      × ((leaf : Text) × (leaf_for v p.wallet p.cumulative ≡ ok leaf)
          × (verify v p.proof root leaf ≡ true))
      × IsProven cumulative assets root ws ps

  module _ (quote : Text → Text) (cumulative : CumulativeByAsset) (assets : List Text) where
    leaf_of : Text → Text
    leaf_of w = leaf_hash v w (entitlements cumulative assets w)

    abbrev pub hashes_of : List Text → List Text
    hashes_of = map (λ w. leaf_hash v w (entitlements cumulative assets w))

    -- Viem encodes the wallets with their entitlements.
    abbrev pub Encoded : List Text → Type 0
    Encoded = All (λ w. v.encodes w (entitlements cumulative assets w) ≡ true)

    -- Either there is a leaf for each wallet, or viem throws at one of them.
    pub leaves_of-cases :
        (ws : List Text)
        → ((leaves_of v quote cumulative assets ws ≡ ok (hashes_of ws)) × Encoded ws)
          ⊎ ((w : Text) × (Map.contains ws w ≡ true)
              × (v.encodes w (entitlements cumulative assets w) ≡ false)
              × (leaves_of v quote cumulative assets ws ≡ err Error.not_encodable))
    unfolding leaves_of leaf_for Map.contains
    leaves_of-cases [] = inl (refl, tt)
    leaves_of-cases (w ∷ ws) = elim (Bool-cases (v.encodes w (entitlements cumulative assets w))) [
      | inr refused ↦
          inr (w, rw ((text_beq_iff w w).1 refl) refl, refused, rw (refused, leaves_of) refl)
      | inl fine ↦ elim (leaves_of-cases ws) [
        | inl (made, encoded) ↦ inl (rw (fine, made, leaves_of) refl, (fine, encoded))
        | inr (x, there, refused, thrown) ↦
            inr (x, ground (arith, there), refused, rw (fine, thrown, leaves_of) refl)
      ]
    ]

    get_elem?-leaves :
        (ws : List Text) (j : ℕ) (w : Text)
        → get_elem? ws j ≡ some w
        → get_elem? (hashes_of ws) j ≡ some (leaf_of w)
    unfolding leaf_of
    get_elem?-leaves [] j w h = absurd (cc h)
    get_elem?-leaves (x ∷ ws) zero w h = cc h
    get_elem?-leaves (x ∷ ws) (suc j) w h = get_elem?-leaves ws j w h

    leaf_for-ok :
        (w : Text)
        → v.encodes w (entitlements cumulative assets w) ≡ true
        → leaf_for v w (entitlements cumulative assets w) ≡ ok (leaf_of w)
    unfolding leaf_for leaf_of
    leaf_for-ok w h = rw h refl

    proofs_lem :
        (leaves : List Text) (root : Text) (i : ℕ) (ws : List Text)
        → Encoded ws
        → root_of v leaves ≡ ok root
        → ((j : ℕ) (w : Text)
            → get_elem? ws j ≡ some w
            → get_elem? leaves (i + j) ≡ some (leaf_of w))
        → (ps : List EpochWalletProof) × (proofs_of v quote cumulative assets leaves i ws ≡ ok ps)
          × IsProven cumulative assets root ws ps
    unfolding proofs_of IsProven
    proofs_lem leaves root i [] encoded found at = ([], refl, tt)
    proofs_lem leaves root i (w ∷ ws) encoded found at =
        let (root', proof, found', here, accepted) =
          verify-proof_for v leaves i (leaf_of w)
            (subst (λ n. get_elem? leaves n ≡ some (leaf_of w)) (omega arith) (at 0 w refl)) in
        let (ps, there, proven) = proofs_lem leaves root (i + 1) ws encoded.1 found (λ j x h.
          subst (λ n. get_elem? leaves n ≡ some (leaf_of x)) (omega arith) (at (suc j) x h)) in
        let same : root' ≡ root = cc (found, found') in
        (
          record { wallet = w; cumulative = entitlements cumulative assets w; proof = proof } ∷ ps,
          rw (here, there) refl,
          (
            refl,
            refl,
            (
              leaf_of w,
              leaf_for-ok w encoded.0,
              subst (λ r. verify v proof r (leaf_of w) ≡ true) same accepted,
            ),
            proven,
          ),
        )

    -- `rootOf` and `proofFor` return for the leaves of the wallets, and the proofs are accepted.
    pub proofs_of-IsProven :
        (ws : List Text)
        → Encoded ws
        → let leaves = hashes_of ws in
          (root : Text) × (ps : List EpochWalletProof) × (root_of v leaves ≡ ok root)
          × (proofs_of v quote cumulative assets leaves 0 ws ≡ ok ps)
          × IsProven cumulative assets root ws ps
    unfolding root_of proofs_of IsProven
    proofs_of-IsProven [] encoded = (zero_root, [], refl, refl, tt)
    proofs_of-IsProven (w ∷ ws) encoded =
        let leaves = hashes_of (w ∷ ws) in
        let (root, proof, found, here, accepted) =
          verify-proof_for v leaves 0 (leaf_of w) (get_elem?-leaves (w ∷ ws) 0 w refl) in
        let (ps, there, proven) = proofs_lem leaves root 0 (w ∷ ws) encoded found (λ j x h.
          subst (λ n. get_elem? leaves n ≡ some (leaf_of x)) (omega arith)
            (get_elem?-leaves (w ∷ ws) j x h)) in
        (root, ps, found, there, proven)
