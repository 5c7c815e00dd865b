-- ===== src/Indexer/Cumulative/Monotone.antt =====
-- `isMonotone` decides that no entitlement has fallen, and the merge passes it.
use penny_protocol.Base.{
  ◌↔◌, ◌==◌, ◌≡◌, refl, subst, inl, inr, true, false, List, [], ◌∷◌, arith, if◌then◌else◌,
  Bool-cases,
}
use penny_protocol.Base.Int.{◌≤ℤ◌}
use penny_protocol.Base.Text.{Text, text_eq, text_beq_iff}
use penny_protocol.Base.Map
use penny_protocol.Base.Tabulate.{contains-set_of}
use penny_protocol.Base.Map.{Map}
use penny_protocol.Indexer.Cumulative.{
  CumulativePerWallet, CumulativeByAsset, of_asset, of_wallet, wallets_monotone, is_monotone,
}

wallets_monotone_complete :
    (prior next : CumulativePerWallet) (ws : List Text)
    → ((w : Text) → of_wallet prior w ≤ℤ of_wallet next w)
    → wallets_monotone prior next ws ≡ true
unfolding wallets_monotone
wallets_monotone_complete prior next [] h = refl
wallets_monotone_complete prior next (w ∷ ws) h =
    ground (arith, h w, wallets_monotone_complete prior next ws h)

wallets_monotone-sound :
    (prior next : CumulativePerWallet) (ws : List Text)
    → wallets_monotone prior next ws ≡ true
    → (w : Text) → Map.contains ws w ≡ true
    → of_wallet prior w ≤ℤ of_wallet next w
unfolding wallets_monotone Map.contains
wallets_monotone-sound prior next [] h w c = absurd (cc c)
wallets_monotone-sound prior next (v ∷ vs) h w c = elim (Bool-cases (v == w)) [
  | inl same ↦
      subst (λ x. of_wallet prior x ≤ℤ of_wallet next x) ((text_beq_iff v w).0 same) (ground arith)
  | inr other ↦ wallets_monotone-sound prior next vs (ground arith) w (rw other at c)
]

pair_sound :
    (prior next : CumulativePerWallet)
    → wallets_monotone prior next (Map.set_of (Map.set_of [] (Map.keys prior)) (Map.keys next))
      ≡ true
    → (w : Text) → of_wallet prior w ≤ℤ of_wallet next w
pair_sound prior next h w = elim (Bool-cases (Map.contains both w)) [
  | inl there ↦ wallets_monotone-sound prior next both h w there
  | inr missing ↦
      let (no_prior, no_next) = absent missing in
      rw (Map.get-none prior w no_prior, Map.get-none next w no_next) (omega arith)
]
  where
    both : List Text
    both = Map.set_of (Map.set_of [] (Map.keys prior)) (Map.keys next)

    absent : Map.contains both w ≡ false → (Map.has prior w ≡ false) × (Map.has next w ≡ false)
    absent h = ground (
      arith,
      h,
      contains-set_of (Map.set_of [] (Map.keys prior)) (Map.keys next) w,
      contains-set_of [] (Map.keys prior) w,
      Map.contains-keys prior w,
      Map.contains-keys next w,
    )

abbrev Kept : CumulativeByAsset → CumulativeByAsset → List Text → Type 0
Kept prior next assets =
    (a w : Text)
    → Map.contains assets a ≡ true
    → of_wallet (of_asset prior a) w ≤ℤ of_wallet (of_asset next a) w

module _ (prior next : CumulativeByAsset) where
  is_monotone_sound :
      (assets : List Text) → is_monotone prior next assets ≡ true → Kept prior next assets
  unfolding is_monotone Map.contains
  is_monotone_sound [] h a w c = absurd (cc c)
  is_monotone_sound (b ∷ bs) h a w c = elim (Bool-cases (b == a)) [
    | inl same ↦
        subst (λ x. of_wallet (of_asset prior x) w ≤ℤ of_wallet (of_asset next x) w)
          ((text_beq_iff b a).0 same)
          (pair_sound (of_asset prior b) (of_asset next b) (ground arith) w)
    | inr other ↦ is_monotone_sound bs (ground arith) a w (rw other at c)
  ]

  is_monotone_complete :
      (assets : List Text) → Kept prior next assets → is_monotone prior next assets ≡ true
  unfolding is_monotone Map.contains
  is_monotone_complete [] h = refl
  is_monotone_complete (b ∷ bs) h =
      let here =
        wallets_monotone_complete (of_asset prior b) (of_asset next b)
          (Map.set_of (Map.set_of [] (Map.keys (of_asset prior b))) (Map.keys (of_asset next b)))
          (λ w. h b w (rw ((text_beq_iff b b).1 refl))) in
      rw here (is_monotone_complete bs (λ a w c. h a w (later b a c)))
    where
      later :
          (x a : Text)
          → Map.contains bs a ≡ true
          → (if x == a then true else Map.contains bs a) ≡ true
      later x a c = ground arith

-- `isMonotone` answers true exactly when, for each listed asset and every wallet whatever, the new
-- entitlement (zero where there is none) is at least the earlier one.
pub is_monotone_iff :
    (prior next : CumulativeByAsset) (assets : List Text)
    → (is_monotone prior next assets ≡ true) ↔ (
        (a w : Text)
        → Map.contains assets a ≡ true
        → of_wallet (of_asset prior a) w ≤ℤ of_wallet (of_asset next a) w)
is_monotone_iff prior next assets =
    (is_monotone_sound prior next assets, is_monotone_complete prior next assets)
