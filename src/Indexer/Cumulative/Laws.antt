-- ===== src/Indexer/Cumulative/Laws.antt =====
-- What the merge of entitlements gives each wallet, and that none is destroyed.
use penny_protocol.Base.{
  nat_beq, length, ◌<◌, Option, ◌⊎◌, ◌==◌, ◌≡◌, refl, ap, ◌∙◌, subst, some, inl, inr, Bool, true,
  false, get_or, List, [], ◌∷◌, arith, if◌then◌else◌, Bool-cases,
}
use penny_protocol.Base.Int.{ℤ, pos, ◌+ℤ◌, int_laws}
use penny_protocol.Base.Text.{Text, text_eq, text_beq_iff}
use penny_protocol.Base.Map
use penny_protocol.Base.Map.{Map, IsMap, IsDistinct}
use penny_protocol.Base.Result.{ok}
use penny_protocol.Indexer.Cumulative.{
  CumulativePerWallet, CumulativeByAsset, of_asset, of_wallet, merge_wallets, preserve, merge_asset,
  merge_assets, apply_cumulative,
}

module _ (prior delta : CumulativePerWallet) where
  get-merge_wallets :
      (m : CumulativePerWallet) (ws : List Text) (w : Text)
      → Map.get (merge_wallets prior delta m ws) w
        ≡ (if Map.contains ws w then some (of_wallet prior w +ℤ of_wallet delta w) else Map.get m w)
  unfolding merge_wallets Map.contains
  get-merge_wallets m [] w = refl
  get-merge_wallets m (v ∷ vs) w =
      get-merge_wallets (Map.set m v (of_wallet prior v +ℤ of_wallet delta v)) vs w
      ∙ rw (Map.get-set m v w (of_wallet prior v +ℤ of_wallet delta v))
          (at_key (Bool-cases (v == w)))
    where
      at_key :
          ((v == w) ≡ true) ⊎ ((v == w) ≡ false)
          → (if Map.contains vs w
              then some (of_wallet prior w +ℤ of_wallet delta w)
              else (if v == w then some (of_wallet prior v +ℤ of_wallet delta v) else Map.get m w))
            ≡ (if (if v == w then true else Map.contains vs w)
                then some (of_wallet prior w +ℤ of_wallet delta w)
                else Map.get m w)
      at_key (inl same) = rw same (
          either_way (Map.contains vs w) _ _
            (ap (λ k. some (of_wallet prior k +ℤ of_wallet delta k)) ((text_beq_iff v w).0 same)))
        where
          either_way : (c : Bool) (x y : Option ℤ) → y ≡ x → (if c then x else y) ≡ x
          either_way true x y e = refl
          either_way false x y e = e
      at_key (inr other) = rw other refl

get-preserve :
    (m prior : CumulativePerWallet) (w : Text)
    → Map.get (preserve m prior) w ≡ (if Map.has m w then Map.get m w else Map.get prior w)
unfolding preserve Map.get
get-preserve m [] w = elim (Bool-cases (Map.has m w)) [
  | inl there ↦ rw there refl
  | inr missing ↦ rw missing (Map.get-none m w missing)
]
get-preserve m ((v, x) ∷ rest) w = elim (Bool-cases (Map.has m v)) [
  | inl there ↦ rw there (get-preserve m rest w ∙ ground (arith, text_beq_iff v w))
  | inr missing ↦ rw missing (
      get-preserve (Map.set m v x) rest w
      ∙ rw (Map.has-set m v w x, Map.get-set m v w x) (ground (arith, text_beq_iff v w)))
]

has_none : (w : Text) → Map.has {V = ℤ} [] w ≡ false
unfolding Map.has
has_none w = refl

has-merge_wallets :
    (prior delta m : CumulativePerWallet) (ws : List Text) (w : Text)
    → Map.has (merge_wallets prior delta m ws) w ≡ (if Map.contains ws w then true else Map.has m w)
unfolding merge_wallets Map.contains
has-merge_wallets prior delta m [] w = refl
has-merge_wallets prior delta m (v ∷ vs) w =
    let x = of_wallet prior v +ℤ of_wallet delta v in
    has-merge_wallets prior delta (Map.set m v (of_wallet prior v +ℤ of_wallet delta v)) vs w
    ∙ rw (Map.has-set m v w (of_wallet prior v +ℤ of_wallet delta v))
        (either (v == w) (Map.contains vs w) (Map.has m w))
  where
    either :
        (a b c : Bool)
        → (if b then true else (if a then true else c))
          ≡ (if (if a then true else b) then true else c)
    either a b c = ground arith

-- In the merged map an elected wallet has its earlier value and the award, and another wallet what
-- it had.
pub get-merge_asset :
    (prior delta : CumulativePerWallet) (ws : List Text) (w : Text)
    → Map.get (merge_asset prior delta ws) w ≡ (
        if Map.contains ws w
        then some (of_wallet prior w +ℤ of_wallet delta w)
        else Map.get prior w)
unfolding merge_asset
get-merge_asset prior delta ws w =
    get-preserve (merge_wallets prior delta [] ws) prior w
    ∙ rw (get-merge_wallets prior delta [] ws w) (at_wallet (Bool-cases (Map.contains ws w)))
  where
    at_wallet :
        (Map.contains ws w ≡ true) ⊎ (Map.contains ws w ≡ false)
        → (if Map.has (merge_wallets prior delta [] ws) w
            then (if Map.contains ws w
                then some (of_wallet prior w +ℤ of_wallet delta w)
                else Map.get [] w)
            else Map.get prior w)
          ≡ (if Map.contains ws w
              then some (of_wallet prior w +ℤ of_wallet delta w)
              else Map.get prior w)
    at_wallet (inl elected) =
        rw
          (
            elected,
            Map.has-get (merge_wallets prior delta [] ws) w (of_wallet prior w +ℤ of_wallet delta w)
                (rw (get-merge_wallets prior delta [] ws w, elected) refl),
          )
          refl
    at_wallet (inr other) = rw (has-merge_wallets prior delta [] ws w, other, has_none w) refl

module _ (prior deltas : CumulativeByAsset) (wallets : List Text) where
  get-merge_assets :
      (next : CumulativeByAsset) (assets : List Text) (a : Text)
      → Map.get (merge_assets prior deltas wallets next assets) a ≡ (
          if Map.contains assets a
          then some (merge_asset (of_asset prior a) (of_asset deltas a) wallets)
          else Map.get next a)
  unfolding merge_assets Map.contains
  get-merge_assets next [] a = refl
  get-merge_assets next (b ∷ rest) a =
      get-merge_assets (Map.set next b (merged b)) rest a
      ∙ rw (Map.get-set next b a (merged b)) (at_key (Bool-cases (b == a)))
    where
      merged : Text → CumulativePerWallet
      merged x = merge_asset (of_asset prior x) (of_asset deltas x) wallets

      either_way : (c : Bool) (x y : Option CumulativePerWallet) → y ≡ x → (if c then x else y) ≡ x
      either_way true x y e = refl
      either_way false x y e = e

      at_key :
          ((b == a) ≡ true) ⊎ ((b == a) ≡ false)
          → (if Map.contains rest a
              then some (merged a)
              else (if b == a then some (merged b) else Map.get next a))
            ≡ (if (if b == a then true else Map.contains rest a)
                then some (merged a)
                else Map.get next a)
      at_key (inl same) = rw same (
          either_way (Map.contains rest a) _ _
            (ap (λ k. some (merged k)) ((text_beq_iff b a).0 same)))
      at_key (inr other) = rw other refl

-- What the merge of one epoch gives.
pub record IsMerge (prior : CumulativeByAsset) (assets : List Text) (deltas : CumulativeByAsset)
    (wallets : List Text) (next : CumulativeByAsset) : Type 0 where
  pub merged :
      (a w : Text)
      → Map.contains assets a ≡ true
      → of_wallet (of_asset next a) w
        ≡ of_wallet (of_asset prior a) w
          +ℤ (if Map.contains wallets w then of_wallet (of_asset deltas a) w else pos 0)
  pub dropped : (a : Text) → Map.contains assets a ≡ false → of_asset next a ≡ []

merge_assets-IsMerge :
    (prior : CumulativeByAsset) (assets : List Text) (deltas : CumulativeByAsset)
    (wallets : List Text)
    → IsMerge prior assets deltas wallets (merge_assets prior deltas wallets [] assets)
unfolding Map.get
merge_assets-IsMerge prior assets deltas wallets = record {
  merged = λ a w h.
      rw
        (
          get-merge_assets prior deltas wallets [] assets a,
          h,
          get-merge_asset (of_asset prior a) (of_asset deltas a) wallets w,
        )
        (by_wallet (Map.contains wallets w) (Map.get (of_asset prior a) w)
          (of_wallet (of_asset deltas a) w));
  dropped = λ a h. rw (get-merge_assets prior deltas wallets [] assets a, h) refl;
}
  where
    by_wallet :
        (c : Bool) (o : Option ℤ) (d : ℤ)
        → get_or (if c then some (get_or o (pos 0) +ℤ d) else o) (pos 0)
          ≡ get_or o (pos 0) +ℤ (if c then d else pos 0)
    by_wallet true o d = refl
    by_wallet false o d = omega int_laws

-- Whenever `applyCumulative` returns: for each asset of the epoch, an elected wallet's entitlement
-- is its earlier one and the award, and every other wallet keeps its earlier one. The entitlements
-- of an asset that the epoch does not list are gone from the result.
pub apply_cumulative-IsMerge :
    (prior : CumulativeByAsset) (assets : List Text) (deltas : CumulativeByAsset)
    (wallets : List Text) {next : CumulativeByAsset}
    → apply_cumulative prior assets deltas wallets ≡ ok next
    → IsMerge prior assets deltas wallets next
unfolding apply_cumulative
apply_cumulative-IsMerge prior assets deltas wallets {next} h =
    subst (IsMerge prior assets deltas wallets) (ground arith)
      (merge_assets-IsMerge prior assets deltas wallets)

-- It returns where the epoch lists some asset and has as many awards as assets.
pub apply_cumulative-succeeds :
    (prior : CumulativeByAsset) (assets : List Text) (deltas : CumulativeByAsset)
    (wallets : List Text)
    → 0 < length assets
    → length (Map.keys deltas) ≡ length assets
    → (next : CumulativeByAsset) × (apply_cumulative prior assets deltas wallets ≡ ok next)
unfolding apply_cumulative
apply_cumulative-succeeds prior assets deltas wallets some_asset same =
    let listed : nat_beq (length assets) 0 ≡ false = ground arith in
    let matched : nat_beq (length (Map.keys deltas)) (length assets) ≡ true = ground arith in
    (merge_assets prior deltas wallets [] assets, rw (listed, matched) refl)
