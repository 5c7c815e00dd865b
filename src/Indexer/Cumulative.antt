-- ===== src/Indexer/Cumulative.antt =====
-- services/indexer/src/cumulative.ts: running entitlements per asset and wallet.
pub mod Laws
pub mod Monotone
use penny_protocol.Base.{
  Bool, true, false, not, ◌≡◌, Option, none, some, get_or, List, [], ◌∷◌, if◌then◌else◌, length, ℕ,
  nat_beq,
}
use penny_protocol.Base.Int.{ℤ, pos, ◌+ℤ◌, ltb_ℤ}
use penny_protocol.Base.Text.{Text, text_eq}
use penny_protocol.Base.Map
use penny_protocol.Base.Map.{Map}
use penny_protocol.Base.Result.{Result, ok, err, ◌>>=◌, ◌>>◌, throw_if}
use penny_protocol.Indexer.Events.{Error, empty_asset_list, delta_assets_mismatch}

abbrev pub CumulativePerWallet : Type 0
CumulativePerWallet = Map Text ℤ

abbrev pub CumulativeByAsset : Type 0
CumulativeByAsset = Map Text CumulativePerWallet

-- `c[asset] ?? {}`
abbrev pub of_asset : CumulativeByAsset → Text → CumulativePerWallet
of_asset c asset = get_or (Map.get c asset) []

-- `byWallet[wallet] ?? 0n`
abbrev pub of_wallet : CumulativePerWallet → Text → ℤ
of_wallet by_wallet wallet = get_or (Map.get by_wallet wallet) (pos 0)

unfoldable pub merge_wallets :
    CumulativePerWallet
    → CumulativePerWallet
    → CumulativePerWallet
    → List Text
    → CumulativePerWallet
merge_wallets prior delta merged [] = merged
merge_wallets prior delta merged (w ∷ ws) =
    merge_wallets prior delta (Map.set merged w (of_wallet prior w +ℤ of_wallet delta w)) ws

-- The wallets of the earlier map that this run does not name keep their value.
unfoldable pub preserve : CumulativePerWallet → CumulativePerWallet → CumulativePerWallet
preserve merged [] = merged
preserve merged ((w, v) ∷ rest) =
    preserve (if Map.has merged w then merged else Map.set merged w v) rest

unfoldable pub merge_asset :
    CumulativePerWallet → CumulativePerWallet → List Text → CumulativePerWallet
unfolding merge_wallets preserve
merge_asset prior delta wallets = preserve (merge_wallets prior delta [] wallets) prior

unfoldable pub merge_assets :
    CumulativeByAsset
    → CumulativeByAsset
    → List Text
    → CumulativeByAsset
    → List Text
    → CumulativeByAsset
unfolding merge_asset
merge_assets prior deltas wallets next [] = next
merge_assets prior deltas wallets next (asset ∷ rest) =
    merge_assets prior deltas wallets
      (Map.set next asset (merge_asset (of_asset prior asset) (of_asset deltas asset) wallets)) rest

unfoldable pub apply_cumulative :
    CumulativeByAsset → List Text → CumulativeByAsset → List Text → Result Error CumulativeByAsset
unfolding merge_assets
apply_cumulative prior assets deltas wallets = do
  throw_if (nat_beq (length assets) 0) empty_asset_list
  throw_if (not (nat_beq (length (Map.keys deltas)) (length assets))) delta_assets_mismatch
  ok (merge_assets prior deltas wallets [] assets)

total_values : ℤ → List ℤ → ℤ
total_values total [] = total
total_values total (v ∷ vs) = total_values (total +ℤ v) vs

unfoldable pub cumulative_total : CumulativeByAsset → Text → ℤ
unfolding total_values
cumulative_total cumulative asset = total_values (pos 0) (Map.values (of_asset cumulative asset))

-- The inner loop: no wallet's value has fallen.
unfoldable pub wallets_monotone : CumulativePerWallet → CumulativePerWallet → List Text → Bool
wallets_monotone prior next [] = true
wallets_monotone prior next (w ∷ ws) =
    let rest = wallets_monotone prior next ws in
    if ltb_ℤ (of_wallet next w) (of_wallet prior w) then false else rest

unfoldable pub is_monotone : CumulativeByAsset → CumulativeByAsset → List Text → Bool
unfolding wallets_monotone
is_monotone prior next [] = true
is_monotone prior next (asset ∷ rest) =
    let p = of_asset prior asset in
    let n = of_asset next asset in
    let later = is_monotone prior next rest in
    if wallets_monotone p n (Map.set_of (Map.set_of [] (Map.keys p)) (Map.keys n))
    then later
    else false
