-- ===== src/Keeper/Pipeline/Cursor.antt =====
-- The cursor that the ledger keeps reads back as the entitlements that were written.
use penny_protocol.Base.Map
use penny_protocol.Base.{All, true, ◌==◌, refl, if◌then◌else◌, ◌∙◌, ap, map, ◌≡◌, ℕ, [], ◌∷◌}
use penny_protocol.Base.Result.{ok}
use penny_protocol.Base.Map.{IsMap, Map}
use penny_protocol.Keeper.Pipeline.{
  SnapshotResult, EpochResult, to_cumulative, CumulativeByAsset, cursor_of, parse_assets,
  show_assets, show_record, ℤ, Text, parse_record,
}
use penny_protocol.Indexer.Manifest.{show_ℤ}
use penny_protocol.Base.Int.{ℤ}
use penny_protocol.Base.Text.{text_eq, Text}
use penny_protocol.Indexer.Cumulative.{CumulativeByAsset}
use penny_protocol.Indexer.Epoch.{EpochResult}
use penny_protocol.Indexer.Ingest.{SnapshotResult}
use penny_protocol.Keeper.Amounts.{parse_number-show_ℤ}

module _ {V W : Type 0} (f : V → W) where
  abbrev map_values : Map Text V → Map Text W
  map_values = map (λ e. (e.0, f e.1))

  has-map_values : (m : Map Text V) (k : Text) → Map.has (map_values m) k ≡ Map.has m k
  unfolding Map.has
  has-map_values [] k = refl
  has-map_values ((j, x) ∷ m) k = ap (λ b. if j == k then true else b) (has-map_values m k)

  map_values-IsMap : (m : Map Text V) → IsMap m → IsMap (map_values m)
  map_values-IsMap [] h = tt
  map_values-IsMap ((j, x) ∷ m) h = (has-map_values m j ∙ h.0, map_values-IsMap m h.1)

show_record-from_entries :
    (out : Map Text Text) (m : Map Text ℤ)
    → show_record out m ≡ Map.from_entries out (map_values show_ℤ m)
unfolding show_record Map.from_entries
show_record-from_entries out [] = refl
show_record-from_entries out ((k, n) ∷ m) = show_record-from_entries (Map.set out k (show_ℤ n)) m

show_record-map_values : (m : Map Text ℤ) → IsMap m → show_record [] m ≡ map_values show_ℤ m
show_record-map_values m h =
    show_record-from_entries [] m
    ∙ Map.from_entries-append [] (map_values show_ℤ m) (map_values-IsMap show_ℤ m h)

parse_record-map_values :
    (out m : Map Text ℤ) → parse_record out (map_values show_ℤ m) ≡ ok (Map.from_entries out m)
unfolding parse_record Map.from_entries
parse_record-map_values out [] = refl
parse_record-map_values out ((k, n) ∷ m) =
    rw (parse_number-show_ℤ n) (parse_record-map_values (Map.set out k n) m)

-- A record of amounts, as the cursor keeps it, parses to itself.
pub parse_record-show_record :
    (m : Map Text ℤ) → IsMap m → parse_record [] (show_record [] m) ≡ ok m
parse_record-show_record m h =
    ap (parse_record []) (show_record-map_values m h)
    ∙ parse_record-map_values [] m
    ∙ ap ok (Map.from_entries-append [] m h)

-- Entitlements with one entry for each asset, and one for each wallet.
abbrev pub IsCumulative : CumulativeByAsset → Type 0
IsCumulative c = IsMap c × All (λ e. IsMap e.1) c

show_assets-from_entries :
    (out : Map Text (Map Text Text)) (c : CumulativeByAsset)
    → show_assets out c ≡ Map.from_entries out (map_values (show_record []) c)
unfolding show_assets Map.from_entries
show_assets-from_entries out [] = refl
show_assets-from_entries out ((a, by_wallet) ∷ c) =
    show_assets-from_entries (Map.set out a (show_record [] by_wallet)) c

parse_assets-map_values :
    (out c : CumulativeByAsset)
    → All (λ e. IsMap e.1) c
    → parse_assets out (map_values (show_record []) c) ≡ ok (Map.from_entries out c)
unfolding parse_assets Map.from_entries
parse_assets-map_values out [] h = refl
parse_assets-map_values out ((a, by_wallet) ∷ c) h =
    rw (parse_record-show_record by_wallet h.0)
      (parse_assets-map_values (Map.set out a by_wallet) c h.1)

-- For every epoch whose entitlements have one entry for each asset and wallet, and residuals with
-- one for each asset: the cursor made of it parses to these entitlements and these residuals, so
-- that the next epoch builds on what this one owed.
pub cursor_of-to_cumulative :
    (epoch : EpochResult) (taken : SnapshotResult) (residual : Map Text ℤ) (funding_tip : ℕ)
    → IsCumulative epoch.new_cumulative
    → IsMap residual
    → let cursor = cursor_of epoch taken residual funding_tip in
      (to_cumulative cursor.cumulative ≡ ok epoch.new_cumulative)
      × (parse_record [] cursor.residual ≡ ok residual)
unfolding cursor_of to_cumulative
cursor_of-to_cumulative epoch taken residual funding_tip h r = (
  ap (parse_assets []) (
        show_assets-from_entries [] epoch.new_cumulative
        ∙ Map.from_entries-append [] _ (map_values-IsMap (show_record []) epoch.new_cumulative h.0))
      ∙ parse_assets-map_values [] epoch.new_cumulative h.1
      ∙ ap ok (Map.from_entries-append [] epoch.new_cumulative h.0),
  parse_record-show_record residual r,
)
