-- ===== src/Web/Pages.antt =====
-- apps/web/app/claim/[epoch]/page.tsx: which epochs have a page, and what it takes of the manifest.
use penny_protocol.Base.{map, none, some}
use penny_protocol.Web.Manifest.{SampleManifestClaim, SampleManifest}
use penny_protocol.Base.Text.{text_beq, codes, Text}
use penny_protocol.Base.{
  length, [], ◌∷◌, some, if◌then◌else◌, ◌++◌, filter_by, List, Option, Bool, ℕ,
}
use Prim.Native.Nat.{ℕ}
use penny_protocol.Base.Int.{ℤ}
use penny_protocol.Base.Decimal.{show}
use penny_protocol.Packages.Sdk.{basket_tickers, first_units, protocol_fee_bps}
use penny_protocol.Web.Format.{threshold_display}

unfoldable pub generate_static_params : SampleManifest → List Text
generate_static_params manifest = show manifest.epoch_index ∷ []

abbrev pub title_of : Text → Text
title_of epoch = codes "Epoch " ++ (epoch ++ codes " claim — Penny Stocks")

abbrev pub is_sample_epoch : SampleManifest → Text → Bool
is_sample_epoch manifest requested = text_beq (show manifest.epoch_index) requested

unfoldable pub eligible_claims : SampleManifest → List SampleManifestClaim
eligible_claims manifest = filter_by (λ c. c.is_eligible) manifest.claims

-- What stands beside an eligible wallet.
abbrev pub accruing_text : SampleManifestClaim → Text
accruing_text c = elim c.cumulative [
  | none ↦ codes "eligible"
  | some m ↦ show (length m) ++ codes " assets accruing"
]

-- `join(", ")`
unfoldable pub join_tickers : List Text → Text
join_tickers [] = []
join_tickers (a ∷ []) = a
join_tickers (a ∷ b ∷ rest) = a ++ (codes ", " ++ join_tickers (b ∷ rest))

-- The figures of the page; none where there is no sample of the epoch.
pub record ClaimFigures : Type 0 where
  pub snapshot_block : ℕ
  pub reward_assets : ℕ
  pub eligible_wallets : ℕ
  pub protocol_fee : ℤ
  pub threshold : Text
  pub root_start : Text
  pub tickers : Text
  pub wallets : List (Text × Text)

unfoldable pub claim_page : SampleManifest → Text → Option ClaimFigures
unfolding eligible_claims join_tickers first_units
claim_page manifest requested =
    if is_sample_epoch manifest requested
    then some (record {
      snapshot_block = manifest.snapshot_block;
      reward_assets = length manifest.assets;
      eligible_wallets = length (eligible_claims manifest);
      protocol_fee = protocol_fee_bps;
      threshold = threshold_display;
      root_start = first_units 18 manifest.root;
      tickers = join_tickers basket_tickers;
      wallets = map (λ c. (c.wallet, accruing_text c)) (eligible_claims manifest);
    })
    else none
