-- ===== src/Web/Tests.antt =====
-- The pages of apps/web at concrete inputs.
use penny_protocol.Base.{◌/◌, refl, ◌+◌, ◌≡◌, ◌^◌, filter_by, ◌∷◌, false, ◌*◌, [], true, none, some}
use penny_protocol.Web.Lookup.{LookupView, lookup_rows, claim_lookup}
use penny_protocol.Web.ExportCheck.{ExportError, check_index, export_check, Exported}
use penny_protocol.Web.Manifest.{SampleManifestClaim, SampleManifest}
use penny_protocol.Web.Pages.{join_tickers, eligible_claims, claim_page}
use penny_protocol.Web.Format.{
  supply_display, threshold_display, digit_run, group_after, group_thousands, fmt,
}
use penny_protocol.Base.Decimal.{show}
use penny_protocol.Base.Int.{quot_ℤ, pos}
use penny_protocol.Base.Text.{to_lower_unit, to_lower, text_beq, codes}
use penny_protocol.Web.Search.{trim_end, starts_with, trim_start, trim, includes}
use penny_protocol.Packages.Sdk.{first_units}
use penny_protocol.Base.Result.{err, ok}
use penny_protocol.Indexer.Manifest.{show_ℤ}
use penny_protocol.Web.Format.Grouped.{fmt-grouped, grouped}

-- 12,345,678 tokens and a little
fmt-grouped_example :
    fmt (pos (12_345_678 * 10 ^ 18 + 5)) ≡ grouped (12_345_678 * 10 ^ 18 / 10 ^ 18)
fmt-grouped_example = fmt-grouped (12_345_678 * 10 ^ 18 + 5)

supply : supply_display ≡ codes "1,000,000,000"
unfolding fmt group_thousands group_after digit_run show show_ℤ quot_ℤ
supply = refl

threshold : threshold_display ≡ codes "100,000"
unfolding fmt group_thousands group_after digit_run show show_ℤ quot_ℤ
threshold = refl

abbrev first_claim : SampleManifestClaim
first_claim = record {
  wallet = codes "0xAbCdEf01";
  is_eligible = true;
  cumulative = some ((codes "AUR", codes "5") ∷ []);
  note = some [];
}

abbrev second_claim : SampleManifestClaim
second_claim = record {
  wallet = codes "0x00112233";
  is_eligible = false;
  cumulative = none;
  note = some (codes "below the threshold");
}

-- The search looks past case and the space around it.
found :
    claim_lookup (first_claim ∷ second_claim ∷ []) (codes "  cdEF01 ")
    ≡ LookupView.rows (
        record { wallet = codes "0xAbCdEf01"; is_eligible = true; accruing = some 1; note = none }
        ∷ [])
unfolding claim_lookup lookup_rows trim trim_start trim_end includes starts_with to_lower
    to_lower_unit filter_by
found = refl

too_short : claim_lookup (first_claim ∷ []) (codes " 0xabc ") ≡ LookupView.hint
unfolding claim_lookup lookup_rows trim trim_start trim_end to_lower to_lower_unit
too_short = refl

not_found : claim_lookup (first_claim ∷ []) (codes "0x99999") ≡ LookupView.no_match
unfolding claim_lookup lookup_rows trim trim_start trim_end includes starts_with to_lower
    to_lower_unit filter_by
not_found = refl

abbrev sample : SampleManifest
sample = record {
  schema = [];
  epoch_index = 12;
  root = codes "0x0123456789abcdef0123";
  snapshot_block = 77;
  assets = [];
  claims = first_claim ∷ second_claim ∷ [];
  generated_at = [];
  content_hash = [];
  note = [];
}

page_of_sample :
    claim_page sample (codes "12")
    ≡ some (record {
      snapshot_block = 77;
      reward_assets = 0;
      eligible_wallets = 1;
      protocol_fee = pos 300;
      threshold = threshold_display;
      root_start = codes "0x0123456789abcdef";
      tickers = codes "AUR, JOBY, SOUN, SMR, CLOV";
      wallets = (codes "0xAbCdEf01", codes "1 assets accruing") ∷ [];
    })
unfolding claim_page eligible_claims filter_by join_tickers first_units show text_beq
page_of_sample = refl

page_of_another : claim_page sample (codes "13") ≡ none
unfolding claim_page show text_beq
page_of_another = refl

abbrev site : Exported
site = record {
  has_folder = true;
  index_html = some (codes "<h1>Penny Protocol</h1> not redeemable");
  has_status = true;
}

site_passes : export_check site ≡ ok tt
unfolding export_check check_index includes starts_with
site_passes = refl

no_name :
    export_check (record site { index_html = some (codes "not redeemable") })
    ≡ err ExportError.lost_name
unfolding export_check check_index includes starts_with
no_name = refl
