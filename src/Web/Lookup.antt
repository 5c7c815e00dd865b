-- ===== src/Web/Lookup.antt =====
-- apps/web/app/claim-lookup.tsx: the search of the sample claims by a part of an address.
use penny_protocol.Base.{
  [], filter_by, length, map, none, ◌∷◌, ltb, some, ℕ, if◌then◌else◌, Bool, Option, List,
}
use penny_protocol.Base.Text.{to_lower, Text}
use penny_protocol.Web.Manifest.{SampleManifestClaim}
use penny_protocol.Web.Search.{trim, includes}
use penny_protocol.Keeper.Config.{is_unset}

-- What the list says of a claim: the number of its assets where it is eligible and has some
-- entitlement, and its note where that is not empty.
pub record ClaimRow : Type 0 where
  pub wallet : Text
  pub is_eligible : Bool
  pub accruing : Option ℕ
  pub note : Option Text

-- The hint of the empty form, the message of an empty result, or the rows.
pub data LookupView : Type 0 where
  hint no_match : LookupView
  rows : List ClaimRow → LookupView

abbrev pub query_of : Text → Text
query_of query = to_lower (trim query)

abbrev pub matches : Text → SampleManifestClaim → Bool
matches trimmed c = includes (to_lower c.wallet) trimmed

unfoldable pub lookup_rows : List SampleManifestClaim → Text → Option (List SampleManifestClaim)
lookup_rows claims query =
    if ltb (length (query_of query)) 6
    then none
    else some (filter_by (matches (query_of query)) claims)

abbrev pub accruing_of : SampleManifestClaim → Option ℕ
accruing_of c =
    if c.is_eligible then elim c.cumulative [ none ↦ none | some m ↦ some (length m) ] else none

abbrev pub claim_row_of : SampleManifestClaim → ClaimRow
claim_row_of c = record {
  wallet = c.wallet;
  is_eligible = c.is_eligible;
  accruing = accruing_of c;
  note = if is_unset c.note then none else c.note;
}

abbrev pub view_of : Option (List SampleManifestClaim) → LookupView
view_of none = LookupView.hint
view_of (some []) = LookupView.no_match
view_of (some (c ∷ cs)) = LookupView.rows (map claim_row_of (c ∷ cs))

unfoldable pub claim_lookup : List SampleManifestClaim → Text → LookupView
unfolding lookup_rows
claim_lookup claims query = view_of (lookup_rows claims query)
