-- ===== src/Packages/Config.antt =====
-- packages/config/src/index.ts: the manifest of verified addresses.
use penny_protocol.Base.Map
use penny_protocol.Base.{
  refl, All, ◌↔◌, ◌≡◌, Option, List, ℕ, none, some, [], ◌∷◌, Bool, true, false,
}
use penny_protocol.Base.Result.{ok_of_throw, ok_of_bind, throw_if, ok, err, Result, ◌>>=◌, ◌>>◌}
use penny_protocol.Base.Text.{text_eq, Text}
use penny_protocol.Base.Map.{Map}

pub data Verification : Type 0 where
  docs_only onchain blocked : Verification

pub record ManifestEntry : Type 0 where
  pub chain_id : ℕ
  pub name : Text
  pub symbol : Option Text
  pub decimals : Option ℕ
  pub source_url : Text
  pub verification : Verification
  pub verified_at_block : Option ℕ
  pub code_hash : Option Text

pub record AddressManifest : Type 0 where
  pub generated_at : Text
  pub schema_version : Text
  pub entries : Map Text ManifestEntry

pub data LookupError : Type 0 where
  missing_entry not_verified : Text → LookupError

unfoldable pub entry : AddressManifest → Text → Option ManifestEntry
entry manifest key = Map.get manifest.entries key

unfoldable pub require_entry : AddressManifest → Text → Result LookupError ManifestEntry
unfolding entry
require_entry manifest key = elim (entry manifest key) [
  | none ↦ err (missing_entry key)
  | some found ↦ ok found
]

abbrev pub is_blocked : Verification → Bool
is_blocked Verification.docs_only = false
is_blocked Verification.onchain = false
is_blocked Verification.blocked = true

unfoldable pub assert_all_verified : AddressManifest → List Text → Result LookupError (Unit {0})
unfolding require_entry
assert_all_verified manifest [] = ok tt
assert_all_verified manifest (key ∷ keys) = do
  e ← require_entry manifest key
  throw_if (is_blocked e.verification) (not_verified key)
  assert_all_verified manifest keys

-- The key has an entry, which is not blocked.
pub record IsVerified (manifest : AddressManifest) (key : Text) : Type 0 where
  pub found : ManifestEntry
  pub listed : Map.get manifest.entries key ≡ some found
  pub unblocked : is_blocked found.verification ≡ false

-- `assertAllVerified` throws nothing exactly when each of the keys has an entry that is not blocked.
pub assert_all_verified-IsVerified :
    (manifest : AddressManifest) (keys : List Text)
    → (assert_all_verified manifest keys ≡ ok tt) ↔ All (IsVerified manifest) keys
unfolding assert_all_verified
assert_all_verified-IsVerified manifest [] = (λ h. tt, λ h. refl)
assert_all_verified-IsVerified manifest (key ∷ keys) =
    let rest = assert_all_verified-IsVerified manifest keys in
    (
      λ h.
          let (e, h1, required) = ok_of_bind (require_entry manifest key) _ tt h in
          let (unblocked, h2) =
            ok_of_throw (is_blocked e.verification) (not_verified key) _ tt h1 in
          (record { found = e; listed = listed_of e required; unblocked = unblocked }, rest.0 h2),
      λ h. rw (required_of h.0.found h.0.listed, h.0.unblocked) (rest.1 h.1),
    )
  where
    listed_of :
        (e : ManifestEntry)
        → require_entry manifest key ≡ ok e
        → Map.get manifest.entries key ≡ some e
    listed_of e h = unfold require_entry entry in by_case (Map.get manifest.entries key) h
      where
        by_case :
            (o : Option ManifestEntry)
            → (elim o as (λ x. Result LookupError ManifestEntry) [
              | none ↦ err (missing_entry key)
              | some found ↦ ok found
            ])
              ≡ ok e
            → o ≡ some e
        by_case none p = absurd (cc p)
        by_case (some x) p = cc p

    required_of :
        (e : ManifestEntry)
        → Map.get manifest.entries key ≡ some e
        → require_entry manifest key ≡ ok e
    required_of e h = rw (h, require_entry) refl
