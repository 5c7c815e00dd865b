-- ===== src/Packages/Tests.antt =====
-- The theorems of the packages at concrete inputs.
use penny_protocol.Packages.Sdk.{minimum_expected_output-IsNet, minimum_expected_output, IsNet}
use penny_protocol.Packages.Config.{
  assert_all_verified-IsVerified, IsVerified, Verification, AddressManifest, assert_all_verified,
}
use penny_protocol.Base.{All, arith, ◌↔◌, some, ◌≡◌, ◌∷◌, none, []}
use penny_protocol.Base.Text.{codes}
use Prim.Native.String.{[]}
use penny_protocol.Base.Int.{pos}
use penny_protocol.Base.Result.{ok}

abbrev manifest : AddressManifest
manifest = record {
  generated_at = [];
  schema_version = codes "1";
  entries =
      (
        codes "vault",
        record {
          chain_id = 4663;
          name = codes "Vault";
          symbol = none;
          decimals = none;
          source_url = [];
          verification = Verification.onchain;
          verified_at_block = some 5;
          code_hash = none;
        },
      )
      ∷ [];
}

assert_all_verified-IsVerified_example :
    (assert_all_verified manifest (codes "vault" ∷ []) ≡ ok tt)
    ↔ All (IsVerified manifest) (codes "vault" ∷ [])
assert_all_verified-IsVerified_example =
    assert_all_verified-IsVerified manifest (codes "vault" ∷ [])

minimum_expected_output-IsNet_example :
    IsNet 1_234 300 (minimum_expected_output (pos 1_234) (some (pos 300)))
minimum_expected_output-IsNet_example = minimum_expected_output-IsNet 1_234 300 (omega arith)
