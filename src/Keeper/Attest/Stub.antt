-- ===== src/Keeper/Attest/Stub.antt =====
-- `StubSigner` of services/keeper/src/signer.ts, which stands in for the signer where none is needed.
use penny_protocol.Base.{Bool, Option, none, some, if◌then◌else◌}
use penny_protocol.Base.Text.{Text, codes}
use penny_protocol.Indexer.Merkle.{Viem}

abbrev pub default_pattern : Text
default_pattern = codes "0xdeadbeef"

-- `encode_packed` is viem's, on a pattern, a wallet and a scope.
module _ (v : Viem) (encode_packed : Text → Text → Text → Text) (pattern : Text) where
  unfoldable pub stub_sign : Text → Text → Text
  stub_sign wallet scope = v.keccak256 (encode_packed pattern wallet scope)

  unfoldable pub stub_attest : Text → Text → Bool → Option Text
  unfolding stub_sign
  stub_attest wallet scope threshold_met =
      if threshold_met then some (stub_sign wallet scope) else none
