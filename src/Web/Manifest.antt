-- ===== src/Web/Manifest.antt =====
-- apps/web/app/lib/manifest.ts: the sample manifest that the pages show. Its file is read outside
-- of the model.
use penny_protocol.Base.Text.{Text}
use penny_protocol.Base.{Option, List, ℕ, Bool}
use Prim.Native.Nat.{ℕ}
use penny_protocol.Base.Map.{Map}

pub record SampleManifestAsset : Type 0 where
  pub ticker : Text
  pub name : Text
  pub decimals : ℕ
  pub reward_pool : Text
  pub placeholder_address : Text

pub record SampleManifestClaim : Type 0 where
  pub wallet : Text
  pub is_eligible : Bool
  pub cumulative : Option (Map Text Text)
  pub note : Option Text

pub record SampleManifest : Type 0 where
  pub schema : Text
  pub epoch_index : ℕ
  pub root : Text
  pub snapshot_block : ℕ
  pub assets : List SampleManifestAsset
  pub claims : List SampleManifestClaim
  pub generated_at : Text
  pub content_hash : Text
  pub note : Text
