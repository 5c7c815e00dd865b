-- ===== src/Indexer/Tests/Build.antt =====
-- Building an epoch, and what the keeper does with it, at a concrete input.
use penny_protocol.Base.{◌⊎◌, inl, inr}
use penny_protocol.Base.Map
use penny_protocol.Base.Sort.{sort}
use penny_protocol.Base.Text.{to_lower}
use penny_protocol.Base.Int.{◌-ℤ◌, pos_part, ◌+ℤ◌, pos}
use penny_protocol.Indexer.Cumulative.{CumulativeByAsset}
use penny_protocol.Base.{
  nat_beq, arith, refl, true, if◌then◌else◌, some, none, nat_eq, ◌∷◌, ◌≡◌, [], ◌<◌,
}
use penny_protocol.Indexer.Ingest.{SnapshotResult, snapshot, Indexer}
use penny_protocol.Indexer.Snapshot.{balances_at, eligible}
use penny_protocol.Base.Map.{IsMap, Map}
use penny_protocol.Indexer.Store.{transfers, block_at, MemoryStore, latest_block}
use penny_protocol.Base.Text.{text_beq, text_eq, codes}
use penny_protocol.Base.Result.{err, ok}
use penny_protocol.Indexer.Ingest.Finality.{taken_at, snapshot-outcome}
use penny_protocol.Indexer.Manifest.{Json}
use penny_protocol.Indexer.Epoch.{build_epoch, EpochSpec, EpochResult}
use penny_protocol.Indexer.Epoch.Settled.{IsFundable}
use penny_protocol.Indexer.Epoch.Total.{IsRefused, build_epoch-IsEpoch, IsEpoch}
use penny_protocol.Indexer.Tests.{
  Error, two_holders, two_holders-IsMap, toy_viem, mint, payment, next_block, indexer, usd,
}
use penny_protocol.Keeper.Pipeline.{
  manifest_validate, index_mismatch, cursor_of, to_cumulative, parse_record,
}
use penny_protocol.Keeper.Pipeline.Validate.{manifest_validate-build_epoch}
use penny_protocol.Keeper.Pipeline.Cursor.{cursor_of-to_cumulative}
use penny_protocol.Indexer.Events.{Error}

abbrev stored : MemoryStore
stored = record {
  blocks = (8, next_block) ∷ [];
  log_rows = (codes "5:0:0", mint) ∷ (codes "6:1:0", payment) ∷ [];
}

abbrev spec : EpochSpec
spec = record {
  chain_id = 1;
  distributor = codes "0xd";
  epoch_index = 0;
  assets = usd ∷ [];
  funded_totals = (usd, pos 5) ∷ [];
  vault_balances = (usd, pos 8) ∷ [];
  prior_cumulative = none;
  exclusions = none;
  at_block = some 8;
  meta = record { generated_at = []; software_version = codes "1"; commit = none };
}

abbrev final : Indexer
final = record indexer { confirmation_depth = 0 }

abbrev taken : SnapshotResult
taken = taken_at final stored next_block 8 next_block

stored_top : latest_block stored ≡ some next_block
unfolding latest_block Map.values
stored_top = refl

taken_there : snapshot final stored (some 8) ≡ ok taken
unfolding block_at Map.get
taken_there = (snapshot-outcome final stored (some 8)).1 next_block stored_top

taken-IsFundable : IsFundable final taken spec
unfolding Map.get Map.contains sort Map.values text_beq to_lower Map.set ◌-ℤ◌
taken-IsFundable = record {
  threshold = omega arith;
  some_asset = omega arith;
  distinct = (refl, tt);
  funded = (omega arith, tt);
  in_vault = (omega arith, tt);
  some_supply = some_supply;
}
  where
    some_supply :
        0 < pos_part (eligible taken.balances final.threshold final.excluded).total_eligible_supply
    some_supply = unfold eligible Map.contains ◌+ℤ◌ balances_at transfers in omega arith

build_epoch-IsEpoch_example :
    ((r : EpochResult) × (build_epoch toy_viem (λ t. t) final stored spec ≡ ok r)
      × IsEpoch toy_viem (λ t. t) final stored spec r)
    ⊎ ((build_epoch toy_viem (λ t. t) final stored spec ≡ err Error.not_encodable)
        × IsRefused toy_viem (λ t. t) final taken spec)
build_epoch-IsEpoch_example =
    build_epoch-IsEpoch toy_viem (λ t. t) final stored spec taken taken_there taken-IsFundable

built :
    (r : EpochResult) × (build_epoch toy_viem (λ t. t) final stored spec ≡ ok r)
    × IsEpoch toy_viem (λ t. t) final stored spec r
built = elim build_epoch-IsEpoch_example [
  | inl made ↦ made
  | inr (thrown, refused) ↦ absurd (cc refused.refused)
]

manifest_validate-build_epoch_example :
    manifest_validate toy_viem (λ t. t) built.0 1
    ≡ ok (if nat_beq built.0.epoch_index 1 then [] else index_mismatch built.0.epoch_index 1 ∷ [])
manifest_validate-build_epoch_example =
    manifest_validate-build_epoch toy_viem (λ t. t) final stored spec built.0 1 built.1

abbrev owed : CumulativeByAsset
owed = (usd, two_holders) ∷ []

abbrev epoch : EpochResult
epoch = record {
  taken = taken;
  epoch_index = 0;
  assets = usd ∷ [];
  root = usd;
  leaves = [];
  wallets = [];
  new_cumulative = owed;
  proofs = [];
  distributed_totals = [];
  residual = two_holders;
  reconciled = record { ok = true; errors = [] };
  manifest = record {
    meta = spec.meta;
    payload = Json.null;
    canonical_json = [];
    content_hash = [];
  };
}

owed-IsMap : IsMap owed
unfolding Map.has
owed-IsMap = (refl, tt)

cursor_of-to_cumulative_example :
    (to_cumulative (cursor_of epoch taken two_holders 9).cumulative ≡ ok epoch.new_cumulative)
    × (parse_record [] (cursor_of epoch taken two_holders 9).residual ≡ ok two_holders)
cursor_of-to_cumulative_example =
    cursor_of-to_cumulative epoch taken two_holders 9 (owed-IsMap, (two_holders-IsMap, tt))
      two_holders-IsMap
