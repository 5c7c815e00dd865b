-- ===== src/Indexer/Tests.antt =====
-- The theorems of the indexer at concrete inputs.
mod Build
use penny_protocol.Base.Map
use penny_protocol.Base.Sort.{sort}
use penny_protocol.Base.Text.{to_lower}
use penny_protocol.Base.Int.{◌-ℤ◌, ◌≤ℤ◌, pos_part, ◌+ℤ◌, ℤ, pos}
use penny_protocol.Indexer.Events.{Error, TransferLog, BlockHeader, BlockSource}
use penny_protocol.Indexer.Blocks.{is_contiguous}
use penny_protocol.Indexer.Cumulative.{
  of_asset, of_wallet, is_monotone, apply_cumulative, CumulativeByAsset,
}
use penny_protocol.Base.{
  inr, arith, false, ◌↔◌, leb, refl, true, ◌++◌, if◌then◌else◌, some, none, nat_eq, ◌∷◌, ◌≡◌, [],
  ◌≤◌, All, List, ◌≢◌, ◌<◌,
}
use penny_protocol.Indexer.Reconcile.{ReconcileInput, reconcile}
use penny_protocol.Indexer.Ingest.{
  SnapshotResult, snapshot, ingest_range, confirmed_cursor, IngestResult, Indexer,
}
use penny_protocol.Indexer.Cumulative.Laws.{apply_cumulative-IsMerge, IsMerge}
use penny_protocol.Indexer.Snapshot.{
  balances_at, zero_address, eligible, Eligibility, total_supply_of,
}
use penny_protocol.Base.Map.{IsMap, Map}
use penny_protocol.Indexer.Store.{transfers, delete_from_block, block_at, MemoryStore, latest_block}
use penny_protocol.Indexer.Merkle.{verify, proof_for, root_of, Viem}
use penny_protocol.Indexer.Snapshot.Eligible.{eligible-IsElection, IsElection}
use penny_protocol.Base.Text.{text_beq, text_eq, codes, Text}
use penny_protocol.Indexer.Snapshot.Allocate.{allocate}
use penny_protocol.Base.Result.{err, ok}
use penny_protocol.Indexer.Store.Latest.{latest_block-highest}
use penny_protocol.Indexer.Snapshot.Balances.{
  balances_at_lem, sent, received, balance_of, total_supply_of-balances_at, up_to, issued,
}
use penny_protocol.Indexer.Ingest.Taken.{snapshot-IsFinal, IsFinal}
use penny_protocol.Indexer.Ingest.Canonical.{ingest_range-IsIngested, IsIngested}
use penny_protocol.Indexer.Snapshot.Allocate.Correct.{IsAllocation}
use penny_protocol.Indexer.Manifest.{join}
use penny_protocol.Indexer.Blocks.Laws.{is_contiguous_iff, IsLinked}
use penny_protocol.Indexer.Reconcile.Gate.{reconcile_iff, IsSound}
use penny_protocol.Indexer.Store.Rollback.{IsKeyed, IsRolledBack, delete_from_block-IsRolledBack}
use penny_protocol.Indexer.Snapshot.Payout.{allocate-eligible}
use penny_protocol.Indexer.Merkle.Proofs.{verify-proof_for}
use penny_protocol.Indexer.Cumulative.Monotone.{is_monotone_iff}
use penny_protocol.Indexer.Epoch.{build_epoch, EpochSpec, EpochResult}
use penny_protocol.Indexer.Epoch.Settled.{IsFundable}
use penny_protocol.Indexer.Epoch.Total.{build_epoch-IsEpoch, IsEpoch}
use penny_protocol.Indexer.Ingest.Taken.{snapshot-IsFinal, IsFinal}

abbrev alice : Text
alice = codes "0xa"

abbrev bob : Text
bob = codes "0xb"

abbrev usd : Text
usd = codes "usd"

abbrev two_holders : Map Text ℤ
two_holders = (alice, pos 3) ∷ (bob, pos 4) ∷ []

two_holders-IsMap : IsMap two_holders
unfolding Map.has text_beq
two_holders-IsMap = (refl, (refl, tt))

abbrev two_elected : Eligibility
two_elected = eligible two_holders (pos 2) []

allocate-eligible_example :
    (shares : Map Text ℤ) × (allocate two_holders two_elected.wallets
        (pos 10)
        two_elected.total_eligible_supply
      ≡ ok shares)
    × IsAllocation two_holders two_elected.wallets 10
        (pos_part two_elected.total_eligible_supply)
        shares
allocate-eligible_example =
    allocate-eligible two_holders (pos 2) [] 10 two_holders-IsMap (omega arith) (inr some_supply)
  where
    some_supply : 0 < pos_part (eligible two_holders (pos 2) []).total_eligible_supply
    some_supply = unfold eligible Map.contains ◌+ℤ◌ in omega arith

eligible-IsElection_example : IsElection (pos 4) [] two_holders (eligible two_holders (pos 4) [])
eligible-IsElection_example = eligible-IsElection (pos 4) [] two_holders two_holders-IsMap

-- A hash that keeps the text, and an encoding that joins.
abbrev toy_viem : Viem
toy_viem = record {
  keccak256 = λ t. codes "#" ++ t;
  concat_hex = λ ts. join ts;
  to_hex = λ t. t;
  encode_leaf = λ w amounts. w;
  encodes = λ w amounts. true;
}

verify-proof_for_example :
    (root : Text) × (proof : List Text) × (root_of toy_viem (alice ∷ bob ∷ usd ∷ []) ≡ ok root)
    × (proof_for toy_viem (alice ∷ bob ∷ usd ∷ []) 2 ≡ ok proof)
    × (verify toy_viem proof root usd ≡ true)
verify-proof_for_example = verify-proof_for toy_viem (alice ∷ bob ∷ usd ∷ []) 2 usd refl

abbrev mint : TransferLog
mint = record {
  block_number = 5;
  tx_index = 0;
  log_index = 0;
  from = zero_address;
  to = codes "0xA";
  amount = pos 9;
}

abbrev payment : TransferLog
payment = record {
  block_number = 6;
  tx_index = 1;
  log_index = 0;
  from = codes "0xa";
  to = codes "0xb";
  amount = pos 4;
}

abbrev two_logs : List TransferLog
two_logs = mint ∷ payment ∷ []

alice_not_zero : alice ≢ zero_address
alice_not_zero e = cc

balances_at_lem_example :
    balance_of (balances_at two_logs 6) alice
    ≡ received alice (up_to 6 two_logs) -ℤ sent alice (up_to 6 two_logs)
balances_at_lem_example = balances_at_lem two_logs 6 alice alice_not_zero

total_supply_of-balances_at_example :
    total_supply_of (balances_at two_logs 6) ≡ issued (up_to 6 two_logs)
total_supply_of-balances_at_example = total_supply_of-balances_at two_logs 6

abbrev owed_before : CumulativeByAsset
owed_before = (usd, (alice, pos 1) ∷ []) ∷ []

abbrev awards_now : CumulativeByAsset
awards_now = (usd, (alice, pos 2) ∷ (bob, pos 3) ∷ []) ∷ []

abbrev owed_after : CumulativeByAsset
owed_after = (usd, (alice, pos 3) ∷ (bob, pos 3) ∷ []) ∷ []

merge_returns :
    apply_cumulative owed_before (usd ∷ []) awards_now (alice ∷ bob ∷ []) ≡ ok owed_after
unfolding apply_cumulative Map.get Map.set Map.has Map.keys ◌+ℤ◌ text_beq
merge_returns = refl

apply_cumulative-IsMerge_example :
    IsMerge owed_before (usd ∷ []) awards_now (alice ∷ bob ∷ []) owed_after
apply_cumulative-IsMerge_example =
    apply_cumulative-IsMerge owed_before (usd ∷ []) awards_now (alice ∷ bob ∷ []) merge_returns

is_monotone_iff_example : (is_monotone owed_before owed_after (usd ∷ []) ≡ true) ↔ (
    (a w : Text)
    → Map.contains (usd ∷ []) a ≡ true
    → of_wallet (of_asset owed_before a) w ≤ℤ of_wallet (of_asset owed_after a) w)
is_monotone_iff_example = is_monotone_iff owed_before owed_after (usd ∷ [])

abbrev gate_input : ReconcileInput
gate_input = record {
  assets = usd ∷ [];
  funded_totals = (usd, pos 5) ∷ [];
  distributed_totals = (usd, pos 5) ∷ [];
  residuals = (usd, pos 0) ∷ [];
  vault_balances = (usd, pos 8) ∷ [];
  cumulative_prior = owed_before;
  cumulative_new = owed_after;
}

reconcile_iff_example : ((reconcile gate_input).ok ≡ true) ↔ IsSound gate_input
reconcile_iff_example = reconcile_iff gate_input

abbrev genesis : BlockHeader
genesis = record { number = 7; hash = codes "h7"; parent_hash = codes "h6" }

abbrev next_block : BlockHeader
next_block = record { number = 8; hash = codes "h8"; parent_hash = codes "h7" }

abbrev orphan : BlockHeader
orphan = record { number = 8; hash = codes "old"; parent_hash = codes "h7" }

abbrev source : BlockSource
source = record {
  get_blocks = λ from to. genesis ∷ next_block ∷ [];
  get_transfers = λ from to. two_logs;
}

abbrev indexer : Indexer
indexer = record { source = source; confirmation_depth = 1; threshold = pos 2; excluded = [] }

-- A log of the orphaned block.
abbrev dropped : TransferLog
dropped = record mint { block_number = 8 }

abbrev forked : MemoryStore
forked = record {
  blocks = (7, genesis) ∷ (8, orphan) ∷ [];
  log_rows = (codes "5:0:0", mint) ∷ (codes "8:0:0", dropped) ∷ [];
}

forked-IsKeyed : IsKeyed forked
unfolding Map.has text_beq
forked-IsKeyed = record { of_blocks = (refl, (refl, tt)); of_logs = (refl, (refl, tt)) }

ingest_range-IsIngested_example :
    (((r : IngestResult) × (s' : MemoryStore) × (ingest_range indexer forked 7 8 ≡ ok (r, s')))
      ↔ ((7 ≤ 8) × IsLinked (genesis ∷ next_block ∷ [])))
    × ((r : IngestResult) (s' : MemoryStore)
        → ingest_range indexer forked 7 8 ≡ ok (r, s')
        → IsIngested forked (genesis ∷ next_block ∷ []) two_logs r s')
ingest_range-IsIngested_example = ingest_range-IsIngested indexer forked 7 8 forked-IsKeyed

forked_top : latest_block forked ≡ some orphan
unfolding latest_block Map.values
forked_top = refl

snapshot-IsFinal_example : IsFinal indexer forked none orphan
snapshot-IsFinal_example = snapshot-IsFinal indexer forked none orphan forked_top

delete_from_block-IsRolledBack_example : IsRolledBack forked 8 (delete_from_block forked 8).0
delete_from_block-IsRolledBack_example = delete_from_block-IsRolledBack forked 8 forked-IsKeyed

is_contiguous_iff_example :
    (is_contiguous (genesis ∷ next_block ∷ []) ≡ true) ↔ IsLinked (genesis ∷ next_block ∷ [])
is_contiguous_iff_example = is_contiguous_iff (genesis ∷ next_block ∷ [])
