-- ===== src/Keeper/Tests/Steps/Live.antt =====
-- A whole cycle over a chain with blocks, a holder and a deposit: it publishes an epoch.
use penny_protocol.Indexer.Epoch.{proofs_of, award, build_epoch}
use penny_protocol.Keeper.Steps.Intake.{run_funding, run_basket_purchase, run_snapshot, run_ingest}
use penny_protocol.Keeper.Steps.Release.{
  run_root_activate, run_tree_build, run_root_propose, run_manifest_validate,
}
use penny_protocol.Base.Sort.{sort}
use penny_protocol.Indexer.Store.{latest_block, transfers, upsert_transfers, block_at, upsert_block}
use penny_protocol.Base.Text.{text_beq, text_leb, to_lower}
use penny_protocol.Indexer.Cumulative.{apply_cumulative, is_monotone}
use penny_protocol.Base.Int.{reduce_sum, quot_ℤ, ◌-ℤ◌, ◌+ℤ◌, ◌*ℤ◌}
use penny_protocol.Indexer.Blocks.{is_contiguous}
use penny_protocol.Keeper.State.{
  history, history_of, step_id, input_hash_of, next_cycle_id, put_step,
}
use penny_protocol.Indexer.Ingest.{confirmed_cursor, snapshot, ingest_range}
use penny_protocol.Keeper.Purchase.{purchase, add_deposits}
use penny_protocol.Base.Decimal.{show}
use penny_protocol.Indexer.Manifest.{build_manifest, canonicalize}
use penny_protocol.Base.{zero, inl, suc, inr, some, ◌⊎◌, ◌++◌, get_elem?, filter_by}
use penny_protocol.Indexer.Reconcile.{reconcile}
use penny_protocol.Indexer.Merkle.{root_of, leaf_for, proof_for}
use penny_protocol.Keeper.Pipeline.{to_cumulative, ingest_batch, tree_build, manifest_validate}
use penny_protocol.Keeper.Steps.Recorded.{resume_reason, reconcile_cursor}
use penny_protocol.Keeper.Publish.{publish_if_needed}
use penny_protocol.Indexer.Snapshot.{balances_at, eligible}
use penny_protocol.Keeper.Cycle.{run_cycle}
use penny_protocol.Base.Tabulate.{set_all}
use penny_protocol.Indexer.Snapshot.Allocate.{allocate}
use penny_protocol.Base.Map
use penny_protocol.Keeper.State.{succeeded}
use penny_protocol.Keeper.Tests.Steps.{IsSeparate, empty_store, toy_chain, keeper}
use penny_protocol.Base.{refl, ◌≡◌, ℕ, map, [], ◌∷◌, List, none}
use penny_protocol.Indexer.Events.{BlockHeader, TransferLog, BlockSource}
use penny_protocol.Keeper.Cycle.{run_cycle, Ran, CycleReport}
use penny_protocol.Keeper.Steps.{KeeperSpec}
use penny_protocol.Base.Text.{Text, codes}
use penny_protocol.Indexer.Snapshot.{zero_address}
use penny_protocol.Base.Int.{ℤ, pos}
use penny_protocol.Keeper.State.{new_memory_store, StepRecord, MemoryStepStore}
use penny_protocol.Indexer.Store.{empty_store}
use penny_protocol.Keeper.Steps.Frame.{IsSeparate}
use penny_protocol.Keeper.Steps.Sent.{IsAppending}

abbrev header_7 : BlockHeader
header_7 = record { number = 7; hash = codes "h7"; parent_hash = codes "h6" }

abbrev header_8 : BlockHeader
header_8 = record { number = 8; hash = codes "h8"; parent_hash = codes "h7" }

abbrev header_9 : BlockHeader
header_9 = record { number = 9; hash = codes "h9"; parent_hash = codes "h8" }

abbrev holder_mint : TransferLog
holder_mint = record {
  block_number = 7;
  tx_index = 0;
  log_index = 0;
  from = zero_address;
  to = codes "0xa1";
  amount = pos 150;
}

abbrev source : BlockSource
source = record {
  get_blocks = λ from to. header_7 ∷ header_8 ∷ header_9 ∷ [];
  get_transfers = λ from to. holder_mint ∷ [];
}

abbrev pub live : KeeperSpec (List Text) MemoryStepStore
live = record keeper {
  adapter = record toy_chain { get_blocks = λ c from to. header_7 ∷ header_8 ∷ header_9 ∷ [] };
  indexer = record keeper.indexer { source = source };
}

abbrev pub clock : ℕ → ℤ
clock n = pos n

abbrev ran : CycleReport × Ran (List Text) MemoryStepStore
ran = run_cycle live clock [] new_memory_store empty_store none

pub live-IsSeparate : IsSeparate live.adapter
live-IsSeparate = record {
  of_sweep = λ c. record { epoch_root = λ n. refl; epoch_count = refl };
  of_purchase = λ c. record { epoch_root = λ n. refl; epoch_count = refl };
}

-- A list of roots to which one is appended.
appended :
    (c : List Text) (root : Text) (n : ℕ)
    → (get_elem? (c ++ (root ∷ [])) n ≡ get_elem? c n)
      ⊎ (get_elem? (c ++ (root ∷ [])) n ≡ some root)
appended [] root zero = inr refl
appended [] root (suc n) = inl refl
appended (x ∷ c) root zero = inl refl
appended (x ∷ c) root (suc n) = appended c root n

pub live-IsAppending : IsAppending live.adapter.distributor
live-IsAppending = record { adds = λ c root assets totals hash. appended c root }

-- Every step succeeds, and the root of the one holder's leaf is on the chain.
publishes :
    (ran.0.failing_job ≡ none)
    × (map (λ (s : StepRecord). s.status) ran.0.steps
        ≡ succeeded ∷ succeeded ∷ succeeded ∷ succeeded ∷ succeeded ∷ succeeded ∷ succeeded
          ∷ succeeded ∷ [])
    × (ran.1.world.chain ≡ codes "0xa1" ∷ [])
unfolding proofs_of Map.from_entries run_funding run_root_activate sort latest_block transfers
    text_beq apply_cumulative reduce_sum run_basket_purchase is_contiguous run_snapshot
    upsert_transfers history confirmed_cursor history_of Map.contains purchase award run_tree_build
    show build_manifest filter_by reconcile Map.values build_epoch step_id text_leb root_of Map.has
    leaf_for snapshot to_cumulative resume_reason run_root_propose ingest_range Map.keys
    publish_if_needed balances_at Map.get input_hash_of run_ingest add_deposits eligible run_cycle
    next_cycle_id proof_for Map.set Map.set_of set_all reconcile_cursor run_manifest_validate
    allocate block_at quot_ℤ ingest_batch put_step upsert_block is_monotone tree_build
    manifest_validate canonicalize ◌-ℤ◌ ◌+ℤ◌ ◌*ℤ◌ to_lower
publishes = (refl, refl, refl)
