-- ===== src/Keeper/Tests/Steps.antt =====
-- A small keeper, chain and epoch on which the theorems of the steps are applied.
mod Recovery
mod Cycles
mod Reached
mod Live
use penny_protocol.Keeper.Tests.{
  pos, RewardDeposit, Text, ℕ, List, distributor, config, hashes, stock, weth,
}
use penny_protocol.Keeper.StepStore.{memory_step_store}
use penny_protocol.Keeper.Steps.{whole, ParsedCursor, Chain, Host, Cycle, ProposeIntent, KeeperSpec}
use penny_protocol.Keeper.Pipeline.{empty_cursor, EpochCursor}
use penny_protocol.Base.{
  nat_beq, if◌then◌else◌, ap, arith, false, filter_by, ◌≡◌, some, ◌-◌, ◌++◌, refl, zero, ◌+◌,
  length, true, none, suc, ◌∷◌, [], Bool, Option, List, ℕ,
}
use penny_protocol.Indexer.Epoch.{EpochResult}
use penny_protocol.Indexer.Ingest.{SnapshotResult}
use penny_protocol.Indexer.Events.{BlockHeader}
use penny_protocol.Base.Text.{text_leb, codes, Text}
use penny_protocol.Keeper.Steps.Funded.{in_window, IsDepositLog}
use penny_protocol.Keeper.Purchase.{RewardDeposit}
use penny_protocol.Keeper.Jobs.{core_job_order, JobName}
use penny_protocol.Keeper.Steps.Frame.{IsSeparate}
use penny_protocol.Keeper.State.{new_memory_store, MemoryStepStore}
use penny_protocol.Base.Int.{negsuc, neg_part, ℤ, pos_part, pos}
use penny_protocol.Indexer.Store.{empty_store}
use penny_protocol.Keeper.Steps.Release.{slice}
use penny_protocol.Indexer.Manifest.{Json}

-- A chain whose state is the roots that were published; its tip moves with each, and it has one
-- deposit, in block 3.
abbrev log : List RewardDeposit
log = record { block_number = 3; token = stock; amount = pos 40; purchase_index = 0 } ∷ []

abbrev toy_chain : Chain (List Text)
toy_chain = record {
  purchases = record {
    fee_collector_weth = λ c. pos 0;
    sweep = λ c. (pos 0, c);
    purchase_basket = λ c. (pos 0, c);
    tip = λ c. some (record { number = 9 + length c; hash = weth; parent_hash = stock });
    rewards_deposited = λ c from to. filter_by (in_window (from - 1) to) log;
  };
  distributor = distributor;
  get_blocks = λ c from to. [];
  vault_balance = λ c token. pos 100;
  market_session_open = λ c. true;
  sweep_enabled = λ c. true;
}

toy_chain-IsSeparate : IsSeparate toy_chain
toy_chain-IsSeparate = record {
  of_sweep = λ c. record { epoch_root = λ n. refl; epoch_count = refl };
  of_purchase = λ c. record { epoch_root = λ n. refl; epoch_count = refl };
}

toy_chain-IsDepositLog : (c : List Text) → IsDepositLog toy_chain log c
toy_chain-IsDepositLog c from to =
    let same : from + 1 - 1 ≡ from = omega arith in ap (λ f. filter_by (in_window f to) log) same

-- Texts of cursors with empty maps, and of intents: the numbers stand first.
abbrev write_cursor : EpochCursor → Text
write_cursor c =
    c.finalized_block
    ∷ pos_part c.epoch_index
    ∷ neg_part c.epoch_index
    ∷ c.funded_up_to_block
    ∷ c.root

abbrev of_parts : ℕ → ℕ → ℤ
of_parts a b = if nat_beq b 0 then pos a else negsuc (b - 1)

abbrev parse_cursor : Text → Option ParsedCursor
parse_cursor [] = none
parse_cursor (f ∷ []) = none
parse_cursor (f ∷ a ∷ []) = none
parse_cursor (f ∷ a ∷ b ∷ []) = none
parse_cursor (f ∷ a ∷ b ∷ w ∷ root) = some (
    whole (record {
      finalized_block = f;
      epoch_index = of_parts a b;
      root = root;
      residual = [];
      cumulative = [];
      funded_up_to_block = w;
    }))

abbrev write_intent : ProposeIntent → Text
write_intent i =
    i.epoch_index
    ∷ i.snapshot_block
    ∷ length i.root
    ∷ length i.content_hash
    ∷ (i.root ++ (i.content_hash ++ i.next_cursor))

abbrev drop : ℕ → Text → Text
drop zero t = t
drop (suc n) [] = []
drop (suc n) (c ∷ t) = drop n t

abbrev parse_intent : Text → Option ProposeIntent
parse_intent [] = none
parse_intent (a ∷ []) = none
parse_intent (a ∷ b ∷ []) = none
parse_intent (a ∷ b ∷ c ∷ []) = none
parse_intent (a ∷ b ∷ c ∷ d ∷ rest) = some (record {
  root = slice c rest;
  epoch_index = a;
  snapshot_block = b;
  content_hash = slice d (drop c rest);
  funded = [];
  next_cursor = drop d (drop c rest);
})

abbrev toy_host : Host
toy_host = record {
  viem = hashes;
  quote = λ t. t;
  stringify_cursor = write_cursor;
  parse_cursor = parse_cursor;
  stringify_intent = write_intent;
  parse_intent = parse_intent;
  message = λ e. codes "error";
  join_errors = λ es. codes "errors";
  generated_at = codes "now";
}

abbrev locale : Text → Text → Bool
locale = text_leb

abbrev toy : List JobName → KeeperSpec (List Text) MemoryStepStore
toy jobs = record {
  adapter = toy_chain;
  indexer = record {
    source = record { get_blocks = λ from to. []; get_transfers = λ from to. [] };
    confirmation_depth = 2;
    threshold = pos 100;
    excluded = [];
  };
  store = memory_step_store locale;
  config = record config { jobs = jobs; venue_armed = true };
  host = toy_host;
  lands = λ r. true;
}

abbrev block : BlockHeader
block = record { number = 2; hash = weth; parent_hash = stock }

abbrev shot : SnapshotResult
shot = record {
  block = block;
  balances = [];
  eligibility = record { wallets = []; total_eligible_supply = pos 0 };
  total_eligible_supply = pos 0;
  confirmed_depth = pos 2;
}

abbrev first_epoch : EpochResult
first_epoch = record {
  taken = shot;
  epoch_index = 0;
  assets = [];
  root = stock;
  leaves = [];
  wallets = [];
  new_cumulative = [];
  proofs = [];
  distributed_totals = [];
  residual = [];
  reconciled = record { ok = true; errors = [] };
  manifest = record {
    meta = record { generated_at = codes "now"; software_version = []; commit = none };
    payload = Json.null;
    canonical_json = codes "null";
    content_hash = weth;
  };
}

-- A cycle that has built its epoch.
abbrev built : Cycle (List Text) MemoryStepStore
built = record {
  chain = [];
  ledger = new_memory_store;
  indexed = empty_store;
  ctx = record {
    cycle_id = codes "c1";
    cursor = empty_cursor;
    ingest = none;
    purchase = none;
    deposits = none;
    funded = none;
    funding_tip = some 7;
    assets = some [];
    snapshot = some shot;
    epoch = some first_epoch;
    relay_armed = false;
    deliveries = none;
    claim_for_many = none;
  };
}

abbrev keeper : KeeperSpec (List Text) MemoryStepStore
keeper = toy core_job_order
