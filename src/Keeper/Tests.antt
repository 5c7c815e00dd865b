-- ===== src/Keeper/Tests.antt =====
-- The theorems of the keeper at concrete inputs.
mod Steps
mod Postgres
use penny_protocol.Base.Text.{text_leb}
use penny_protocol.Base.Int.{ltb_ℤ, ℤ, pos}
use penny_protocol.Base.{
  Bool, subst, length-append, refl, sym, ◌++◌, length, get_elem?, ◌↔◌, false, true, Option, some,
  [], ◌≡◌, none, ◌∷◌, ◌^◌, List, ℕ,
}
use penny_protocol.Keeper.Ledger.{Line, next_durable_id, open_store, get_durable, DurableStepStore}
use penny_protocol.Keeper.Config.{validate_config, KeeperConfig}
use penny_protocol.Base.Text.{codes, Text}
use penny_protocol.Base.Map.{Map}
use penny_protocol.Keeper.Purchase.Funding.{funding-IsFunded, IsFunded}
use penny_protocol.Keeper.State.{new_memory_store, StepStatus, step_id, StepRecord}
use penny_protocol.Keeper.Ledger.Recovery.{
  durable_run-IsMirror, memory_run, durable_run, Event, IsMirror,
}
use penny_protocol.Keeper.Quotes.Gate.{collect_quotes-IsGated, IsGated}
use penny_protocol.Keeper.Purchase.{no_purchase, purchase, RewardDeposit, funding, PurchaseChain}
use Prim.Native.Nat.{ℕ}
use penny_protocol.Keeper.Quotes.{LifiQuote, collect_quotes, QuoteRequest, Leg}
use penny_protocol.Keeper.Jobs.{root_propose, core_job_order}
use penny_protocol.Keeper.Ledger.Fresh.{next_durable_id-fresh}
use penny_protocol.Keeper.Config.Valid.{validate_config-IsValid, IsValid}
use penny_protocol.Keeper.Purchase.Outcome.{purchase-outcome, IsSwept}
use penny_protocol.Keeper.Pipeline.Assets.{funded_assets-IsAssetList, IsAssetList}
use penny_protocol.Keeper.Publish.{
  publish_if_needed-once, publish_if_needed, IsDistributor, IsPublished, Distributor,
}
use penny_protocol.Keeper.Pipeline.{add_residuals, funded_assets}
use penny_protocol.Base.Result.{ok}
use penny_protocol.Keeper.Monitor.Summary.{summary-IsSummary, IsSummary}
use penny_protocol.Keeper.Monitor.Tally.{run_calls, Call}
use penny_protocol.Keeper.Monitor.{new_monitor, summary}
use penny_protocol.Keeper.Attest.{
  serve_all-claims_of, claims_of, Request, serve_all, AttestationService,
}
use penny_protocol.Indexer.Merkle.{Viem}

abbrev step : StepRecord
step = record {
  cycle_id = codes "c1";
  job = root_propose;
  status = StepStatus.running;
  input_hash = none;
  attempts = 1;
  at_block = some 7;
  last_error = none;
  detail = none;
  updated_at = pos 12;
}

abbrev crash : List Event
crash = Event.put_event step ∷ Event.killed ∷ Event.delete_event (codes "c1:ingest") ∷ []

durable_run-IsMirror_example :
    IsMirror text_leb (durable_run (open_store none) crash) (memory_run new_memory_store crash)
durable_run-IsMirror_example = durable_run-IsMirror text_leb crash

abbrev ledger : DurableStepStore
ledger = open_store (some (Line.record_line step ∷ []))

next_durable_id-fresh_example :
    (get_durable (next_durable_id ledger).1 (step_id (next_durable_id ledger).0 root_propose)
      ≡ none)
    × ((next_durable_id ledger).1.file ≡ ledger.file)
next_durable_id-fresh_example = next_durable_id-fresh ledger root_propose

abbrev weth : Text
weth = codes "0xweth"

abbrev stock : Text
stock = codes "0xstock"

abbrev two_legs : List Leg
two_legs =
    record { token = stock; from_amount = pos 100 }
    ∷ record { token = weth; from_amount = pos 50 }
    ∷ []

abbrev quoted : ℕ → QuoteRequest → Option LifiQuote
quoted i r = some (record {
  tool = codes "fly";
  to_amount = pos 99;
  router = codes "0xr";
  call_data = codes "0x";
})

abbrev priced : ℕ → Text → ℤ
priced i t = pos (10 ^ 18)

collect_quotes-IsGated_example :
    IsGated quoted priced weth stock
      (pos 200)
      two_legs
      (collect_quotes quoted priced weth stock (pos 200) two_legs)
collect_quotes-IsGated_example = collect_quotes-IsGated quoted priced weth stock (pos 200) two_legs

-- A chain whose state is what the collector holds.
abbrev chain : PurchaseChain ℤ
chain = record {
  fee_collector_weth = λ c. c;
  sweep = λ c. (c, pos 0);
  purchase_basket = λ c. (pos 0, c);
  tip = λ c. none;
  rewards_deposited = λ c from to. [];
}

purchase-outcome_example :
    (ltb_ℤ (chain.fee_collector_weth (pos 9)) (pos 5) ≡ true
      → purchase chain (pos 5) (pos 9) 3 ≡ (no_purchase, pos 9))
    × (ltb_ℤ (chain.fee_collector_weth (pos 9)) (pos 5) ≡ false
        → IsSwept chain
            (pos 5)
            (pos 9)
            3
            (purchase chain (pos 5) (pos 9) 3).0
            (purchase chain (pos 5) (pos 9) 3).1)
purchase-outcome_example = purchase-outcome chain (pos 5) (pos 9) 3

abbrev paid : List RewardDeposit
paid = record { block_number = 3; token = stock; amount = pos 40; purchase_index = 0 } ∷ []

abbrev dust : Map Text ℤ
dust = (stock, pos 2) ∷ []

funding-IsFunded_example : IsFunded paid dust (funding paid dust) stock
funding-IsFunded_example = funding-IsFunded paid dust stock

abbrev config : KeeperConfig
config = record {
  chain_id = 4663;
  jobs = core_job_order;
  rescan_window = pos 20;
  min_sweep_wei = pos 5;
  eligibility_threshold = pos 100;
  venue_armed = false;
  excluded = codes "0xa" ∷ [];
  addresses = record {
    reward_vault = codes "0x1";
    fee_collector = codes "0x2";
    basket_buyer = codes "0x3";
    distributor = codes "0x4";
    penny = codes "0x5";
  };
  rpc_url = none;
}

validate_config-IsValid_example : (validate_config config ≡ []) ↔ IsValid config
validate_config-IsValid_example = validate_config-IsValid config

-- A distributor whose state is the roots that were published.
abbrev distributor : Distributor (List Text)
distributor = record {
  epoch_root = get_elem?;
  epoch_count = length;
  publish_epoch = λ c root assets totals hash. (some (length c), c ++ (root ∷ []));
}

get_elem?-last : (c : List Text) (root : Text) → get_elem? (c ++ (root ∷ [])) (length c) ≡ some root
get_elem?-last [] root = refl
get_elem?-last (x ∷ c) root = get_elem?-last c root

distributor-IsDistributor : IsDistributor distributor
distributor-IsDistributor = record {
  activated = λ c root assets totals hash n h.
      let same : length c ≡ n = cc h in
      (
        sym same,
        length-append c (root ∷ []),
        subst (λ m. get_elem? (c ++ (root ∷ [])) m ≡ some root) same (get_elem?-last c root),
      );
}

publish_if_needed-once_example :
    IsPublished distributor [] stock [] 0 [] weth
      (record { published = true; epoch_index = 0; root = stock })
      (publish_if_needed distributor [] stock [] 0 [] weth).1
publish_if_needed-once_example =
    publish_if_needed-once distributor [] stock [] 0 [] weth distributor-IsDistributor sent
  where
    sent :
        (publish_if_needed distributor [] stock [] 0 [] weth).0
        ≡ ok (record { published = true; epoch_index = 0; root = stock })
    sent = unfold publish_if_needed in refl

funded_assets-IsAssetList_example : IsAssetList dust dust (funded_assets (add_residuals dust dust))
funded_assets-IsAssetList_example = funded_assets-IsAssetList dust dust

abbrev one_cycle : List Call
one_cycle =
    Call.begin_call (codes "c1") 10
    ∷ Call.record_call step (some 4)
    ∷ Call.heartbeat_call
    ∷ Call.end_call (codes "c1") false 20
    ∷ []

summary-IsSummary_example : IsSummary one_cycle (summary (run_calls new_monitor one_cycle))
summary-IsSummary_example = summary-IsSummary one_cycle

abbrev service : AttestationService
service = record { threshold = pos 5; chain_id = 4663; distributor = weth; claims = [] }

abbrev signs : ℤ → Text → Text → Bool → Option Text
signs now wallet scope met = some scope

abbrev hashes : Viem
hashes = record {
  keccak256 = λ t. t;
  concat_hex = λ ts. [];
  to_hex = λ t. t;
  encode_leaf = λ w amounts. w;
  encodes = λ w amounts. true;
}

abbrev packed : Text → ℕ → Text → ℕ → Text → Text
packed tag chain_id at epoch_index root = tag ++ root

abbrev requests : List Request
requests = Request.attest_request stock (pos 9) 0 weth (pos 1) ∷ []

serve_all-claims_of_example :
    (serve_all hashes packed signs service requests).claims
    ≡ service.claims ++ claims_of hashes packed signs (pos 5) 4663 weth requests
serve_all-claims_of_example = serve_all-claims_of hashes packed signs service requests
