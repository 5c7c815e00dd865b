-- ===== src/Keeper/State.antt =====
-- services/keeper/src/state.ts: what the keeper remembers of each step, in memory.
use penny_protocol.Base.Map
use penny_protocol.Base.Result.{ok, ◌>>=◌}
use penny_protocol.Base.Int.{ltb_ℤ, ℤ, int_eq}
use penny_protocol.Base.Map.{Map}
use penny_protocol.Indexer.Merkle.{Viem}
use penny_protocol.Base.{filter_by, ◌==◌, if◌then◌else◌, List, ◌++◌, ℕ, Bool, Option, ◌+◌, []}
use penny_protocol.Base.Text.{text_eq, codes, Text}
use Prim.Native.String.{[]}
use penny_protocol.Keeper.Jobs.{JobName}
use penny_protocol.Indexer.Manifest.{canonicalize, Json}
use penny_protocol.Base.Result.{Result}
use penny_protocol.Indexer.Events.{Error}
use penny_protocol.Base.Sort.{sort}
use penny_protocol.Base.Decimal.{show}

pub data StepStatus : Type 0 where
  pending running succeeded failed skipped : StepStatus

pub record StepRecord : Type 0 where
  pub cycle_id : Text
  pub job : JobName
  pub status : StepStatus
  pub input_hash : Option Text
  pub attempts : ℕ
  pub at_block : Option ℕ
  pub last_error : Option Text
  pub detail : Option Text
  pub updated_at : ℤ

-- `${cycleId}:${job}`
unfoldable pub step_id : Text → JobName → Text
step_id cycle_id job = cycle_id ++ (codes ":" ++ job)

-- The key of a record in the stores.
abbrev pub key_of : StepRecord → Text
key_of r = step_id r.cycle_id r.job

-- `history` sorts by the last update, the latest first, and equal ones by the cycle's name in the
-- order of `localeCompare`, which is `locale_leb`.
unfoldable pub history_leb : (Text → Text → Bool) → StepRecord → StepRecord → Bool
history_leb locale_leb a b =
    if a.updated_at == b.updated_at
    then locale_leb a.cycle_id b.cycle_id
    else ltb_ℤ b.updated_at a.updated_at

unfoldable pub history_of : (Text → Text → Bool) → Map Text StepRecord → JobName → List StepRecord
unfolding history_leb
history_of locale_leb records job =
    sort (history_leb locale_leb) (filter_by (λ r. r.job == job) (Map.values records))

pub record MemoryStepStore : Type 0 where
  pub records : Map Text StepRecord
  pub counter : ℕ

abbrev pub new_memory_store : MemoryStepStore
new_memory_store = record { records = []; counter = 0 }

module _ (s : MemoryStepStore) where
  unfoldable pub get_step : Text → Option StepRecord
  get_step id = Map.get s.records id

  unfoldable pub put_step : StepRecord → MemoryStepStore
  put_step r = record s { records = Map.set s.records (key_of r) r }

  unfoldable pub history : (Text → Text → Bool) → JobName → List StepRecord
  history locale_leb job = history_of locale_leb s.records job

  unfoldable pub delete_step : Text → MemoryStepStore
  delete_step id = record s { records = Map.delete s.records id }

  unfoldable pub next_cycle_id : Text × MemoryStepStore
  next_cycle_id =
      let counter = s.counter + 1 in (codes "c" ++ show counter, record s { counter = counter })

-- `inputHash`
unfoldable pub input_hash_of : Viem → (Text → Text) → Json → Result Error Text
input_hash_of v quote value = do text ← canonicalize quote value; ok (v.keccak256 (v.to_hex text))
