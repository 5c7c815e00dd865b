-- ===== src/Keeper/Ledger.antt =====
-- services/keeper/src/ledger.ts: the step store on an append-only file.
pub mod Recovery
pub mod Fresh
use penny_protocol.Base.Map
use penny_protocol.Base.{
  some, ltb, ◌&&◌, nat_beq, ◌+◌, [], if◌then◌else◌, max, ◌∷◌, ◌++◌, get_or, Bool, none, List,
  Option, ℕ,
}
use penny_protocol.Keeper.State.{history_of, key_of, StepRecord}
use penny_protocol.Base.Text.{text_eq, codes, Text}
use penny_protocol.Base.Map.{Map}
use Prim.Native.Nat.{max, ℕ}
use penny_protocol.Base.Decimal.{read_digits, is_digit, show}
use penny_protocol.Keeper.Jobs.{JobName}

-- The lines of the file by what `replay` makes of them: a blank line or one that `JSON.parse`
-- refuses is skipped, and so is an object that is neither.
pub data Line : Type 0 where
  record_line : StepRecord → Line
  tombstone : Text → Line
  skipped_line : Line

-- The file stands beside what the process holds in memory.
pub record DurableStepStore : Type 0 where
  pub file : List Line
  pub records : Map Text StepRecord
  pub counter : ℕ

-- The number of a key `c<digits>…`, by `/^c(\d+)/`.
unfoldable pub cycle_number : Text → Option ℕ
cycle_number [] = none
cycle_number (c ∷ []) = none
cycle_number (c ∷ d ∷ rest) =
    if nat_beq c 99 && is_digit d then some (read_digits 0 (d ∷ rest)).0 else none

-- The loop over the keys: the largest number that one begins with, or `top`.
unfoldable pub max_cycle : ℕ → List Text → ℕ
unfolding cycle_number
max_cycle top [] = top
max_cycle top (key ∷ keys) = max_cycle (max top (get_or (cycle_number key) top)) keys

unfoldable pub replay_line : Map Text StepRecord → Line → Map Text StepRecord
replay_line records (record_line r) = Map.set records (key_of r) r
replay_line records (tombstone id) = Map.delete records id
replay_line records skipped_line = records

unfoldable pub replay_file : Map Text StepRecord → List Line → Map Text StepRecord
unfolding replay_line
replay_file records [] = records
replay_file records (line ∷ rest) = replay_file (replay_line records line) rest

-- The constructor: a file that does not exist is created empty.
unfoldable pub open_store : Option (List Line) → DurableStepStore
unfolding replay_file max_cycle
open_store found =
    let file = get_or found [] in
    let records = replay_file [] file in
    record { file = file; records = records; counter = max_cycle 0 (Map.keys records) }

module _ (s : DurableStepStore) where
  -- `append`, which is flushed to disk before it returns.
  append_line : Line → List Line
  append_line line = s.file ++ (line ∷ [])

  unfoldable pub get_durable : Text → Option StepRecord
  get_durable id = Map.get s.records id

  unfoldable pub put_durable : StepRecord → DurableStepStore
  unfolding append_line
  put_durable r = record s {
    file = append_line (record_line r);
    records = Map.set s.records (key_of r) r;
  }

  unfoldable pub history_durable : (Text → Text → Bool) → JobName → List StepRecord
  history_durable locale_leb job = history_of locale_leb s.records job

  unfoldable pub delete_durable : Text → DurableStepStore
  unfolding append_line
  delete_durable id = record s {
    file = append_line (tombstone id);
    records = Map.delete s.records id;
  }

  unfoldable pub next_durable_id : Text × DurableStepStore
  unfolding max_cycle
  next_durable_id =
      let next = max_cycle s.counter (Map.keys s.records) in
      (
        codes "c" ++ show (next + 1),
        record s { counter = if ltb s.counter (next + 1) then next + 1 else s.counter },
      )
