-- ===== src/Keeper/StepStore.antt =====
-- The interface StepStore of services/keeper/src/state.ts, which the steps of a cycle use, and the
-- stores that implement it.
pub mod Laws
use penny_protocol.Keeper.State.{
  key_of, StepRecord, MemoryStepStore, get_step, put_step, history, delete_step, next_cycle_id,
}
use penny_protocol.Keeper.Ledger.{
  DurableStepStore, get_durable, put_durable, history_durable, delete_durable, next_durable_id,
}
use penny_protocol.Base.Text.{text_eq, Text}
use penny_protocol.Base.{
  ◌∷◌, true, ltb, All, false, none, some, ◌==◌, List, if◌then◌else◌, ◌≡◌, Bool, Option,
}
use penny_protocol.Keeper.Jobs.{JobName}
use penny_protocol.Base.Int.{ltb_ℤ}

-- The operations on a store whose states are `S`.
pub record StepStore (S : Type 0) : Type 0 where
  pub get : S → Text → Option StepRecord
  pub put : S → StepRecord → S
  pub history : S → JobName → List StepRecord
  pub delete : S → Text → S
  pub next_cycle_id : S → Text × S

abbrev pub memory_step_store : (Text → Text → Bool) → StepStore MemoryStepStore
memory_step_store locale_leb = record {
  get = get_step;
  put = put_step;
  history = λ s job. history s locale_leb job;
  delete = delete_step;
  next_cycle_id = next_cycle_id;
}

abbrev pub durable_step_store : (Text → Text → Bool) → StepStore DurableStepStore
durable_step_store locale_leb = record {
  get = get_durable;
  put = put_durable;
  history = λ s job. history_durable s locale_leb job;
  delete = delete_durable;
  next_cycle_id = next_durable_id;
}

-- What the steps rely on: a record that was put is there under its key; a put leaves the other keys
-- and the history of the other jobs as they were; and a new record later than all of its job heads
-- the job's history; what holds of a job's records and of a new one holds after its put; and the
-- allocation of a cycle's name leaves the histories.
pub record IsStepStore {S : Type 0} (store : StepStore S) : Type 0 where
  pub get-put :
      (s : S) (r : StepRecord) (id : Text)
      → store.get (store.put s r) id ≡ (if key_of r == id then some r else store.get s id)
  pub history_other :
      (s : S) (r : StepRecord) (job : JobName)
      → store.get s (key_of r) ≡ none
      → (r.job == job) ≡ false
      → store.history (store.put s r) job ≡ store.history s job
  pub history_latest :
      (s : S) (r : StepRecord)
      → store.get s (key_of r) ≡ none
      → All (λ q. ltb_ℤ q.updated_at r.updated_at ≡ true) (store.history s r.job)
      → store.history (store.put s r) r.job ≡ r ∷ store.history s r.job
  pub history_all :
      (p : StepRecord → Bool) (s : S) (r : StepRecord) (job : JobName)
      → All (λ q. p q ≡ true) (store.history s job)
      → ((r.job == job) ≡ true → p r ≡ true)
      → All (λ q. p q ≡ true) (store.history (store.put s r) job)
  pub history_next :
      (s : S) (job : JobName) → store.history (store.next_cycle_id s).1 job ≡ store.history s job
