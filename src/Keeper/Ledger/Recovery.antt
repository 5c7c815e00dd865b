-- ===== src/Keeper/Ledger/Recovery.antt =====
-- The store on disk behaves as the one in memory, however often the process is killed.
use penny_protocol.Base.Map
use penny_protocol.Keeper.Ledger.{
  history_of, JobName, history_durable, get_durable, key_of, replay_line, next_durable_id, Line,
  Text, List, [], delete_durable, put_durable, DurableStepStore, open_store, replay_file,
}
use penny_protocol.Keeper.State.{
  history_of, step_id, history, get_step, key_of, new_memory_store, next_cycle_id, delete_step,
  put_step, StepRecord, MemoryStepStore,
}
use penny_protocol.Base.Map.{Map}
use penny_protocol.Base.{sym, Bool, ap, refl, ◌∙◌, ◌++◌, some, ◌∷◌, none, ◌≡◌, [], List}
use penny_protocol.Base.Text.{text_eq, Text}
use penny_protocol.Keeper.Jobs.{JobName}
use penny_protocol.Keeper.Ledger.Fresh.{next_durable_id-fresh}

-- What happens to a store: the operations that change its records, the allocation of a cycle's
-- name, and a kill of the process, after which the file is opened again.
pub data Event : Type 0 where
  put_event : StepRecord → Event
  delete_event : Text → Event
  allocate_event killed : Event

unfoldable pub durable_step : DurableStepStore → Event → DurableStepStore
durable_step s (put_event r) = put_durable s r
durable_step s (delete_event id) = delete_durable s id
durable_step s allocate_event = (next_durable_id s).1
durable_step s killed = open_store (some s.file)

unfoldable pub durable_run : DurableStepStore → List Event → DurableStepStore
unfolding durable_step
durable_run s [] = s
durable_run s (e ∷ es) = durable_run (durable_step s e) es

-- The store in memory is never killed.
unfoldable pub memory_step : MemoryStepStore → Event → MemoryStepStore
memory_step s (put_event r) = put_step s r
memory_step s (delete_event id) = delete_step s id
memory_step s allocate_event = (next_cycle_id s).1
memory_step s killed = s

unfoldable pub memory_run : MemoryStepStore → List Event → MemoryStepStore
unfolding memory_step
memory_run s [] = s
memory_run s (e ∷ es) = memory_run (memory_step s e) es

replay_file-append :
    (records : Map Text StepRecord) (file : List Line) (line : Line)
    → replay_file records (file ++ (line ∷ [])) ≡ replay_line (replay_file records file) line
unfolding replay_file
replay_file-append records [] line = refl
replay_file-append records (l ∷ file) line = replay_file-append (replay_line records l) file line

-- The file replays to the records, which are those of the store in memory.
record IsSame (s : DurableStepStore) (m : MemoryStepStore) : Type 0 where
  pub recovered : replay_file [] s.file ≡ s.records
  pub same_records : s.records ≡ m.records

-- What a caller reads: each record, the history of a job, and the name of the next cycle, under
-- which neither store has a record yet.
pub record IsMirror (locale : Text → Text → Bool) (s : DurableStepStore) (m : MemoryStepStore)
    : Type 0 where
  pub found : (id : Text) → get_durable s id ≡ get_step m id
  pub told : (job : JobName) → history_durable s locale job ≡ history m locale job
  pub fresh :
      (job : JobName)
      → (get_durable s (step_id (next_durable_id s).0 job) ≡ none)
        × (get_step m (step_id (next_durable_id s).0 job) ≡ none)
  pub reopened : (open_store (some s.file)).records ≡ s.records

step-IsSame :
    (s : DurableStepStore) (m : MemoryStepStore) (e : Event)
    → IsSame s m
    → IsSame (durable_step s e) (memory_step m e)
unfolding durable_step memory_step put_durable put_step delete_durable delete_step next_durable_id
    next_cycle_id open_store
step-IsSame s m (put_event r) h = record {
  recovered =
      replay_file-append [] s.file (Line.record_line r)
      ∙ ap (λ x. Map.set x (key_of r) r) h.recovered;
  same_records = ap (λ x. Map.set x (key_of r) r) h.same_records;
}
step-IsSame s m (delete_event id) h = record {
  recovered =
      replay_file-append [] s.file (Line.tombstone id) ∙ ap (λ x. Map.delete x id) h.recovered;
  same_records = ap (λ x. Map.delete x id) h.same_records;
}
step-IsSame s m allocate_event h = record { recovered = h.recovered; same_records = h.same_records }
step-IsSame s m killed h = record { recovered = refl; same_records = h.recovered ∙ h.same_records }

run-IsSame :
    (s : DurableStepStore) (m : MemoryStepStore) (es : List Event)
    → IsSame s m
    → IsSame (durable_run s es) (memory_run m es)
unfolding durable_run memory_run
run-IsSame s m [] h = h
run-IsSame s m (e ∷ es) h = run-IsSame (durable_step s e) (memory_step m e) es (step-IsSame s m e h)

mirror :
    (locale : Text → Text → Bool) (s : DurableStepStore) (m : MemoryStepStore)
    → IsSame s m
    → IsMirror locale s m
unfolding get_durable get_step history_durable history open_store next_durable_id
mirror locale s m h = record {
  found = λ id. ap (λ x. Map.get x id) h.same_records;
  told = λ job. ap (λ x. history_of locale x job) h.same_records;
  fresh = λ job.
      let (unused, _) = next_durable_id-fresh s job in
      (
        unused,
        ap (λ x. Map.get x (step_id (next_durable_id s).0 job)) (sym h.same_records) ∙ unused,
      );
  reopened = h.recovered;
}

-- For every sequence of puts, deletes, allocations and kills of the process between them, from a
-- new file: each look-up and each history on disk is that of the store in memory after the same
-- puts and deletes with no kill, the next cycle's name is one that neither store has a record of,
-- and opening the file once more gives the same records. The names themselves may differ.
pub durable_run-IsMirror :
    (locale : Text → Text → Bool) (es : List Event)
    → IsMirror locale (durable_run (open_store none) es) (memory_run new_memory_store es)
unfolding open_store
durable_run-IsMirror locale es = mirror locale _ _ (
    run-IsSame (open_store none) new_memory_store es
      (record { recovered = refl; same_records = refl }))
