-- ===== src/Keeper/StepStore/Laws.antt =====
-- The stores in memory and on disk keep the laws of the interface.
use penny_protocol.Base.Map
use penny_protocol.Keeper.StepStore.{
  next_cycle_id, ltb_ℤ, JobName, history, Bool, get_durable, Text, get_step, memory_step_store,
  durable_step_store, IsStepStore,
}
use mathlib.Core.List.{append-nil}
use penny_protocol.Keeper.Ledger.{next_durable_id, history_durable, put_durable, get_durable}
use penny_protocol.Base.Map.{Map}
use penny_protocol.Base.Text.{text_beq_iff, text_eq, Text}
use penny_protocol.Keeper.State.{
  next_cycle_id, history_leb, history_of, history, key_of, put_step, StepRecord, get_step,
}
use penny_protocol.Base.{
  All-of_filter_by, All-filter_by, filter_by-append, inr, ◌∙◌, All-map, arith, refl, inl, All, ◌==◌,
  true, Bool-cases, filter_by, ap, false, [], ◌∷◌, none, ◌≡◌, ◌++◌, Bool,
}
use penny_protocol.Keeper.Jobs.{JobName}
use penny_protocol.Base.Int.{ltb_ℤ}
use penny_protocol.Base.Sort.{All-sort, sort-first, All-of_sort, sort}

values-append :
    (m : Map Text StepRecord) (k : Text) (r : StepRecord)
    → Map.values (m ++ ((k, r) ∷ [])) ≡ Map.values m ++ (r ∷ [])
unfolding Map.values
values-append [] k r = refl
values-append ((j, q) ∷ m) k r = ap (λ l. q ∷ l) (values-append m k r)

has-false : (m : Map Text StepRecord) (k : Text) → Map.get m k ≡ none → Map.has m k ≡ false
has-false m k h = elim (Bool-cases (Map.has m k)) [
  | inl there ↦ let (v, e) = Map.get-some m k there in absurd (cc (h, e))
  | inr gone ↦ gone
]

module _ (locale_leb : Text → Text → Bool) (m : Map Text StepRecord) (r : StepRecord)
    (fresh : Map.get m (key_of r) ≡ none) where
  -- The records of a job after a new record: those before, and the new one if it is of the job.
  of_job-set :
      (job : JobName)
      → filter_by (λ q. q.job == job) (Map.values (Map.set m (key_of r) r))
        ≡ filter_by (λ q. q.job == job) (Map.values m) ++ filter_by (λ q. q.job == job) (r ∷ [])
  of_job-set job =
      ap (λ l. filter_by (λ (q : StepRecord). q.job == job) (Map.values l))
        (Map.set_fresh m (key_of r) r (has-false m (key_of r) fresh))
      ∙ ap (filter_by (λ (q : StepRecord). q.job == job)) (values-append m (key_of r) r)
      ∙ filter_by-append (λ (q : StepRecord). q.job == job) (Map.values m) (r ∷ [])

  history_of-other :
      (job : JobName)
      → (r.job == job) ≡ false
      → history_of locale_leb (Map.set m (key_of r) r) job ≡ history_of locale_leb m job
  unfolding history_of filter_by
  history_of-other job other = ap (sort (history_leb locale_leb)) (
      of_job-set job
      ∙ rw other (append-nil (filter_by (λ (q : StepRecord). q.job == job) (Map.values m))))

  not_before :
      (x : StepRecord) → ltb_ℤ x.updated_at r.updated_at ≡ true → history_leb locale_leb x r ≡ false
  unfolding history_leb
  not_before x h = ground arith

  history_of-latest :
      All
        (λ (q : StepRecord). ltb_ℤ q.updated_at r.updated_at ≡ true)
        (history_of locale_leb m r.job)
      → history_of locale_leb (Map.set m (key_of r) r) r.job ≡ r ∷ history_of locale_leb m r.job
  unfolding history_of filter_by
  history_of-latest later =
      let mine = filter_by (λ (q : StepRecord). q.job == r.job) (Map.values m) in
      let before =
        All-map _ (λ x. history_leb locale_leb x r ≡ false) not_before mine
          (All-of_sort (history_leb locale_leb) _ mine later) in
      ap (sort (history_leb locale_leb))
        (of_job-set r.job ∙ rw ((text_beq_iff r.job r.job).1 refl) refl)
      ∙ sort-first (history_leb locale_leb) mine r before

All-values-set :
    (P : StepRecord → Type 0) (m : Map Text StepRecord) (k : Text) (r : StepRecord)
    → All P (Map.values m)
    → P r
    → All P (Map.values (Map.set m k r))
unfolding Map.values Map.set
All-values-set P [] k r h p = (p, tt)
All-values-set P ((j, q) ∷ m) k r h p = elim (Bool-cases (j == k)) [
  | inl same ↦ rw same (p, h.1)
  | inr other ↦ rw other (h.0, All-values-set P m k r h.1 p)
]

history_of-all :
    (locale_leb : Text → Text → Bool) (p : StepRecord → Bool) (m : Map Text StepRecord)
    (r : StepRecord) (job : JobName)
    → All (λ q. p q ≡ true) (history_of locale_leb m job)
    → ((r.job == job) ≡ true → p r ≡ true)
    → All (λ q. p q ≡ true) (history_of locale_leb (Map.set m (key_of r) r) job)
unfolding history_of
history_of-all locale_leb p m r job h own =
    All-sort (history_leb locale_leb) _ (filter_by (λ (q : StepRecord). q.job == job) _) (
      All-filter_by _ _ (Map.values (Map.set m (key_of r) r)) (
        All-values-set (λ q. (q.job == job) ≡ true → p q ≡ true) m (key_of r) r
          (All-of_filter_by (λ q. p q ≡ true) (λ (q : StepRecord). q.job == job) (Map.values m)
            (All-of_sort (history_leb locale_leb) _ _ h))
          own))

-- The store in memory is one that the steps can rely on.
pub memory_step_store-IsStepStore :
    (locale_leb : Text → Text → Bool) → IsStepStore (memory_step_store locale_leb)
unfolding get_step put_step history next_cycle_id
memory_step_store-IsStepStore locale_leb = record {
  get-put = λ s r id. Map.get-set s.records (key_of r) id r;
  history_other = λ s r job fresh other. history_of-other locale_leb s.records r fresh job other;
  history_latest = λ s r fresh later. history_of-latest locale_leb s.records r fresh later;
  history_all = λ p s r job h own. history_of-all locale_leb p s.records r job h own;
  history_next = λ s job. refl;
}

-- So is the store on disk.
pub durable_step_store-IsStepStore :
    (locale_leb : Text → Text → Bool) → IsStepStore (durable_step_store locale_leb)
unfolding get_durable put_durable history_durable next_durable_id
durable_step_store-IsStepStore locale_leb = record {
  get-put = λ s r id. Map.get-set s.records (key_of r) id r;
  history_other = λ s r job fresh other. history_of-other locale_leb s.records r fresh job other;
  history_latest = λ s r fresh later. history_of-latest locale_leb s.records r fresh later;
  history_all = λ p s r job h own. history_of-all locale_leb p s.records r job h own;
  history_next = λ s job. refl;
}
