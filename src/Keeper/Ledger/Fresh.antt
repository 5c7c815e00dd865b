-- ===== src/Keeper/Ledger/Fresh.antt =====
-- A new cycle's name is never one that the ledger has a record of.
use penny_protocol.Base.Map
use penny_protocol.Base.{ap, ◌∙◌, sym, subst, Option-cases, ◌+◌, inr}
use penny_protocol.Keeper.Ledger.{
  show, Text, codes, JobName, DurableStepStore, ℕ, cycle_number, get_durable, max_cycle,
  next_durable_id,
}
use penny_protocol.Keeper.State.{step_id}
use penny_protocol.Base.{
  inr, [], inl, ◌==◌, get_or, max, Bool-cases, ◌∷◌, refl, some, arith, none, ◌++◌, ◌≤◌, true, ◌≡◌,
  List, ℕ,
}
use penny_protocol.Keeper.Jobs.{JobName}
use penny_protocol.Base.Text.{text_eq, text_beq_iff, codes, Text}
use penny_protocol.Base.Decimal.{read_digits-show, read_digits, show-digit, show}

max_cycle-at_least : (top : ℕ) (keys : List Text) → top ≤ max_cycle top keys
unfolding max_cycle
max_cycle-at_least top [] = omega arith
max_cycle-at_least top (k ∷ ks) =
    omega (arith, max_cycle-at_least (max top (get_or (cycle_number k) top)) ks)

max_cycle-covers :
    (top : ℕ) (keys : List Text) (key : Text) (n : ℕ)
    → Map.contains keys key ≡ true
    → cycle_number key ≡ some n
    → n ≤ max_cycle top keys
unfolding max_cycle Map.contains
max_cycle-covers top [] key n c h = absurd (cc c)
max_cycle-covers top (k ∷ ks) key n c h = elim (Bool-cases (k == key)) [
  | inl here ↦
      let found : get_or (cycle_number k) top ≡ n = rw ((text_beq_iff k key).0 here, h) refl in
      omega (arith, found, max_cycle-at_least (max top (get_or (cycle_number k) top)) ks)
  | inr later ↦ max_cycle-covers (max top (get_or (cycle_number k) top)) ks key n (rw later at c) h
]

-- The number of a step's key is that of its cycle.
cycle_number-step_id :
    (n : ℕ) (job : JobName) → cycle_number (step_id (codes "c" ++ show n) job) ≡ some n
unfolding step_id cycle_number
cycle_number-step_id n job =
    let (d, rest, same, digit) = show-digit n (codes ":" ++ job) in
    subst (λ t. cycle_number (99 ∷ t) ≡ some n) (sym same)
      (rw digit (
        ap (λ (r : ℕ × Text). some r.0)
          (ap (read_digits 0) (sym same) ∙ read_digits-show n (codes ":" ++ job) refl)))

-- A step of a newly named cycle has no record, whatever the job, and naming it writes nothing.
pub next_durable_id-fresh :
    (s : DurableStepStore) (job : JobName)
    → (get_durable (next_durable_id s).1 (step_id (next_durable_id s).0 job) ≡ none)
      × ((next_durable_id s).1.file ≡ s.file)
unfolding next_durable_id get_durable
next_durable_id-fresh s job = (
  elim (Option-cases (Map.get s.records key)) [
    | inl none_there ↦ none_there
    | inr (r, found) ↦
        let listed = Map.contains-keys s.records key ∙ Map.has-get s.records key r found in
        absurd (
          omega (
            arith,
            max_cycle-covers s.counter (Map.keys s.records) key (next + 1) listed
                (cycle_number-step_id (next + 1) job),
          ))
  ],
  refl,
)
  where
    next : ℕ
    next = max_cycle s.counter (Map.keys s.records)

    key : Text
    key = step_id (codes "c" ++ show (next + 1)) job
