-- ===== src/Keeper/Monitor/Tally.antt =====
-- The summary counts what was recorded.
use penny_protocol.Base.Map
use penny_protocol.Base.{
  inr, inl, ◌==◌, ◌∙◌, Bool-cases, refl, get_or, arith, if◌then◌else◌, not, ℕ, false, ◌+◌, Option,
  List, true, ◌≡◌, Bool, [], ◌∷◌,
}
use penny_protocol.Keeper.Monitor.{
  new_monitor, end_cycle, begin_cycle, Text, no_steps, heartbeat, add_counters, record_step,
  Monitor, count_step, StepCounter,
}
use penny_protocol.Keeper.State.{StepStatus, StepRecord}
use penny_protocol.Base.Text.{text_eq, Text}
use penny_protocol.Base.Map.{Map}

-- The calls that the keeper makes.
pub data Call : Type 0 where
  record_call : StepRecord → Option ℕ → Call
  heartbeat_call : Call
  begin_call : Text → ℕ → Call
  end_call : Text → Bool → ℕ → Call

unfoldable pub run_call : Monitor → Call → Monitor
run_call m (record_call step latency_ms) = record_step m step latency_ms
run_call m heartbeat_call = heartbeat m
run_call m (begin_call cycle_id now) = begin_cycle m cycle_id now
run_call m (end_call cycle_id ok now) = end_cycle m cycle_id ok now

unfoldable pub run_calls : Monitor → List Call → Monitor
unfolding run_call
run_calls m [] = m
run_calls m (c ∷ cs) = run_calls (run_call m c) cs

-- How many calls are such.
unfoldable pub count_calls : (Call → Bool) → List Call → ℕ
count_calls p [] = 0
count_calls p (c ∷ cs) = let rest = count_calls p cs in if p c then rest + 1 else rest

abbrev pub is_record : Call → Bool
is_record (record_call step latency_ms) = true
is_record heartbeat_call = false
is_record (begin_call cycle_id now) = false
is_record (end_call cycle_id ok now) = false

abbrev pub is_begin : Call → Bool
is_begin (record_call step latency_ms) = false
is_begin heartbeat_call = false
is_begin (begin_call cycle_id now) = true
is_begin (end_call cycle_id ok now) = false

abbrev pub is_failed_end : Call → Bool
is_failed_end (record_call step latency_ms) = false
is_failed_end heartbeat_call = false
is_failed_end (begin_call cycle_id now) = false
is_failed_end (end_call cycle_id ok now) = not ok

abbrev pub is_success : StepStatus → Bool
is_success StepStatus.pending = false
is_success StepStatus.running = false
is_success StepStatus.succeeded = true
is_success StepStatus.failed = false
is_success StepStatus.skipped = false

abbrev pub is_failure : StepStatus → Bool
is_failure StepStatus.pending = false
is_failure StepStatus.running = false
is_failure StepStatus.succeeded = false
is_failure StepStatus.failed = true
is_failure StepStatus.skipped = false

abbrev pub is_skip : StepStatus → Bool
is_skip StepStatus.pending = false
is_skip StepStatus.running = false
is_skip StepStatus.succeeded = false
is_skip StepStatus.failed = false
is_skip StepStatus.skipped = true

-- A call that records a step of such a status.
abbrev pub records : (StepStatus → Bool) → Call → Bool
records p (record_call step latency_ms) = p step.status
records p heartbeat_call = false
records p (begin_call cycle_id now) = false
records p (end_call cycle_id ok now) = false

abbrev plus : StepCounter → StepCounter → StepCounter
plus t c = record {
  succeeded = t.succeeded + c.succeeded;
  skipped = t.skipped + c.skipped;
  failed = t.failed + c.failed;
}

-- One of the three counts, `f`, of the steps with a status such that `p`.
pub record IsCount (f : StepCounter → ℕ) (p : StepStatus → Bool) : Type 0 where
  pub starts : f no_steps ≡ 0
  pub adds : (t c : StepCounter) → f (plus t c) ≡ f t + f c
  pub counts :
      (c : StepCounter) (s : StepStatus) → f (count_step c s) ≡ (if p s then f c + 1 else f c)

pub success-IsCount : IsCount (λ c. c.succeeded) is_success
unfolding count_step
success-IsCount = record { starts = refl; adds = λ t c. refl; counts = by_status }
  where
    by_status :
        (c : StepCounter) (s : StepStatus)
        → (count_step c s).succeeded ≡ (if is_success s then c.succeeded + 1 else c.succeeded)
    by_status c StepStatus.pending = refl
    by_status c StepStatus.running = refl
    by_status c StepStatus.succeeded = refl
    by_status c StepStatus.failed = refl
    by_status c StepStatus.skipped = refl

pub failure-IsCount : IsCount (λ c. c.failed) is_failure
unfolding count_step
failure-IsCount = record { starts = refl; adds = λ t c. refl; counts = by_status }
  where
    by_status :
        (c : StepCounter) (s : StepStatus)
        → (count_step c s).failed ≡ (if is_failure s then c.failed + 1 else c.failed)
    by_status c StepStatus.pending = refl
    by_status c StepStatus.running = refl
    by_status c StepStatus.succeeded = refl
    by_status c StepStatus.failed = refl
    by_status c StepStatus.skipped = refl

pub skip-IsCount : IsCount (λ c. c.skipped) is_skip
unfolding count_step
skip-IsCount = record { starts = refl; adds = λ t c. refl; counts = by_status }
  where
    by_status :
        (c : StepCounter) (s : StepStatus)
        → (count_step c s).skipped ≡ (if is_skip s then c.skipped + 1 else c.skipped)
    by_status c StepStatus.pending = refl
    by_status c StepStatus.running = refl
    by_status c StepStatus.succeeded = refl
    by_status c StepStatus.failed = refl
    by_status c StepStatus.skipped = refl

module _ (f : StepCounter → ℕ) (p : StepStatus → Bool) (h : IsCount f p) where
  tally : Map Text StepCounter → ℕ
  tally [] = 0
  tally ((k, c) ∷ m) = f c + tally m

  tally-set :
      (m : Map Text StepCounter) (k : Text) (c : StepCounter)
      → tally (Map.set m k c) + f (get_or (Map.get m k) no_steps) ≡ tally m + f c
  unfolding tally Map.set Map.get
  tally-set [] k c = omega (arith, h.starts)
  tally-set ((j, d) ∷ m) k c = elim (Bool-cases (j == k)) [
    | inl same ↦ rw same (omega arith)
    | inr other ↦ rw other (omega (arith, tally-set m k c))
  ]

  tally-values :
      (t : StepCounter) (m : Map Text StepCounter)
      → f (add_counters t (Map.values m)) ≡ f t + tally m
  unfolding tally Map.values add_counters
  tally-values t [] = omega arith
  tally-values t ((k, c) ∷ m) = tally-values (plus t c) m ∙ omega (arith, h.adds t c)

  tally-run_calls :
      (m : Monitor) (cs : List Call)
      → tally (run_calls m cs).job_counters ≡ tally m.job_counters + count_calls (records p) cs
  unfolding run_calls count_calls record_step heartbeat begin_cycle end_cycle
  tally-run_calls m [] = omega arith
  tally-run_calls m (record_call step latency_ms ∷ cs) =
      let old = get_or (Map.get m.job_counters step.job) no_steps in
      let set = tally-set m.job_counters step.job (count_step old step.status) in
      let one = h.counts old step.status in
      tally-run_calls (record_step m step latency_ms) cs
      ∙ by_status (p step.status) _ _ _ _ _ set one
    where
      by_status :
          (b : Bool) (new before old now rest : ℕ)
          → new + old ≡ before + now
          → now ≡ (if b then old + 1 else old)
          → new + rest ≡ before + (if b then rest + 1 else rest)
      by_status true new before old now rest e g = omega (arith, e, g)
      by_status false new before old now rest e g = omega (arith, e, g)
  tally-run_calls m (heartbeat_call ∷ cs) = tally-run_calls (heartbeat m) cs
  tally-run_calls m (begin_call cycle_id now ∷ cs) = tally-run_calls (begin_cycle m cycle_id now) cs
  tally-run_calls m (end_call cycle_id ok now ∷ cs) =
      tally-run_calls (end_cycle m cycle_id ok now) cs

  -- The counters of a new monitor add up to the count of the calls.
  pub add_counters-run_calls :
      (cs : List Call)
      → f (add_counters no_steps (Map.values (run_calls new_monitor cs).job_counters))
        ≡ count_calls (records p) cs
  unfolding tally
  add_counters-run_calls cs =
      let total = tally-values no_steps (run_calls new_monitor cs).job_counters in
      omega (arith, h.starts, total, tally-run_calls new_monitor cs)
