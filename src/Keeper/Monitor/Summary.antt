-- ===== src/Keeper/Monitor/Summary.antt =====
-- The summary is a tally of the calls, in whatever order they came.
use penny_protocol.Base.{
  refl, false, true, ◌∙◌, not, if◌then◌else◌, ℕ, Bool, length-append, arith, ◌+◌, ◌≡◌, length, List,
  [], ◌∷◌,
}
use penny_protocol.Keeper.Monitor.{
  new_monitor, end_cycle, begin_cycle, heartbeat, record_step, MetricsSummary, Monitor, summary,
}
use penny_protocol.Keeper.Monitor.Tally.{
  failure-IsCount, skip-IsCount, success-IsCount, add_counters-run_calls, heartbeat_call, end_call,
  begin_call, is_failure, record_call, is_skip, is_failed_end, is_success, records, is_begin,
  is_record, count_calls, Call, run_calls,
}

-- The three counts that are kept outside the counters.
record IsCounted (m : Monitor) (cs : List Call) (r : Monitor) : Type 0 where
  steps : length r.rows ≡ length m.rows + count_calls is_record cs
  cycles : r.cycles ≡ m.cycles + count_calls is_begin cs
  failed_cycles : r.failed_cycles ≡ m.failed_cycles + count_calls is_failed_end cs

run_calls-IsCounted : (m : Monitor) (cs : List Call) → IsCounted m cs (run_calls m cs)
unfolding run_calls count_calls record_step heartbeat begin_cycle end_cycle
run_calls-IsCounted m [] = record {
  steps = omega arith;
  cycles = omega arith;
  failed_cycles = omega arith;
}
run_calls-IsCounted m (record_call step latency_ms ∷ cs) =
    let rest = run_calls-IsCounted (record_step m step latency_ms) cs in
    record {
      steps = omega (arith, rest.steps, length-append m.rows (step ∷ []));
      cycles = rest.cycles;
      failed_cycles = rest.failed_cycles;
    }
run_calls-IsCounted m (heartbeat_call ∷ cs) =
    let rest = run_calls-IsCounted (heartbeat m) cs in
    record { steps = rest.steps; cycles = rest.cycles; failed_cycles = rest.failed_cycles }
run_calls-IsCounted m (begin_call cycle_id now ∷ cs) =
    let rest = run_calls-IsCounted (begin_cycle m cycle_id now) cs in
    record {
      steps = rest.steps;
      cycles = omega (arith, rest.cycles);
      failed_cycles = rest.failed_cycles;
    }
run_calls-IsCounted m (end_call cycle_id ok now ∷ cs) =
    let rest = run_calls-IsCounted (end_cycle m cycle_id ok now) cs in
    record {
      steps = rest.steps;
      cycles = rest.cycles;
      failed_cycles = rest.failed_cycles ∙ by_end ok m.failed_cycles (count_calls is_failed_end cs);
    }
  where
    by_end :
        (b : Bool) (before rest : ℕ)
        → (if b then before else before + 1) + rest ≡ before + (if not b then rest + 1 else rest)
    by_end true before rest = refl
    by_end false before rest = omega arith

-- What a summary says of the calls before it.
pub record IsSummary (cs : List Call) (r : MetricsSummary) : Type 0 where
  pub steps : r.steps ≡ count_calls is_record cs
  pub succeeded : r.succeeded ≡ count_calls (records is_success) cs
  pub skipped : r.skipped ≡ count_calls (records is_skip) cs
  pub failed : r.failed ≡ count_calls (records is_failure) cs
  pub cycles : r.cycles ≡ count_calls is_begin cs
  pub failed_cycles : r.failed_cycles ≡ count_calls is_failed_end cs

-- For every sequence of calls to a new monitor, the summary counts the steps that were recorded, of
-- them those that succeeded, were skipped and failed, over all jobs together, the cycles that began,
-- and those that ended in a failure.
pub summary-IsSummary : (cs : List Call) → IsSummary cs (summary (run_calls new_monitor cs))
unfolding summary
summary-IsSummary cs =
    let kept = run_calls-IsCounted new_monitor cs in
    record {
      steps = omega (arith, kept.steps);
      succeeded = add_counters-run_calls _ _ success-IsCount cs;
      skipped = add_counters-run_calls _ _ skip-IsCount cs;
      failed = add_counters-run_calls _ _ failure-IsCount cs;
      cycles = omega (arith, kept.cycles);
      failed_cycles = omega (arith, kept.failed_cycles);
    }
