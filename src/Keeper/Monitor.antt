-- ===== src/Keeper/Monitor.antt =====
-- services/keeper/src/monitor.ts: tallies and timers of the steps and the cycles.
pub mod Tally
pub mod Summary
use penny_protocol.Base.Map
use penny_protocol.Base.{
  ltb, nat_beq, get_or, ◌∷◌, ◌++◌, ◌-◌, if◌then◌else◌, Bool, Option, ◌+◌, ℕ, length, List, none,
  some, [],
}
use penny_protocol.Base.Text.{text_eq, Text}
use penny_protocol.Keeper.State.{StepStatus, StepRecord}
use penny_protocol.Base.Map.{Map}

pub record StepCounter : Type 0 where
  pub succeeded : ℕ
  pub skipped : ℕ
  pub failed : ℕ

abbrev pub no_steps : StepCounter
no_steps = record { succeeded = 0; skipped = 0; failed = 0 }

-- Milliseconds are natural numbers; `min` is none for the infinity that it starts from.
pub record Timing : Type 0 where
  pub min_ms : Option ℕ
  pub max_ms : ℕ
  pub total_ms : ℕ
  pub count : ℕ
  pub last_ms : ℕ

abbrev pub no_timing : Timing
no_timing = record { min_ms = none; max_ms = 0; total_ms = 0; count = 0; last_ms = 0 }

-- `if (ms < this.min) this.min = ms`
abbrev pub lower : Option ℕ → ℕ → ℕ
lower none ms = ms
lower (some least) ms = if ltb ms least then ms else least

unfoldable pub push_ms : Timing → ℕ → Timing
push_ms t ms = record {
  min_ms = some (lower t.min_ms ms);
  max_ms = if ltb t.max_ms ms then ms else t.max_ms;
  total_ms = t.total_ms + ms;
  count = t.count + 1;
  last_ms = ms;
}

-- `get()`: nothing until a timing is recorded.
unfoldable pub get_timing : Timing → Option Timing
get_timing t = if nat_beq t.count 0 then none else some t

pub record Monitor : Type 0 where
  pub rows : List StepRecord
  pub heartbeats : ℕ
  pub job_counters : Map Text StepCounter
  pub cycle_starts : Map Text ℕ
  pub step_timing : Timing
  pub cycle_timing : Timing
  pub cycles : ℕ
  pub failed_cycles : ℕ

abbrev pub new_monitor : Monitor
new_monitor = record {
  rows = [];
  heartbeats = 0;
  job_counters = [];
  cycle_starts = [];
  step_timing = no_timing;
  cycle_timing = no_timing;
  cycles = 0;
  failed_cycles = 0;
}

unfoldable pub count_step : StepCounter → StepStatus → StepCounter
count_step c StepStatus.pending = c
count_step c StepStatus.running = c
count_step c StepStatus.succeeded = record c { succeeded = c.succeeded + 1 }
count_step c StepStatus.failed = record c { failed = c.failed + 1 }
count_step c StepStatus.skipped = record c { skipped = c.skipped + 1 }

abbrev pub push_latency : Timing → Option ℕ → Timing
push_latency t none = t
push_latency t (some ms) = push_ms t ms

unfoldable pub record_step : Monitor → StepRecord → Option ℕ → Monitor
unfolding count_step push_ms
record_step m step latency_ms = record m {
  rows = m.rows ++ (step ∷ []);
  step_timing = push_latency m.step_timing latency_ms;
  job_counters =
      Map.set m.job_counters step.job
        (count_step (get_or (Map.get m.job_counters step.job) no_steps) step.status);
}

unfoldable pub heartbeat : Monitor → Monitor
heartbeat m = record m { heartbeats = m.heartbeats + 1 }

-- `now` is `performance.now()`.
unfoldable pub begin_cycle : Monitor → Text → ℕ → Monitor
begin_cycle m cycle_id now = record m {
  cycles = m.cycles + 1;
  cycle_starts = Map.set m.cycle_starts cycle_id now;
}

-- The clock does not run backwards, so that the difference is natural.
abbrev pub push_since : Timing → Option ℕ → ℕ → Timing
push_since t none now = t
push_since t (some start) now = push_ms t (now - start)

unfoldable pub end_cycle : Monitor → Text → Bool → ℕ → Monitor
unfolding push_ms
end_cycle m cycle_id ok now = record m {
  cycle_timing = push_since m.cycle_timing (Map.get m.cycle_starts cycle_id) now;
  cycle_starts = Map.delete m.cycle_starts cycle_id;
  failed_cycles = if ok then m.failed_cycles else m.failed_cycles + 1;
}

pub record MetricsSummary : Type 0 where
  pub steps : ℕ
  pub succeeded : ℕ
  pub skipped : ℕ
  pub failed : ℕ
  pub cycles : ℕ
  pub failed_cycles : ℕ
  pub jobs : Map Text StepCounter
  pub latency_ms : Option Timing
  pub cycle_ms : Option Timing

-- The loop that adds the counters up.
unfoldable pub add_counters : StepCounter → List StepCounter → StepCounter
add_counters total [] = total
add_counters total (c ∷ cs) =
    add_counters
      (record {
        succeeded = total.succeeded + c.succeeded;
        skipped = total.skipped + c.skipped;
        failed = total.failed + c.failed;
      })
      cs

unfoldable pub summary : Monitor → MetricsSummary
unfolding add_counters get_timing
summary m =
    let total = add_counters no_steps (Map.values m.job_counters) in
    record {
      steps = length m.rows;
      succeeded = total.succeeded;
      skipped = total.skipped;
      failed = total.failed;
      cycles = m.cycles;
      failed_cycles = m.failed_cycles;
      jobs = Map.from_entries [] m.job_counters;
      latency_ms = get_timing m.step_timing;
      cycle_ms = get_timing m.cycle_timing;
    }
