-- ===== src/Keeper/System.antt =====
-- The keeper over many cycles (Keeper.runCycle of services/keeper/src/keeper.ts), where the process
-- may be killed between any two of its acts and others may publish: what can be reached.
pub mod Sound
pub mod Steps
pub mod Records
pub mod Reached
use penny_protocol.Keeper.Steps.{KeeperSpec, Cycle, Chain, Host}
use penny_protocol.Keeper.Cycle.{run_jobs, run_cycle, attempt, start_cycle}
use penny_protocol.Base.{◌∷◌, ◌++◌, List, some, Option, ◌≡◌, ℕ}
use Prim.Native.Nat.{ℕ}
use penny_protocol.Base.Text.{Text}
use penny_protocol.Base.Int.{ℤ}
use penny_protocol.Indexer.Store.{MemoryStore}
use penny_protocol.Keeper.Monitor.{Monitor}
use penny_protocol.Keeper.Jobs.{JobName}

-- Every root that the chain carries stays.
abbrev pub KeepsRoots : {C : Type 0} → Chain C → C → C → Type 0
KeepsRoots adapter c c' =
    (n : ℕ) (root : Text)
    → adapter.distributor.epoch_root c n ≡ some root
    → adapter.distributor.epoch_root c' n ≡ some root

module _ {C S : Type 0} (k : KeeperSpec C S) where
  -- A cycle that has run these jobs.
  abbrev pub after_jobs : (ℕ → ℤ) → C → S → MemoryStore → Option Monitor → List JobName → Cycle C S
  after_jobs clock c s indexed metrics jobs =
      let (cycle_id, w) = start_cycle k clock c s indexed in
      let ran = run_jobs k cycle_id clock 1 jobs w metrics in ran.world

  -- A whole cycle; a cycle killed once its name is allocated; one killed after a job, before its
  -- record is put, and one killed between two jobs (a failed job may have gone before, which is more
  -- than the source allows); and a time in which others act on the chain.
  pub data Move (c : C) (s : S) (c' : C) (s' : S) : Type 0 where
    cycled :
        (clock : ℕ → ℤ) (indexed : MemoryStore) (metrics : Option Monitor)
        → c' ≡ (run_cycle k clock c s indexed metrics).1.world.chain
        → s' ≡ (run_cycle k clock c s indexed metrics).1.world.ledger
        → Move c s c' s'
    killed_early : c' ≡ c → s' ≡ (k.store.next_cycle_id s).1 → Move c s c' s'
    killed_after :
        (clock : ℕ → ℤ) (indexed : MemoryStore) (metrics : Option Monitor) (pre post : List JobName)
        (job : JobName) (w : Cycle C S)
        → k.config.jobs ≡ pre ++ (job ∷ post)
        → w ≡ after_jobs clock c s indexed metrics pre
        → c' ≡ (attempt k job w).1.chain
        → s' ≡ (attempt k job w).1.ledger
        → Move c s c' s'
    killed_between :
        (clock : ℕ → ℤ) (indexed : MemoryStore) (metrics : Option Monitor) (pre post : List JobName)
        (w : Cycle C S)
        → k.config.jobs ≡ pre ++ post
        → w ≡ after_jobs clock c s indexed metrics pre
        → c' ≡ w.chain
        → s' ≡ w.ledger
        → Move c s c' s'
    others_acted : KeepsRoots k.adapter c c' → s' ≡ s → Move c s c' s'

  pub data Reach (c : C) (s : S) : C → S → Type 0 where
    here : Reach c s c s
    next :
        {c' : C} {s' : S} {c'' : C} {s'' : S}
        → Reach c s c' s'
        → Move c' s' c'' s''
        → Reach c s c'' s''
