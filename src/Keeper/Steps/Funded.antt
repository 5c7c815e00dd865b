-- ===== src/Keeper/Steps/Funded.antt =====
-- `runFunding` of services/keeper/src/steps.ts counts each deposit once.
use penny_protocol.Keeper.Jobs
use penny_protocol.Base.Map
use penny_protocol.Base.Text.{text_beq_iff, Text, text_eq}
use penny_protocol.Keeper.Purchase.Funding.{deposited, get-add_deposits, residual_of}
use penny_protocol.Keeper.Purchase.{add_deposits, RewardDeposit}
use penny_protocol.Keeper.Steps.{
  EpochCursor, Ending, ok, StepOutcome, SnapshotResult, EpochResult, ℤ, Option, List, KeeperSpec,
  Cycle, Chain, tip_number,
}
use penny_protocol.Keeper.Steps.Intake.{keep_positive, funded_by, run_funding}
use penny_protocol.Base.{
  ap₂, leb, ◌&&◌, ◌+◌, ltb, ◌≤◌, All, get_or, ℕ, subst, inr, refl, inl, none, ◌==◌, ◌∙◌, Bool-cases,
  ap, arith, ◌∷◌, false, [], some, ◌≡◌, Bool, if◌then◌else◌, filter_by, Option, List,
}
use penny_protocol.Base.Int.{int_laws, ◌≤ℤ◌, ◌+ℤ◌, pos, ltb_ℤ, ℤ}
use penny_protocol.Base.Map.{IsMap, Map}
use penny_protocol.Keeper.Jobs.{JobName}
use penny_protocol.Keeper.Cycle.{seal, put_sealed, attempt}
use penny_protocol.Indexer.Epoch.{EpochResult}
use penny_protocol.Keeper.Steps.Sent.{run_job-funding_tip}
use penny_protocol.Indexer.Ingest.{SnapshotResult}
use penny_protocol.Keeper.Publish.{IsDistributor}
use penny_protocol.Keeper.Steps.Release.{run_root_activate}
use penny_protocol.Base.Result.{ok}
use penny_protocol.Keeper.Steps.Activated.{run_root_activate-IsActivated}
use penny_protocol.Keeper.Pipeline.{cursor_of, EpochCursor}

abbrev is_positive : Text × ℤ → Bool
is_positive e = ltb_ℤ (pos 0) e.1

keep_positive-from_entries :
    (out m : Map Text ℤ) → keep_positive out m ≡ Map.from_entries out (filter_by is_positive m)
unfolding keep_positive filter_by Map.from_entries
keep_positive-from_entries out [] = refl
keep_positive-from_entries out ((token, amount) ∷ rest) = elim (Bool-cases (ltb_ℤ (pos 0) amount)) [
  | inl more ↦ rw more (keep_positive-from_entries (Map.set out token amount) rest)
  | inr dry ↦ rw dry (keep_positive-from_entries out rest)
]

has-filter_by :
    (m : Map Text ℤ) (k : Text) → Map.has m k ≡ false → Map.has (filter_by is_positive m) k ≡ false
unfolding filter_by Map.has
has-filter_by [] k h = refl
has-filter_by ((j, v) ∷ m) k h = ground (arith, has-filter_by m k)

filter_by-IsMap : (m : Map Text ℤ) → IsMap m → IsMap (filter_by is_positive m)
unfolding filter_by
filter_by-IsMap [] h = tt
filter_by-IsMap ((j, v) ∷ m) h = elim (Bool-cases (ltb_ℤ (pos 0) v)) [
  | inl more ↦ rw more (has-filter_by m j h.0, filter_by-IsMap m h.1)
  | inr dry ↦ rw dry (filter_by-IsMap m h.1)
]

-- An amount that is kept.
abbrev kept_amount : Option ℤ → Option ℤ
kept_amount none = none
kept_amount (some v) = if ltb_ℤ (pos 0) v then some v else none

get-filter_by :
    (m : Map Text ℤ) (k : Text)
    → IsMap m
    → Map.get (filter_by is_positive m) k ≡ kept_amount (Map.get m k)
unfolding filter_by Map.get
get-filter_by [] k h = refl
get-filter_by ((j, v) ∷ m) k h = elim (Bool-cases (j == k)) [
  | inr other ↦ ground (arith, get-filter_by m k h.1)
  | inl same ↦
      let gone : Map.get m k ≡ none =
        Map.get-none m k (subst (λ x. Map.has m x ≡ false) ((text_beq_iff j k).0 same) h.0) in
      ground (arith, get-filter_by m k h.1, gone)
]

add_deposits-IsMap :
    (m : Map Text ℤ) (ds : List RewardDeposit) → IsMap m → IsMap (add_deposits m ds)
unfolding add_deposits
add_deposits-IsMap m [] h = h
add_deposits-IsMap m (d ∷ ds) h =
    add_deposits-IsMap (Map.set m d.token (residual_of m d.token +ℤ d.amount)) ds
      (Map.set-IsMap m d.token (residual_of m d.token +ℤ d.amount) h)

-- The larger of an amount and 0.
abbrev pub above_zero : ℤ → ℤ
above_zero n = if ltb_ℤ (pos 0) n then n else pos 0

get-funded_by :
    (ds : List RewardDeposit) (token : Text)
    → Map.get (funded_by ds) token ≡ kept_amount (Map.get (add_deposits [] ds) token)
unfolding funded_by
get-funded_by ds token =
    let per_token = add_deposits [] ds in
    ap (λ m. Map.get m token)
      (keep_positive-from_entries [] per_token
        ∙ Map.from_entries-append [] (filter_by is_positive per_token)
            (filter_by-IsMap per_token (add_deposits-IsMap [] ds tt)))
    ∙ get-filter_by per_token token (add_deposits-IsMap [] ds tt)

kept_amount-above_zero :
    (o : Option ℤ) (d : ℤ) → get_or o (pos 0) ≡ d → get_or (kept_amount o) (pos 0) ≡ above_zero d
kept_amount-above_zero none d e = ap above_zero e
kept_amount-above_zero (some v) d e = elim (Bool-cases (ltb_ℤ (pos 0) v)) [
  | inl more ↦ rw more refl ∙ ap above_zero e
  | inr dry ↦ rw dry refl ∙ ap above_zero e
]

-- What is funded of a token is what was deposited of it, if that is positive.
funded_by-deposited :
    (ds : List RewardDeposit) (token : Text)
    → residual_of (funded_by ds) token ≡ above_zero (deposited token ds)
funded_by-deposited ds token =
    ap (λ o. get_or o (pos 0)) (get-funded_by ds token)
    ∙ kept_amount-above_zero (Map.get (add_deposits [] ds) token) (deposited token ds)
        (get-add_deposits [] ds token ∙ unfold Map.get in omega int_laws)

-- The blocks after `from`, up to `to`.
abbrev pub in_window : ℕ → ℕ → RewardDeposit → Bool
in_window from to d = ltb from d.block_number && leb d.block_number to

-- The adapter answers with the deposits of the blocks that it is asked for, out of one log.
abbrev pub IsDepositLog : {C : Type 0} → Chain C → List RewardDeposit → C → Type 0
IsDepositLog adapter log c =
    (from to : ℕ)
    → adapter.purchases.rewards_deposited c (from + 1) to ≡ filter_by (in_window from to) log

-- Amounts on the chain are not negative.
abbrev pub IsPaid : List RewardDeposit → Type 0
IsPaid = All (λ d. pos 0 ≤ℤ d.amount)

deposited_nonneg :
    (from to : ℕ) (log : List RewardDeposit) (token : Text)
    → IsPaid log
    → pos 0 ≤ℤ deposited token (filter_by (in_window from to) log)
unfolding deposited filter_by
deposited_nonneg from to [] token h = omega int_laws
deposited_nonneg from to (d ∷ log) token h =
    grind (int_laws, deposited_nonneg from to log token h.1)

-- Two windows that meet make one.
deposited-windows :
    (a t u : ℕ) (log : List RewardDeposit) (token : Text)
    → a ≤ t
    → t ≤ u
    → deposited token (filter_by (in_window a t) log)
        +ℤ deposited token (filter_by (in_window t u) log)
      ≡ deposited token (filter_by (in_window a u) log)
unfolding deposited filter_by
deposited-windows a t u [] token p q = omega int_laws
deposited-windows a t u (d ∷ log) token p q =
    grind (int_laws, deposited-windows a t u log token p q)

above_zero_nonneg : (n : ℤ) → pos 0 ≤ℤ n → above_zero n ≡ n
above_zero_nonneg n h = grind int_laws

module _ {C S : Type 0} (k : KeeperSpec C S) where
  -- What the context says is funded of a token.
  abbrev pub funded_of : Cycle C S → Text → ℤ
  funded_of w token = residual_of (get_or w.ctx.funded []) token

  run_funding-funded :
      (w : Cycle C S) (log : List RewardDeposit) (token : Text)
      → IsDepositLog k.adapter log w.chain
      → IsPaid log
      → funded_of (run_funding k w).1 token
        ≡ deposited token (
            filter_by
              (in_window w.ctx.cursor.funded_up_to_block (tip_number k.adapter w.chain))
              log)
  unfolding run_funding
  run_funding-funded w log token law paid =
      let from = w.ctx.cursor.funded_up_to_block in
      let to = tip_number k.adapter w.chain in
      ap (λ raw. residual_of (funded_by raw) token) (law from to)
      ∙ funded_by-deposited (filter_by (in_window from to) log) token
      ∙ above_zero_nonneg _ (deposited_nonneg from to log token paid)

module _ {C S : Type 0} (k : KeeperSpec C S) (cycle_id : Text) (clock : ℕ → ℤ) where
  -- The state after these jobs and the records of their outcomes.
  abbrev pub after_jobs : ℕ → List JobName → Cycle C S → Cycle C S
  after_jobs n [] w = w
  after_jobs n (job ∷ rest) w =
      after_jobs (n + 1) rest
        (put_sealed k (seal cycle_id job (attempt k job w).0 (clock n)) (attempt k job w).1)

  abbrev pub NoFunding : List JobName → Type 0
  NoFunding = All (λ j. (j == Jobs.funding_reconcile) ≡ false)

  after_jobs-funding_tip :
      (n : ℕ) (jobs : List JobName) (w : Cycle C S)
      → NoFunding jobs
      → (after_jobs n jobs w).ctx.funding_tip ≡ w.ctx.funding_tip
  unfolding attempt
  after_jobs-funding_tip n [] w h = refl
  after_jobs-funding_tip n (job ∷ rest) w h =
      after_jobs-funding_tip (n + 1) rest _ h.1 ∙ run_job-funding_tip k job w h.0

  pub run_funding-once :
      (w next : Cycle C S) (n : ℕ) (jobs : List JobName) (log : List RewardDeposit) (token : Text)
      (epoch : EpochResult) (taken : SnapshotResult) (outcome : StepOutcome)
      → IsDistributor k.adapter.distributor
      → IsDepositLog k.adapter log w.chain
      → IsDepositLog k.adapter log next.chain
      → IsPaid log
      → NoFunding jobs
      → let built = after_jobs n jobs (run_funding k w).1 in
        built.ctx.epoch ≡ some epoch
        → built.ctx.snapshot ≡ some taken
        → (run_root_activate k built).0 ≡ ok outcome
        → outcome.status ≡ Ending.succeeded
        → next.ctx.cursor ≡ (run_root_activate k built).1.ctx.cursor
        → w.ctx.cursor.funded_up_to_block ≤ tip_number k.adapter w.chain
        → tip_number k.adapter w.chain ≤ tip_number k.adapter next.chain
        → funded_of k (run_funding k w).1 token +ℤ funded_of k (run_funding k next).1 token
          ≡ deposited token (
              filter_by
                (in_window w.ctx.cursor.funded_up_to_block (tip_number k.adapter next.chain))
                log)
  run_funding-once w next n jobs log token epoch taken outcome distributor law next_law paid others
        there shot done fine begins first second =
      let built = after_jobs n jobs (run_funding k w).1 in
      let a = w.ctx.cursor.funded_up_to_block in
      let t = tip_number k.adapter w.chain in
      let u = tip_number k.adapter next.chain in
      let activated =
        run_root_activate-IsActivated k built epoch taken outcome distributor there shot done in
      let tip : built.ctx.funding_tip ≡ some t =
        after_jobs-funding_tip n jobs (run_funding k w).1 others ∙ (unfold run_funding in refl) in
      let cursor = begins ∙ (activated.cursor fine).0 in
      let at : next.ctx.cursor.funded_up_to_block ≡ t =
        ap (λ (x : EpochCursor). x.funded_up_to_block) cursor
        ∙ (unfold cursor_of in ap (λ o. get_or o epoch.taken.block.number) tip) in
      ap₂ (λ x y. x +ℤ y) (run_funding-funded k w log token law paid)
        (run_funding-funded k next log token next_law paid
          ∙ ap (λ b. deposited token (filter_by (in_window b u) log)) at)
      ∙ deposited-windows a t u log token first second
