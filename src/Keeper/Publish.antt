-- ===== src/Keeper/Publish.antt =====
-- `publishIfNeeded` of services/keeper/src/pipeline.ts: a root is published exactly once.
use penny_protocol.Base.{
  nat_beq_iff, subst, ap, inr, nat_eq, inl, ltb, true, Bool-cases, ◌+◌, ◌≡◌, if◌then◌else◌, ◌==◌,
  List, false, Option, Bool, ℕ, none, some, refl,
}
use penny_protocol.Base.Int.{ℤ}
use penny_protocol.Base.Text.{text_beq_iff, text_eq, Text}
use penny_protocol.Base.Result.{ok, err, Result}

-- The calls of `ChainAdapter` that publishing makes, on a chain whose states are `C`. A transaction
-- may fail, and then the chain is as the failed call left it.
pub record Distributor (C : Type 0) : Type 0 where
  pub epoch_root : C → ℕ → Option Text
  pub epoch_count : C → ℕ
  pub publish_epoch : C → Text → List Text → List ℤ → Text → Option ℕ × C

pub record PublishRun : Type 0 where
  pub published : Bool
  pub epoch_index : ℕ
  pub root : Text

-- What `publishIfNeeded` throws; `publish_failed` is an error of the adapter, passed on.
pub data PublishError : Type 0 where
  foreign_root wrong_index : ℕ → ℕ → PublishError
  publish_failed : PublishError

-- `onchainRoot !== undefined && onchainRoot === root`
abbrev pub carries : Option Text → Text → Bool
carries none root = false
carries (some onchain_root) root = onchain_root == root

-- The answer to the transaction: the index that it activated, if it did not fail.
unfoldable pub check_activated : ℕ → Text → Option ℕ → Result PublishError PublishRun
check_activated epoch_index root none = err publish_failed
check_activated epoch_index root (some activated) =
    if activated == epoch_index
    then ok (record { published = true; epoch_index = epoch_index; root = root })
    else err (wrong_index activated epoch_index)

module _ {C : Type 0} (adapter : Distributor C) where
  unfoldable pub publish_if_needed :
      C → Text → List Text → ℕ → List ℤ → Text → Result PublishError PublishRun × C
  unfolding check_activated
  publish_if_needed c root assets epoch_index cumulative_totals manifest_hash =
      if carries (adapter.epoch_root c epoch_index) root
      then (ok (record { published = false; epoch_index = epoch_index; root = root }), c)
      else (if ltb epoch_index (adapter.epoch_count c)
          then (err (foreign_root epoch_index (adapter.epoch_count c)), c)
          else (let (activated, after) =
                adapter.publish_epoch c root assets cumulative_totals manifest_hash in
              (check_activated epoch_index root activated, after)))

  -- What the distributor documents of a transaction that succeeds: it adds one epoch, at the index
  -- that was the count, with the root.
  pub record IsDistributor : Type 0 where
    pub activated :
        (c : C) (root : Text) (assets : List Text) (totals : List ℤ) (hash : Text) (n : ℕ)
        → (adapter.publish_epoch c root assets totals hash).0 ≡ some n
        → (n ≡ adapter.epoch_count c)
          × (adapter.epoch_count (adapter.publish_epoch c root assets totals hash).1
              ≡ adapter.epoch_count c + 1)
          × (adapter.epoch_root (adapter.publish_epoch c root assets totals hash).1 n ≡ some root)

  -- One run of `publishIfNeeded` from `c`, with its answer and the state after it.
  pub record IsPublished (c : C) (root : Text) (assets : List Text) (n : ℕ) (totals : List ℤ)
      (hash : Text) (run : PublishRun) (after : C) : Type 0 where
    pub on_chain : adapter.epoch_root after n ≡ some root
    pub at_most_one :
        adapter.epoch_count after
        ≡ (if run.published then adapter.epoch_count c + 1 else adapter.epoch_count c)
    pub again :
        publish_if_needed after root assets n totals hash
        ≡ (ok (record { published = false; epoch_index = n; root = root }), after)

  pub carries-some : (o : Option Text) (root : Text) → carries o root ≡ true → o ≡ some root
  carries-some none root h = absurd (cc h)
  carries-some (some r) root h = ap some ((text_beq_iff r root).0 h)

  -- A run that returns is one of the two that `publishIfNeeded` reports.
  run_of : PublishRun → Result PublishError PublishRun → PublishRun
  run_of other (ok run) = run
  run_of other (err e) = other

  again_lem :
      (after : C) (root : Text) (assets : List Text) (n : ℕ) (totals : List ℤ) (hash : Text)
      → adapter.epoch_root after n ≡ some root
      → publish_if_needed after root assets n totals hash
        ≡ (ok (record { published = false; epoch_index = n; root = root }), after)
  unfolding publish_if_needed
  again_lem after root assets n totals hash there =
      let same : carries (adapter.epoch_root after n) root ≡ true =
        rw there ((text_beq_iff root root).1 refl) in
      rw same refl

  -- On a distributor as documented: whenever `publishIfNeeded` returns, the root stands on the chain
  -- under the epoch's index, at most one epoch was added, namely when it reports that it published,
  -- and a second call with the same arguments sends nothing and reports so.
  pub publish_if_needed-once :
      (c : C) (root : Text) (assets : List Text) (n : ℕ) (totals : List ℤ) (hash : Text)
      {run : PublishRun}
      → IsDistributor
      → (publish_if_needed c root assets n totals hash).0 ≡ ok run
      → IsPublished c root assets n totals hash run
          (publish_if_needed c root assets n totals hash).1
  unfolding publish_if_needed run_of check_activated
  publish_if_needed-once c root assets n totals hash {run} law done =
      elim (Bool-cases (carries (adapter.epoch_root c n) root)) [
        | inl there ↦
            let stands = carries-some (adapter.epoch_root c n) root there in
            let same : ok (record { published = false; epoch_index = n; root = root }) ≡ ok run =
              rw there at done in
            rw there (
              subst (λ r. IsPublished c root assets n totals hash r c) (ap (run_of run) same)
                (record {
                  on_chain = stands;
                  at_most_one = refl;
                  again = again_lem c root assets n totals hash stands;
                }))
        | inr absent ↦ elim (Bool-cases (ltb n (adapter.epoch_count c))) [
          | inl foreign ↦ absurd (cc (rw (absent, foreign) at done))
          | inr free ↦
              rw (absent, free)
                (sent (adapter.publish_epoch c root assets totals hash).0 refl
                  (rw (absent, free) at done))
        ]
      ]
    where
      after : C
      after = (adapter.publish_epoch c root assets totals hash).1

      sent :
          (answer : Option ℕ)
          → (adapter.publish_epoch c root assets totals hash).0 ≡ answer
          → check_activated n root answer ≡ ok run
          → IsPublished c root assets n totals hash run after
      sent none e h = absurd (cc h)
      sent (some k) e h = elim (Bool-cases (k == n)) [
        | inl hit ↦
            let (at_count, one_more, stands) = law.activated c root assets totals hash k e in
            let here : adapter.epoch_root after n ≡ some root =
              subst (λ m. adapter.epoch_root after m ≡ some root) ((nat_beq_iff k n).0 hit)
                stands in
            let same : ok (record { published = true; epoch_index = n; root = root }) ≡ ok run =
              rw hit at h in
            subst (λ r. IsPublished c root assets n totals hash r after) (ap (run_of run) same)
              (record {
                on_chain = here;
                at_most_one = one_more;
                again = again_lem after root assets n totals hash here;
              })
        | inr miss ↦ absurd (cc (rw miss at h))
      ]
