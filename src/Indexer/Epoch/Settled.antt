-- ===== src/Indexer/Epoch/Settled.antt =====
-- Every asset of an epoch is settled: paid out in full, added to what is owed, past the gate.
use penny_protocol.Base.Map
use penny_protocol.Base.Int.{int_laws, sum, pos_of_nonneg, ◌+ℤ◌, pos_part, ℤ, pos, ◌≤ℤ◌}
use penny_protocol.Indexer.Epoch.{
  Totals, allocate, ok, amount, CumulativeByAsset, eligible, List, EpochSpec, Indexer, Text,
  SnapshotResult,
}
use penny_protocol.Indexer.Ingest.{SnapshotResult, Indexer}
use penny_protocol.Base.Map.{IsDistinct, IsMap, Map}
use penny_protocol.Base.Text.{text_beq_iff, text_eq, Text}
use penny_protocol.Base.{
  ap, ◌∙◌, sym, subst, arith, inl, inr, ◌==◌, [], Bool-cases, ◌∷◌, get_or, if◌then◌else◌, true, ◌≡◌,
  length, All, ◌<◌, List,
}
use penny_protocol.Indexer.Snapshot.{eligible}
use penny_protocol.Indexer.Cumulative.{of_asset, of_wallet, CumulativeByAsset}
use penny_protocol.Indexer.Snapshot.Allocate.Correct.{IsAllocation}
use penny_protocol.Indexer.Epoch.Awards.{IsAwarded, shares_of_ok, IsPayable, shares_of}
use penny_protocol.Indexer.Reconcile.{ReconcileInput, amount}
use penny_protocol.Base.Result.{ok}
use penny_protocol.Indexer.Snapshot.Payout.{allocate-eligible}
use penny_protocol.Indexer.Snapshot.Allocate.{allocate}
use penny_protocol.Indexer.Cumulative.Laws.{IsMerge}
use penny_protocol.Indexer.Reconcile.Gate.{IsSound}

-- One asset of the epoch: its total is paid out in full by fair shares, and added to what the
-- wallets were owed.
pub record IsSettled (taken : SnapshotResult) (wallets : List Text) (supply : ℤ) (spec : EpochSpec)
    (next : CumulativeByAsset) (distributed residual : Map Text ℤ) (a : Text) : Type 0 where
  pub shares : Map Text ℤ
  pub fair :
      IsAllocation taken.balances wallets
        (pos_part (amount spec.funded_totals a))
        (pos_part supply)
        shares
  pub all_paid : amount distributed a ≡ amount spec.funded_totals a
  pub no_dust : amount residual a ≡ pos 0
  pub owed :
      (w : Text)
      → of_wallet (of_asset next a) w
        ≡ of_wallet (of_asset (get_or spec.prior_cumulative []) a) w
          +ℤ (if Map.contains wallets w then of_wallet shares w else pos 0)

-- What an epoch's specification must bring: different assets, at least one, each funded with zero
-- or more, and covered by its vault.
pub record IsFundable (indexer : Indexer) (taken : SnapshotResult) (spec : EpochSpec) : Type 0 where
  pub threshold : pos 0 ≤ℤ indexer.threshold
  pub some_asset : 0 < length spec.assets
  pub distinct : IsDistinct spec.assets
  pub funded : All (λ a. pos 0 ≤ℤ amount spec.funded_totals a) spec.assets
  pub in_vault : All (λ a. amount spec.funded_totals a ≤ℤ amount spec.vault_balances a) spec.assets
  pub some_supply :
      0
      < pos_part
          (eligible taken.balances indexer.threshold
            (get_or spec.exclusions indexer.excluded)).total_eligible_supply

All-contains :
    (P : Text → Type 0) (l : List Text) → All P l → (a : Text) → Map.contains l a ≡ true → P a
unfolding Map.contains
All-contains P [] h a c = absurd (cc c)
All-contains P (b ∷ l) h a c = elim (Bool-cases (b == a)) [
  | inl same ↦ subst P ((text_beq_iff b a).0 same) h.0
  | inr other ↦ All-contains P l h.1 a (rw other at c)
]

module _ (balances : Map Text ℤ) (threshold : ℤ) (exclusions : List Text) where
  abbrev pub wallets : List Text
  wallets = (eligible balances threshold exclusions).wallets

  abbrev pub supply : ℤ
  supply = (eligible balances threshold exclusions).total_eligible_supply

  module _ (funded : Map Text ℤ) (h : IsMap balances) (p : pos 0 ≤ℤ threshold)
      (some_supply : 0
        < pos_part (eligible balances threshold exclusions).total_eligible_supply) where
    -- The shares of an asset are a fair allocation of its total.
    shares-IsAllocation :
        (a : Text)
        → pos 0 ≤ℤ amount funded a
        → IsPayable balances wallets supply funded a
          × IsAllocation balances wallets
              (pos_part (amount funded a))
              (pos_part supply)
              (shares_of balances wallets supply funded a)
    shares-IsAllocation a q =
        let (shares, done, good) =
          allocate-eligible balances threshold exclusions (pos_part (amount funded a)) h p
            (inr some_supply) in
        let done' : allocate balances wallets (amount funded a) supply ≡ ok shares =
          subst (λ x. allocate balances wallets x supply ≡ ok shares)
            (sym (pos_of_nonneg (amount funded a) q)) done in
        let same = sym (shares_of_ok balances wallets supply funded a shares done') in
        (
          done' ∙ ap ok same,
          subst (IsAllocation balances wallets (pos_part (amount funded a)) (pos_part supply)) same
              good,
        )

    pub payable :
        (assets : List Text)
        → All (λ a. pos 0 ≤ℤ amount funded a) assets
        → All (IsPayable balances wallets supply funded) assets
    payable [] q = tt
    payable (a ∷ rest) q = ((shares-IsAllocation a q.0).0, payable rest q.1)

module _ (indexer : Indexer) (taken : SnapshotResult) (spec : EpochSpec) where
  abbrev pub prior : CumulativeByAsset
  prior = get_or spec.prior_cumulative []

  abbrev pub elected : List Text
  elected = wallets taken.balances indexer.threshold (get_or spec.exclusions indexer.excluded)

  abbrev pub total : ℤ
  total = supply taken.balances indexer.threshold (get_or spec.exclusions indexer.excluded)

  abbrev share : Text → Map Text ℤ
  share = shares_of taken.balances elected total spec.funded_totals

  abbrev pub gate : Totals → CumulativeByAsset → ReconcileInput
  gate totals next = record {
    assets = spec.assets;
    funded_totals = spec.funded_totals;
    distributed_totals = totals.distributed_totals;
    residuals = totals.residual;
    vault_balances = spec.vault_balances;
    cumulative_prior = prior;
    cumulative_new = next;
  }

  module _ (is_map : IsMap taken.balances) (f : IsFundable indexer taken spec) (totals : Totals)
      (next : CumulativeByAsset)
      (award : IsAwarded taken.balances elected total spec.funded_totals spec.assets totals)
      (merge : IsMerge prior spec.assets totals.deltas elected next) where
    pub settled_lem :
        (a : Text)
        → Map.contains spec.assets a ≡ true
        → IsSettled taken elected total spec next totals.distributed_totals totals.residual a
    settled_lem a c =
        let q = All-contains _ spec.assets f.funded a c in
        let fair =
          (shares-IsAllocation taken.balances indexer.threshold
            (get_or spec.exclusions indexer.excluded) spec.funded_totals is_map f.threshold
            f.some_supply a q).1 in
        let full : sum (Map.values (share a)) ≡ amount spec.funded_totals a =
          fair.total ∙ sym (pos_of_nonneg (amount spec.funded_totals a) q) in
        record {
          shares = share a;
          fair = fair;
          all_paid = award.distributed a c ∙ full;
          no_dust = award.residual a c ∙ rw full (omega int_laws);
          owed = λ w.
              merge.merged a w c
              ∙ ap
                  (λ d.
                    of_wallet (of_asset prior a) w
                    +ℤ (if Map.contains elected w then of_wallet d w else pos 0))
                  (award.deltas a c ∙ Map.from_entries-append [] (share a) fair.is_map);
        }

    share_nonneg :
        (a w : Text)
        → Map.contains spec.assets a ≡ true
        → of_wallet (of_asset prior a) w ≤ℤ of_wallet (of_asset next a) w
    share_nonneg a w c =
        let one = settled_lem a c in
        elim (Bool-cases (Map.contains elected w)) [
          | inl there ↦
              let given = one.fair.fair w there in
              rw (one.owed w, there, given.given) (omega int_laws)
          | inr gone ↦ rw (one.owed w, gone) (omega int_laws)
        ]

    pub gate-IsSound : IsSound (gate totals next)
    gate-IsSound = record {
      covered = λ a c.
          let one = settled_lem a c in
          record {
            explained = rw (one.all_paid, one.no_dust) (omega int_laws);
            no_dust = rw one.no_dust (omega arith);
            in_vault = rw one.all_paid (All-contains _ spec.assets f.in_vault a c);
          };
      kept = λ a w c. share_nonneg a w c;
    }
