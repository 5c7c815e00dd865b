-- ===== src/Indexer/Epoch/Awards.antt =====
-- The loop over the assets of `buildEpoch`: each asset's total is paid out in full.
use penny_protocol.Base.Map
use penny_protocol.Base.Tabulate.{set_all, get-set_all, length-set_all}
use penny_protocol.Base.Result.{err}
use penny_protocol.Base.Int.{sum, reduce_sum-zero, ◌-ℤ◌, reduce_sum, ℤ, pos}
use penny_protocol.Base.Map.{IsDistinct, Map}
use penny_protocol.Base.Text.{text_eq, Text}
use penny_protocol.Base.{refl, arith, ◌∙◌, length, ap, true, [], All, ◌≡◌, ◌∷◌, List}
use penny_protocol.Indexer.Epoch.{of_asset, ok, no_totals, amount, award, Totals}
use penny_protocol.Indexer.Snapshot.Allocate.{allocate}
use penny_protocol.Indexer.Reconcile.{amount}
use penny_protocol.Indexer.Cumulative.{of_asset}

module _ (balances : Map Text ℤ) (wallets : List Text) (supply : ℤ) (funded : Map Text ℤ) where
  -- The shares of the asset, where `allocate` returns.
  unfoldable pub shares_of : Text → Map Text ℤ
  shares_of a = elim (allocate balances wallets (amount funded a) supply) [
    | ok shares ↦ shares
    | err _ ↦ []
  ]

  pub shares_of_ok :
      (a : Text) (shares : Map Text ℤ)
      → allocate balances wallets (amount funded a) supply ≡ ok shares
      → shares_of a ≡ shares
  unfolding shares_of
  shares_of_ok a shares h = rw (h, shares_of) refl

  -- `allocate` returns for the asset.
  abbrev pub IsPayable : Text → Type 0
  IsPayable a = allocate balances wallets (amount funded a) supply ≡ ok (shares_of a)

  paid : Text → ℤ
  paid a = reduce_sum (pos 0) (Map.values (shares_of a))

  award_sets :
      (assets : List Text) (t : Totals)
      → All IsPayable assets
      → award balances wallets supply funded t assets
        ≡ ok (record {
          deltas = set_all t.deltas (λ a. Map.from_entries [] (shares_of a)) assets;
          distributed_totals = set_all t.distributed_totals paid assets;
          residual = set_all t.residual (λ a. amount funded a -ℤ paid a) assets;
        })
  unfolding award set_all paid
  award_sets [] t h = refl
  award_sets (a ∷ rest) t h = rw h.0 (award_sets rest _ h.1)

  -- What the loop gives for each listed asset.
  pub record IsAwarded (assets : List Text) (t : Totals) : Type 0 where
    pub deltas :
        (a : Text)
        → Map.contains assets a ≡ true
        → of_asset t.deltas a ≡ Map.from_entries [] (shares_of a)
    pub distributed :
        (a : Text)
        → Map.contains assets a ≡ true
        → amount t.distributed_totals a ≡ sum (Map.values (shares_of a))
    pub residual :
        (a : Text)
        → Map.contains assets a ≡ true
        → amount t.residual a ≡ amount funded a -ℤ sum (Map.values (shares_of a))
    pub count : length (Map.keys t.deltas) ≡ length assets

  pub award-IsAwarded :
      (assets : List Text)
      → IsDistinct assets
      → All IsPayable assets
      → (t : Totals) × (award balances wallets supply funded no_totals assets ≡ ok t)
        × IsAwarded assets t
  unfolding paid Map.keys
  award-IsAwarded assets d h = (
    _,
    award_sets assets no_totals h,
    record {
      deltas = λ a c. rw (get-set_all [] (λ x. Map.from_entries [] (shares_of x)) assets a c) refl;
      distributed =
          λ a c. rw (get-set_all [] paid assets a c) (reduce_sum-zero (Map.values (shares_of a)));
      residual = λ a c.
          rw (get-set_all [] (λ x. amount funded x -ℤ paid x) assets a c)
            (ap (λ x. amount funded a -ℤ x) (reduce_sum-zero (Map.values (shares_of a))));
      count =
          length-set_all [] (λ a. Map.from_entries [] (shares_of a)) assets d
            (λ a c. unfold Map.has in refl)
          ∙ omega arith;
    },
  )
