-- ===== src/Indexer/Reconcile/Gate.antt =====
-- What passes the gate.
use penny_protocol.Base.{
  subst, ◌+◌, ℕ, ◌==◌, ◌≡◌, refl, inl, inr, Bool, true, not, List, [], ◌∷◌, ◌++◌, arith, length,
  length-append, nat_beq, if◌then◌else◌, Bool-cases, ◌↔◌,
}
use penny_protocol.Base.Int.{int_eq, pos, ◌+ℤ◌, ◌≤ℤ◌, beq_ℤ_iff}
use penny_protocol.Base.Text.{Text, text_eq, text_beq_iff}
use penny_protocol.Base.Map
use penny_protocol.Indexer.Cumulative.{is_monotone, of_asset, of_wallet}
use penny_protocol.Indexer.Cumulative.Monotone.{is_monotone_iff}
use penny_protocol.Indexer.Reconcile.{
  ReconcileInput, ReconcileError, amount, push_if, asset_errors, all_errors, reconcile,
}

-- One asset's totals add up, leave nothing undistributed, and are covered by the vault.
pub record IsCovered (input : ReconcileInput) (asset : Text) : Type 0 where
  pub explained :
      amount input.distributed_totals asset +ℤ amount input.residuals asset
      ≡ amount input.funded_totals asset
  pub no_dust : amount input.residuals asset ≤ℤ pos 0
  pub in_vault : amount input.distributed_totals asset ≤ℤ amount input.vault_balances asset

module _ (input : ReconcileInput) where
  asset_errors_none : (a : Text) → length (asset_errors input a) ≡ 0 → IsCovered input a
  unfolding asset_errors
  asset_errors_none a h = record {
    explained = ground (
      arith,
      h,
      beq_ℤ_iff (amount input.distributed_totals a +ℤ amount input.residuals a)
          (amount input.funded_totals a),
    );
    no_dust = ground (arith, h);
    in_vault = ground (arith, h);
  }

  no_asset_errors : (a : Text) → IsCovered input a → length (asset_errors input a) ≡ 0
  unfolding asset_errors
  no_asset_errors a c = ground (
    arith,
    c.explained,
    c.no_dust,
    c.in_vault,
    beq_ℤ_iff (amount input.distributed_totals a +ℤ amount input.residuals a)
        (amount input.funded_totals a),
  )

  all_errors_none :
      (assets : List Text)
      → length (all_errors input assets) ≡ 0
      → (a : Text) → Map.contains assets a ≡ true
      → IsCovered input a
  unfolding all_errors Map.contains
  all_errors_none [] h a c = absurd (cc c)
  all_errors_none (b ∷ bs) h a c =
      let apart = length-append (asset_errors input b) (all_errors input bs) in
      elim (Bool-cases (b == a)) [
        | inl same ↦
            subst (IsCovered input) ((text_beq_iff b a).0 same)
              (asset_errors_none b (omega (arith, apart, h)))
        | inr other ↦ all_errors_none bs (omega (arith, apart, h)) a (rw other at c)
      ]

  no_errors :
      (assets : List Text)
      → ((a : Text) → Map.contains assets a ≡ true → IsCovered input a)
      → length (all_errors input assets) ≡ 0
  unfolding all_errors Map.contains
  no_errors [] h = refl
  no_errors (b ∷ bs) h = omega (
    arith,
    length-append (asset_errors input b) (all_errors input bs),
    no_asset_errors b (h b (rw ((text_beq_iff b b).1 refl))),
    no_errors bs (λ a c. h a (later b a c)),
  )
    where
      later :
          (x a : Text)
          → Map.contains bs a ≡ true
          → (if x == a then true else Map.contains bs a) ≡ true
      later x a c = ground arith

  -- What the gate checks.
  pub record IsSound : Type 0 where
    pub covered : (a : Text) → Map.contains input.assets a ≡ true → IsCovered input a
    pub kept :
        (a w : Text)
        → Map.contains input.assets a ≡ true
        → of_wallet (of_asset input.cumulative_prior a) w
          ≤ℤ of_wallet (of_asset input.cumulative_new a) w

  -- The gate passes exactly when, for each listed asset, the distributed and the residual amounts
  -- make up the funded one, the residual is at most zero (a negative one passes), the vault holds
  -- the distributed amount, and no wallet's entitlement has fallen.
  pub reconcile_iff : ((reconcile input).ok ≡ true) ↔ IsSound
  unfolding reconcile
  reconcile_iff = (sound, complete)
    where
      decreased : List ReconcileError
      decreased =
          push_if (not (is_monotone input.cumulative_prior input.cumulative_new input.assets))
            ReconcileError.cumulative_decreased

      apart :
          length (all_errors input input.assets ++ decreased)
          ≡ length (all_errors input input.assets) + length decreased
      apart = length-append (all_errors input input.assets) decreased

      none_left : (n : ℕ) → nat_beq n 0 ≡ true → n ≡ 0
      none_left n h = ground arith

      not_pushed : (b : Bool) (e : ReconcileError) → length (push_if (not b) e) ≡ 0 → b ≡ true
      not_pushed b e h = ground arith

      sound : nat_beq (length (all_errors input input.assets ++ decreased)) 0 ≡ true → IsSound
      sound h =
          let empty = none_left (length (all_errors input input.assets ++ decreased)) h in
          record {
            covered = all_errors_none input.assets (omega (arith, apart, empty));
            kept =
                (is_monotone_iff input.cumulative_prior input.cumulative_new input.assets).0
                  (not_pushed _ ReconcileError.cumulative_decreased (omega (arith, apart, empty)));
          }

      complete : IsSound → nat_beq (length (all_errors input input.assets ++ decreased)) 0 ≡ true
      complete h =
          let mono =
            (is_monotone_iff input.cumulative_prior input.cumulative_new input.assets).1 h.kept in
          ground (arith, apart, mono, no_errors input.assets h.covered)
