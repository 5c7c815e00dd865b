-- ===== src/Indexer/Reconcile.antt =====
-- services/indexer/src/reconcile.ts: the gate between building a tree and proposing its root.
pub mod Gate
use penny_protocol.Base.{
  Bool, true, false, not, ◌==◌, get_or, List, [], ◌∷◌, ◌++◌, if◌then◌else◌, length, nat_beq,
}
use penny_protocol.Base.Int.{ℤ, int_eq, pos, ◌+ℤ◌, ltb_ℤ}
use penny_protocol.Base.Text.{Text, text_eq}
use penny_protocol.Base.Map
use penny_protocol.Base.Map.{Map}
use penny_protocol.Indexer.Cumulative.{CumulativeByAsset, is_monotone}

pub record ReconcileInput : Type 0 where
  pub assets : List Text
  pub funded_totals : Map Text ℤ
  pub distributed_totals : Map Text ℤ
  pub residuals : Map Text ℤ
  pub vault_balances : Map Text ℤ
  pub cumulative_prior : CumulativeByAsset
  pub cumulative_new : CumulativeByAsset

-- The messages of `errors`, by what each says.
pub data ReconcileError : Type 0 where
  unexplained nonzero_residual over_vault : Text → ReconcileError
  cumulative_decreased : ReconcileError

pub record ReconcileResult : Type 0 where
  pub ok : Bool
  pub errors : List ReconcileError

-- `record[asset] ?? 0n`
abbrev pub amount : Map Text ℤ → Text → ℤ
amount totals asset = get_or (Map.get totals asset) (pos 0)

-- `if (c) errors.push(e)`
abbrev pub push_if : Bool → ReconcileError → List ReconcileError
push_if true e = e ∷ []
push_if false e = []

unfoldable pub asset_errors : ReconcileInput → Text → List ReconcileError
asset_errors input asset =
    let funded = amount input.funded_totals asset in
    let distributed = amount input.distributed_totals asset in
    let residual = amount input.residuals asset in
    let vault = amount input.vault_balances asset in
    push_if (not ((distributed +ℤ residual) == funded)) (unexplained asset)
    ++ (push_if (ltb_ℤ (pos 0) residual) (nonzero_residual asset)
        ++ push_if (ltb_ℤ vault distributed) (over_vault asset))

unfoldable pub all_errors : ReconcileInput → List Text → List ReconcileError
unfolding asset_errors
all_errors input [] = []
all_errors input (asset ∷ rest) = asset_errors input asset ++ all_errors input rest

unfoldable pub reconcile : ReconcileInput → ReconcileResult
unfolding all_errors
reconcile input =
    let errors =
      all_errors input input.assets
      ++ push_if (not (is_monotone input.cumulative_prior input.cumulative_new input.assets))
          cumulative_decreased in
    record { ok = nat_beq (length errors) 0; errors = errors }
