-- ===== src/Keeper/Purchase/Outcome.antt =====
-- What a purchase does to the chain, on both of its branches.
use mathlib.Core.List.{Perm}
use penny_protocol.Base.{nat_eq, ltb, subst, leb, List, ◌==◌, refl}
use penny_protocol.Keeper.Purchase.{
  tip_or, deposits_since, spend, PurchaseReason, no_purchase, PurchaseOutcome, ℕ, purchase, ℤ,
  RewardDeposit, deposit_leb, PurchaseChain,
}
use penny_protocol.Base.Int.{pos, ltb_ℤ, ℤ}
use penny_protocol.Base.{◌+◌, Bool, false, if◌then◌else◌, ◌⊎◌, arith, true, ◌≡◌, ℕ}
use penny_protocol.Base.Sort.{sort-perm, sort-IsSorted, IsSorted}

deposit_leb_total : (a b : RewardDeposit) → (deposit_leb a b ≡ true) ⊎ (deposit_leb b a ≡ true)
unfolding deposit_leb
deposit_leb_total a b = ground arith

deposit_leb_trans :
    (a b c : RewardDeposit)
    → deposit_leb a b ≡ true
    → deposit_leb b c ≡ true
    → deposit_leb a c ≡ true
unfolding deposit_leb
deposit_leb_trans a b c h k = ground arith

-- By the block, and within a block by the index of the purchase.
abbrev pub is_in_order : RewardDeposit → RewardDeposit → Bool
is_in_order a b =
    if a.block_number == b.block_number
    then leb a.purchase_index b.purchase_index
    else ltb a.block_number b.block_number

deposit_leb-is_in_order : (a b : RewardDeposit) → deposit_leb a b ≡ is_in_order a b
unfolding deposit_leb
deposit_leb-is_in_order a b = ground arith

IsSorted-in_order : (ds : List RewardDeposit) → IsSorted deposit_leb ds → IsSorted is_in_order ds
IsSorted-in_order ds h = subst (λ le. IsSorted le ds) (λ i a b. deposit_leb-is_in_order a b i) h

module _ {C : Type 0} (adapter : PurchaseChain C) (min_sweep_wei : ℤ) where
  -- What a purchase that sweeps in the state `c` reports, and the state `after` it: the buyer is
  -- called once more only if the sweep moved nothing.
  pub record IsSwept (c : C) (window : ℕ) (o : PurchaseOutcome) (after : C) : Type 0 where
    pub reason : o.reason ≡ PurchaseReason.swept
    pub swept_wei : o.swept_wei ≡ (adapter.sweep c).0
    pub bought : (o.spent_wei, after) ≡ (
        if ltb_ℤ (pos 0) (adapter.sweep c).0
        then adapter.sweep c
        else adapter.purchase_basket (adapter.sweep c).1)
    pub ascending : IsSorted is_in_order o.deposits
    pub complete :
        Perm o.deposits
          (adapter.rewards_deposited after (window + 1) (tip_or (adapter.tip after) window))

  -- Below the minimum a purchase leaves the chain as it is and reports nothing. Otherwise it sweeps
  -- once, buys once more only if the sweep moved nothing, and reports all deposits that the chain
  -- then has after the window's first block, up to the tip, ascending.
  pub purchase-outcome :
      (c : C) (window : ℕ)
      → (ltb_ℤ (adapter.fee_collector_weth c) min_sweep_wei ≡ true
          → purchase adapter min_sweep_wei c window ≡ (no_purchase, c))
        × (ltb_ℤ (adapter.fee_collector_weth c) min_sweep_wei ≡ false
            → IsSwept c window
                (purchase adapter min_sweep_wei c window).0
                (purchase adapter min_sweep_wei c window).1)
  unfolding purchase
  purchase-outcome c window = (
    λ poor. rw poor refl,
    λ enough. rw enough (record {
      reason = refl;
      swept_wei = refl;
      bought = unfold spend in by_sign (ltb_ℤ (pos 0) (adapter.sweep c).0);
      ascending =
          unfold deposits_since in
          IsSorted-in_order _ (sort-IsSorted deposit_leb deposit_leb_total deposit_leb_trans _);
      complete = unfold deposits_since in sort-perm deposit_leb _;
    }),
  )
    where
      by_sign :
          (b : Bool)
          → (let p = if b then adapter.sweep c else adapter.purchase_basket (adapter.sweep c).1 in
              (p.0, p.1))
            ≡ (if b then adapter.sweep c else adapter.purchase_basket (adapter.sweep c).1)
      by_sign true = refl
      by_sign false = refl
