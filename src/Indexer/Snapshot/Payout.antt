-- ===== src/Indexer/Snapshot/Payout.antt =====
-- The snapshot's two steps together: the election feeds `allocate` what it needs.
use penny_protocol.Base.{List, ℕ, ◌<◌, ◌≡◌, sym, ◌∙◌, subst, ◌⊎◌}
use penny_protocol.Base.Int.{ℤ, pos, pos_part, ◌≤ℤ◌, pos_of_nonneg}
use penny_protocol.Base.Text.{Text, text_eq}
use penny_protocol.Base.Map.{Map, IsMap}
use penny_protocol.Base.Result.{ok}
use penny_protocol.Indexer.Snapshot.{eligible}
use penny_protocol.Indexer.Snapshot.Allocate.{allocate}
use penny_protocol.Indexer.Snapshot.Allocate.Correct.{IsAllocation, allocate-IsAllocation}
use penny_protocol.Indexer.Snapshot.Eligible.{
  eligible-IsElection, eligible-HasBalances, held_nonneg,
}

-- For every map of balances, a threshold of zero or more and an asset total of zero or more: where
-- the total is zero or the eligible supply is positive, allocating the total over the election's
-- wallets and supply throws nothing, pays exactly the total to exactly the eligible wallets, and
-- gives each its pro-rata share, rounded down or one unit more, the units going to the largest
-- remainders.
pub allocate-eligible :
    (balances : Map Text ℤ) (threshold : ℤ) (exclusions : List Text) (t : ℕ)
    → IsMap balances
    → pos 0 ≤ℤ threshold
    → (t ≡ 0) ⊎ (0 < pos_part (eligible balances threshold exclusions).total_eligible_supply)
    → let e = eligible balances threshold exclusions in
      (shares : Map Text ℤ) × (allocate balances e.wallets (pos t) e.total_eligible_supply
        ≡ ok shares)
      × IsAllocation balances e.wallets t (pos_part e.total_eligible_supply) shares
allocate-eligible balances threshold exclusions t h p some_supply =
    let e = eligible balances threshold exclusions in
    let election = eligible-IsElection threshold exclusions balances h in
    let has = eligible-HasBalances threshold exclusions balances p h in
    let nonneg =
      subst (λ (x : ℤ). pos 0 ≤ℤ x) (sym election.supply) (held_nonneg balances e.wallets has) in
    let as_pos = pos_of_nonneg e.total_eligible_supply nonneg in
    let (shares, done, good) =
      allocate-IsAllocation balances e.wallets t (pos_part e.total_eligible_supply) has
        election.distinct (sym election.supply ∙ as_pos) some_supply in
    (shares, subst (λ x. allocate balances e.wallets (pos t) x ≡ ok shares) (sym as_pos) done, good)
