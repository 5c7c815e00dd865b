-- ===== src/Indexer/Snapshot/Allocate/Total.antt =====
-- `allocate` pays out exactly the asset's total, each wallet within one unit of its share.
use native.Mathlib.Nat.{le_of_mul-le-mul_right}
use penny_protocol.Base.{
  ℕ, ◌+◌, ◌-◌, ◌*◌, ◌≤◌, ◌<◌, ◌==◌, ◌≡◌, refl, sym, ap, ◌∙◌, subst, false, List, [], ◌∷◌, map,
  arith, All, length,
}
use penny_protocol.Base.Int.{ℤ, int_eq, pos, ◌-ℤ◌, sum, int_laws, reduce_sum, reduce_sum-zero}
use penny_protocol.Base.Text.{Text, text_eq}
use penny_protocol.Base.Map
use penny_protocol.Base.Map.{Map, IsDistinct}
use penny_protocol.Base.Sort.{sort, sum-sort, length-sort, sort-IsDistinct}
use penny_protocol.Base.Result.{ok}
use penny_protocol.Indexer.Snapshot.Allocate.{Row, row_leb, distribute, allocate, grant}
use penny_protocol.Indexer.Snapshot.Allocate.Rounds.{
  wallets_of, awards, IsFresh, fill-grant, grant-left, sum-awards,
}
use penny_protocol.Indexer.Snapshot.Allocate.Rows.{held, HasBalances, IsRow, rows_of_lem, rows-Sums}

-- The units that are left after the quotients.
abbrev pub units_left : ℕ → ℕ → ℕ
units_left t quotients = t - quotients

IsFresh-nil : (rows : List Row) → IsFresh [] rows
unfolding Map.has
IsFresh-nil [] = tt
IsFresh-nil (r ∷ rs) = (refl, IsFresh-nil rs)

-- There are more rows than units left, unless both are none.
left-le-rows : (t s q m n : ℕ) → 0 < s → q * s + m ≡ s * t → m + n ≤ n * s → (q ≤ t) × (t - q ≤ n)
left-le-rows t s q m n p division small =
    let below : q ≤ t = le_of_mul-le-mul_right {k = s} (omega arith) p in
    let above : t ≤ q + n = le_of_mul-le-mul_right {k = s} (omega arith) p in (below, omega arith)

module _ (balances : Map Text ℤ) (t s : ℕ) (p : 0 < s) where
  -- With the supply of its own rows `distribute` absorbs every unit.
  pub distribute_lem :
      (rows : List Row)
      → All (IsRow balances t s) rows
      → IsDistinct (wallets_of rows)
      → held balances (wallets_of rows) ≡ pos s
      → (n : ℕ) × (distribute rows (pos t) ≡ ok (awards n (sort row_leb rows)))
        × (sum (Map.values (awards n (sort row_leb rows))) ≡ pos t)
  unfolding distribute
  distribute_lem rows good d supply =
      let sums = rows-Sums balances t s rows p good in
      let q = sums.quotients in
      let total : sums.balances_sum ≡ s = pos_injective (sym sums.of_balances ∙ supply) in
      let bound =
        left-le-rows t s q sums.remainders (length rows) p (sums.division ∙ ap (λ b. b * t) total)
          sums.small in
      let sorted = sort row_leb rows in
      let d' = sort-IsDistinct row_leb (λ r. r.w) rows d in
      let len : length sorted ≡ length rows = length-sort row_leb rows in
      let none_left : (grant sorted (pos (t - q)) []).1 ≡ pos 0 =
        grant-left sorted (t - q) [] (IsFresh-nil sorted) d' ∙ ap pos (omega (arith, bound, len)) in
      let leftover : pos t -ℤ reduce_sum (pos 0) (map (λ r. r.quotient) rows) ≡ pos (t - q) =
        rw (reduce_sum-zero (map (λ (r : Row). r.quotient) rows), sums.of_quotients)
          (omega (int_laws, bound)) in
      (
        t - q,
        rw (leftover, none_left, fill-grant sorted (t - q) [] (IsFresh-nil sorted) d'),
        sum-awards (t - q) sorted
            ∙ rw (sum-sort row_leb (λ (r : Row). r.quotient) rows, sums.of_quotients)
                (omega (int_laws, bound, len)),
      )
    where
      pos_injective : {a b : ℕ} → pos a ≡ pos b → a ≡ b
      pos_injective e = cc

  -- The total is paid out in full, whatever it is: the loop over the rows never runs out of rows.
  pub allocate_pos :
      (ws : List Text)
      → HasBalances balances ws
      → IsDistinct ws
      → held balances ws ≡ pos s
      → 0 < t
      → (rows : List Row) × (n : ℕ) × (wallets_of rows ≡ ws)
        × All (IsRow balances t s) rows
        × (allocate balances ws (pos t) (pos s) ≡ ok (awards n (sort row_leb rows)))
        × (sum (Map.values (awards n (sort row_leb rows))) ≡ pos t)
  unfolding allocate
  allocate_pos ws has_balances d supply positive =
      let (rows, made, same, good) = rows_of_lem balances t s ws 0 has_balances in
      let (n, done, total) =
        distribute_lem rows good (subst IsDistinct (sym same) d)
          (subst (λ l. held balances l ≡ pos s) (sym same) supply) in
      let t_pos : (pos t == pos 0) ≡ false = ground arith in
      let s_pos : (pos s == pos 0) ≡ false = ground arith in
      (rows, n, same, good, rw (t_pos, s_pos, made) done, total)
