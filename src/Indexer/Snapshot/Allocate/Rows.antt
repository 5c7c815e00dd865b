-- ===== src/Indexer/Snapshot/Allocate/Rows.antt =====
-- The rows of `allocate` over balances that are not negative, and their sums.
use native.Mathlib.Nat.{div-add-mod, mod-lt}
use penny_protocol.Base.{
  ℕ, ◌+◌, ◌*◌, ◌/◌, ◌%◌, ◌≤◌, ◌<◌, ◌≡◌, refl, ap, some, get_or, List, [], ◌∷◌, map, arith, All,
  length,
}
use penny_protocol.Base.Int.{ℤ, pos, sum, int_laws, *ℤ_pos, quot_ℤ_pos, rem_ℤ_pos}
use penny_protocol.Base.Text.{Text, text_eq}
use penny_protocol.Base.Map
use penny_protocol.Base.Map.{Map}
use penny_protocol.Base.Result.{ok}
use penny_protocol.Indexer.Snapshot.Allocate.{Row, row_of, rows_of}
use penny_protocol.Indexer.Snapshot.Allocate.Rounds.{wallets_of}

-- What the wallets hold together.
abbrev pub held : Map Text ℤ → List Text → ℤ
held balances ws = sum (map (λ w. get_or (Map.get balances w) (pos 0)) ws)

-- Each wallet has a balance, and none is negative.
abbrev pub HasBalances : Map Text ℤ → List Text → Type 0
HasBalances balances = All (λ w. (b : ℕ) × (Map.get balances w ≡ some (pos b)))

pub record IsRow (balances : Map Text ℤ) (t s : ℕ) (r : Row) : Type 0 where
  pub balance : ℕ
  pub found : Map.get balances r.w ≡ some (pos balance)
  pub quotient : r.quotient ≡ pos (balance * t / s)
  pub remainder : r.remainder ≡ pos (balance * t % s)

module _ (balances : Map Text ℤ) (t s : ℕ) where
  row_of_lem :
      (w : Text) (i b : ℕ)
      → Map.get balances w ≡ some (pos b)
      → row_of balances (pos t) (pos s) w i
        ≡ ok (record { w = w; order = i; quotient = pos (b * t / s); remainder = pos (b * t % s) })
  unfolding row_of
  row_of_lem w i b h = rw (h, row_of, *ℤ_pos b t, quot_ℤ_pos (b * t) s, rem_ℤ_pos (b * t) s)

  -- With a balance for each wallet the rows are made, one to a wallet, in the wallets' order.
  pub rows_of_lem :
      (ws : List Text) (i : ℕ)
      → HasBalances balances ws
      → (rows : List Row) × (rows_of balances (pos t) (pos s) i ws ≡ ok rows)
        × (wallets_of rows ≡ ws)
        × All (IsRow balances t s) rows
  unfolding rows_of
  rows_of_lem [] i h = ([], refl, refl, tt)
  rows_of_lem (w ∷ ws) i ((b, found), h) =
      let (rows, made, same, good) = rows_of_lem ws (i + 1) h in
      (
        record { w = w; order = i; quotient = pos (b * t / s); remainder = pos (b * t % s) } ∷ rows,
        rw (row_of_lem w i b found, made),
        ap (λ l. w ∷ l) same,
        (record { balance = b; found = found; quotient = refl; remainder = refl }, good),
      )

  pub record Sums (rows : List Row) : Type 0 where
    pub quotients : ℕ
    pub remainders : ℕ
    pub balances_sum : ℕ
    pub of_quotients : sum (map (λ r. r.quotient) rows) ≡ pos quotients
    pub of_balances : held balances (wallets_of rows) ≡ pos balances_sum
    pub division : quotients * s + remainders ≡ balances_sum * t
    pub small : remainders + length rows ≤ length rows * s

  -- The rows' quotients and remainders divide the total of the balances.
  pub rows-Sums : (rows : List Row) → 0 < s → All (IsRow balances t s) rows → Sums rows
  unfolding sum
  rows-Sums [] p h = record {
    quotients = 0;
    remainders = 0;
    balances_sum = 0;
    of_quotients = refl;
    of_balances = refl;
    division = omega arith;
    small = omega arith;
  }
  rows-Sums (r ∷ rs) p (g, h) =
      let rest = rows-Sums rs p h in
      record {
        quotients = g.balance * t / s + rest.quotients;
        remainders = g.balance * t % s + rest.remainders;
        balances_sum = g.balance + rest.balances_sum;
        of_quotients = rw (g.quotient, rest.of_quotients) (omega int_laws);
        of_balances = rw (g.found, rest.of_balances) (omega int_laws);
        division = omega (arith, div-add-mod (g.balance * t) s, rest.division);
        small = omega (arith, mod-lt (g.balance * t) p, rest.small);
      }
