-- ===== src/Indexer/Snapshot/Allocate/Correct.antt =====
-- `allocate` pays exactly the asset's total, to exactly the wallets, each within a unit of its share.
use penny_protocol.Base.{
  ◌≤◌, ◌%◌, ℕ, zero, suc, ◌*◌, ◌/◌, ◌<◌, ◌==◌, ◌≡◌, refl, sym, ap, ◌∙◌, subst, ◌⊎◌, inl, inr, true,
  List, [], ◌∷◌, map, arith, if◌then◌else◌, Bool-cases,
}
use penny_protocol.Base.Int.{ℤ, pos, sum, int_laws}
use penny_protocol.Base.Text.{Text, text_eq, text_beq_iff}
use penny_protocol.Base.Map
use penny_protocol.Base.Map.{get, Map, IsMap, IsDistinct}
use penny_protocol.Base.Sort.{sort-IsSorted, sort, All-sort, contains-map-sort, sort-IsDistinct}
use penny_protocol.Base.Result.{ok}
use penny_protocol.Indexer.Snapshot.Allocate.{row_leb, allocate}
use penny_protocol.Indexer.Snapshot.Allocate.Rounds.{wallets_of, awards}
use penny_protocol.Indexer.Snapshot.Allocate.Rows.{held, HasBalances, IsRow}
use penny_protocol.Indexer.Snapshot.Allocate.Shares.{
  IsShare, has-awards, awards-IsMap, awards-IsShare,
}
use penny_protocol.Indexer.Snapshot.Allocate.Total.{allocate_pos}
use penny_protocol.Indexer.Snapshot.Allocate.Priority.{
  row_leb_trans, row_leb_total, Gets, awards_priority,
}

abbrev zeros : List Text → Map Text ℤ
zeros = map (λ w. (w, pos 0))

has-zeros : (ws : List Text) (k : Text) → Map.has (zeros ws) k ≡ Map.contains ws k
unfolding Map.has Map.contains
has-zeros [] k = refl
has-zeros (w ∷ ws) k = ap (λ b. if w == k then true else b) (has-zeros ws k)

zeros-IsMap : (ws : List Text) → IsDistinct ws → IsMap (zeros ws)
zeros-IsMap [] d = tt
zeros-IsMap (w ∷ ws) d = (has-zeros ws w ∙ d.0, zeros-IsMap ws d.1)

sum-zeros : (ws : List Text) → sum (Map.values (zeros ws)) ≡ pos 0
unfolding Map.values sum
sum-zeros [] = refl
sum-zeros (w ∷ ws) = rw (sum-zeros ws) (omega int_laws)

zero_share : (b s : ℕ) → b * 0 / s ≡ 0
zero_share b s = omega arith

zero_rem : (b s : ℕ) → b * 0 % s ≡ 0
zero_rem b s = omega arith

zeros-IsShare :
    (balances : Map Text ℤ) (s : ℕ) (ws : List Text)
    → HasBalances balances ws
    → (w : Text) → Map.contains ws w ≡ true
    → IsShare balances 0 s (zeros ws) w
unfolding Map.get Map.contains
zeros-IsShare balances s [] h w c = absurd (cc c)
zeros-IsShare balances s (v ∷ vs) ((b, found), h) w c = elim (Bool-cases (v == w)) [
  | inl here ↦ record {
    balance = b;
    share = 0;
    held_by = cc ((text_beq_iff v w).0 here, found);
    given = rw here;
    at_least = omega (arith, zero_share b s);
    at_most = omega arith;
  }
  | inr later ↦
      let rest = zeros-IsShare balances s vs h w (rw later at c) in
      record {
        balance = rest.balance;
        share = rest.share;
        held_by = rest.held_by;
        given = rw later rest.given;
        at_least = rest.at_least;
        at_most = rest.at_most;
      }
]

-- What `allocate` promises of the shares that it returns.
pub record IsAllocation (balances : Map Text ℤ) (ws : List Text) (t s : ℕ) (shares : Map Text ℤ)
    : Type 0 where
  pub total : sum (Map.values shares) ≡ pos t
  pub is_map : IsMap shares
  pub paid_only : (w : Text) → Map.has shares w ≡ Map.contains ws w
  pub fair : (w : Text) → Map.contains ws w ≡ true → IsShare balances t s shares w
  pub priority :
      (u w : Text) (bu bw : ℕ)
      → Gets balances t s shares u bu 1
      → Gets balances t s shares w bw 0
      → bw * t % s ≤ bu * t % s

-- For different wallets with balances of zero or more whose sum is the given supply, and a total of
-- zero or more (with a positive supply unless the total is zero), `allocate` returns shares, and
-- throws none of its errors. The shares sum to exactly the total, the wallets paid are exactly the
-- given ones, each wallet's share is balance * total / supply rounded down, or one unit more, and a wallet with
-- one unit more has at least the remainder of one without.
pub allocate-IsAllocation :
    (balances : Map Text ℤ) (ws : List Text) (t s : ℕ)
    → HasBalances balances ws
    → IsDistinct ws
    → held balances ws ≡ pos s
    → (t ≡ 0) ⊎ (0 < s)
    → (shares : Map Text ℤ) × (allocate balances ws (pos t) (pos s) ≡ ok shares)
      × IsAllocation balances ws t s shares
unfolding allocate
allocate-IsAllocation balances ws zero s h d supply p = (
  zeros ws,
  ap ok (Map.from_entries-append [] (zeros ws) (zeros-IsMap ws d)),
  record {
    total = sum-zeros ws;
    is_map = zeros-IsMap ws d;
    paid_only = has-zeros ws;
    fair = zeros-IsShare balances s ws h;
    priority = λ u w bu bw gu gw. omega (arith, zero_rem bw s);
  },
)
allocate-IsAllocation balances ws (suc t) s h d supply p =
    let s_pos : 0 < s = omega arith in
    let (rows, n, same, good, done, total) =
      allocate_pos balances (suc t) s s_pos ws h d supply (omega arith) in
    let sorted = sort row_leb rows in
    let good' = All-sort row_leb (IsRow balances (suc t) s) rows good in
    let here : (w : Text) → Map.contains (wallets_of sorted) w ≡ Map.contains ws w =
      λ w. contains-map-sort row_leb (λ r. r.w) rows w ∙ ap (λ l. Map.contains l w) same in
    (
      awards n sorted,
      done,
      record {
        total = total;
        is_map =
            awards-IsMap n sorted
              (sort-IsDistinct row_leb (λ r. r.w) rows (subst IsDistinct (sym same) d));
        paid_only = λ w. has-awards n sorted w ∙ here w;
        fair = λ w c. awards-IsShare balances (suc t) s n sorted good' w (here w ∙ c);
        priority =
            awards_priority balances (suc t) s n sorted good'
              (sort-IsSorted row_leb row_leb_total row_leb_trans rows);
      },
    )
