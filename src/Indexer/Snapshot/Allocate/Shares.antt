-- ===== src/Indexer/Snapshot/Allocate/Shares.antt =====
-- The share of each wallet in the awards, and who gets the units that rounding leaves.
use penny_protocol.Base.{
  ℕ, zero, suc, ◌+◌, ◌*◌, ◌/◌, ◌≤◌, ◌==◌, ◌≡◌, refl, ap, ◌∙◌, some, inl, inr, true, List, [], ◌∷◌,
  arith, All, if◌then◌else◌, Bool-cases,
}
use penny_protocol.Base.Int.{ℤ, int_eq, pos, int_laws}
use penny_protocol.Base.Text.{Text, text_eq, text_beq_iff}
use penny_protocol.Base.Map
use penny_protocol.Base.Map.{Map, IsMap, IsDistinct}
use penny_protocol.Indexer.Snapshot.Allocate.{Row}
use penny_protocol.Indexer.Snapshot.Allocate.Rounds.{wallets_of, awards}
use penny_protocol.Indexer.Snapshot.Allocate.Rows.{IsRow}

pub has-awards :
    (n : ℕ) (rows : List Row) (k : Text)
    → Map.has (awards n rows) k ≡ Map.contains (wallets_of rows) k
unfolding awards Map.has Map.contains
has-awards n [] k = refl
has-awards zero (r ∷ rs) k = ap (λ b. if r.w == k then true else b) (has-awards zero rs k)
has-awards (suc n) (r ∷ rs) k = ap (λ b. if r.w == k then true else b) (has-awards n rs k)

pub awards-IsMap : (n : ℕ) (rows : List Row) → IsDistinct (wallets_of rows) → IsMap (awards n rows)
unfolding awards
awards-IsMap n [] d = tt
awards-IsMap zero (r ∷ rs) d = (has-awards zero rs r.w ∙ d.0, awards-IsMap zero rs d.1)
awards-IsMap (suc n) (r ∷ rs) d = (has-awards n rs r.w ∙ d.0, awards-IsMap n rs d.1)

module _ (balances : Map Text ℤ) (t s : ℕ) where
  -- The wallet's share is its exact share rounded down, or one unit more.
  pub record IsShare (shares : Map Text ℤ) (w : Text) : Type 0 where
    pub balance : ℕ
    pub share : ℕ
    pub held_by : Map.get balances w ≡ some (pos balance)
    pub given : Map.get shares w ≡ some (pos share)
    pub at_least : balance * t / s ≤ share
    pub at_most : share ≤ balance * t / s + 1

  pub awards-IsShare :
      (n : ℕ) (rows : List Row)
      → All (IsRow balances t s) rows
      → (w : Text) → Map.contains (wallets_of rows) w ≡ true
      → IsShare (awards n rows) w
  unfolding awards Map.get Map.contains
  awards-IsShare n [] good w h = absurd (cc h)
  awards-IsShare zero (r ∷ rs) (g, good) w h = elim (Bool-cases (r.w == w)) [
    | inl here ↦ record {
      balance = g.balance;
      share = g.balance * t / s;
      held_by = cc ((text_beq_iff r.w w).0 here, g.found);
      given = rw here (ap some g.quotient);
      at_least = omega arith;
      at_most = omega arith;
    }
    | inr later ↦
        let rest = awards-IsShare zero rs good w (rw later at h) in
        record {
          balance = rest.balance;
          share = rest.share;
          held_by = rest.held_by;
          given = rw later rest.given;
          at_least = rest.at_least;
          at_most = rest.at_most;
        }
  ]
  awards-IsShare (suc n) (r ∷ rs) (g, good) w h = elim (Bool-cases (r.w == w)) [
    | inl here ↦ record {
      balance = g.balance;
      share = g.balance * t / s + 1;
      held_by = cc ((text_beq_iff r.w w).0 here, g.found);
      given = rw (here, g.quotient) (ap some (omega int_laws));
      at_least = omega arith;
      at_most = omega arith;
    }
    | inr later ↦
        let rest = awards-IsShare n rs good w (rw later at h) in
        record {
          balance = rest.balance;
          share = rest.share;
          held_by = rest.held_by;
          given = rw later rest.given;
          at_least = rest.at_least;
          at_most = rest.at_most;
        }
  ]
