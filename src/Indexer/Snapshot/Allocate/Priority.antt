-- ===== src/Indexer/Snapshot/Allocate/Priority.antt =====
-- The units that rounding leaves go to the largest remainders.
use penny_protocol.Base.{
  ◌⊎◌, zero, if◌then◌else◌, false, suc, ℕ, ◌+◌, ◌*◌, ◌/◌, ◌%◌, ◌≤◌, ◌==◌, ◌≡◌, sym, ◌∙◌, subst,
  some, inl, inr, true, List, [], ◌∷◌, arith, All, Bool-cases,
}
use penny_protocol.Base.Int.{beq_ℤ_iff, ◌+ℤ◌, ℤ, int_eq, pos}
use penny_protocol.Base.Text.{Text, text_eq, text_beq_iff}
use penny_protocol.Base.Map
use penny_protocol.Base.Map.{Map}
use penny_protocol.Indexer.Snapshot.Allocate.{Row, row_leb}
use penny_protocol.Indexer.Snapshot.Allocate.Rounds.{awards, awards_step}
use penny_protocol.Indexer.Snapshot.Allocate.Rows.{IsRow}
use penny_protocol.Base.Sort.{IsSorted}

module _ (balances : Map Text ℤ) (t s : ℕ) where
  -- The wallet `w` holds `b`, and its share is the rounded one with `extra` units more.
  pub record Gets (shares : Map Text ℤ) (w : Text) (b extra : ℕ) : Type 0 where
    pub held_by : Map.get balances w ≡ some (pos b)
    pub given : Map.get shares w ≡ some (pos (b * t / s + extra))

  row_balance :
      (r : Row) (w : Text) (b : ℕ)
      → IsRow balances t s r
      → (r.w == w) ≡ true
      → Map.get balances w ≡ some (pos b)
      → (r.quotient ≡ pos (b * t / s)) × (r.remainder ≡ pos (b * t % s))
  row_balance r w b g here held_by =
      let same : g.balance ≡ b = cc (g.found, held_by, (text_beq_iff r.w w).0 here) in
      (
        subst (λ x. r.quotient ≡ pos (x * t / s)) same g.quotient,
        subst (λ x. r.remainder ≡ pos (x * t % s)) same g.remainder,
      )

  -- No row behind the first has a larger remainder.
  behind_first :
      (r : Row) (m : ℕ) (n : ℕ) (rows : List Row)
      → r.remainder ≡ pos m
      → All (λ x. row_leb r x ≡ true) rows
      → All (IsRow balances t s) rows
      → (w : Text) (b extra : ℕ) → Gets (awards n rows) w b extra
      → b * t % s ≤ m
  unfolding Map.get awards row_leb
  behind_first r m n [] e le good w b extra g = absurd (cc g.given)
  behind_first r m n (x ∷ xs) e (le, les) (gx, good) w b extra g = elim (Bool-cases (x.w == w)) [
    | inl here ↦ let (q, rem) = row_balance x w b gx here g.held_by in ground (arith, le, e, rem)
    | inr later ↦
        let (k, next) = awards_step n x xs w later in
        behind_first r m k xs e les good w b extra
          (record { held_by = g.held_by; given = sym next ∙ g.given })
  ]

  unlucky_first :
      (n : ℕ) (r : Row) (rs : List Row)
      → IsRow balances t s r
      → (w : Text) (b : ℕ) → Gets (awards (suc n) (r ∷ rs)) w b 0
      → (r.w == w) ≡ false
  unfolding Map.get awards
  unlucky_first n r rs g w b gets = elim (Bool-cases (r.w == w)) [
    | inr later ↦ later
    | inl here ↦
        let (q, _) = row_balance r w b g here gets.held_by in
        let e : some (r.quotient +ℤ pos 1) ≡ some (pos (b * t / s + 0)) =
          subst
            (λ c.
              (if c then some (r.quotient +ℤ pos 1) else Map.get (awards n rs) w)
              ≡ some (pos (b * t / s + 0)))
            here gets.given in
        absurd (one_more_ne (b * t / s) r.quotient q e)
  ]
    where
      one_more_ne : (k : ℕ) (x : ℤ) → x ≡ pos k → some (x +ℤ pos 1) ≡ some (pos (k + 0)) → ⊥
      one_more_ne k x q e = unfold ◌+ℤ◌ in ground arith

  none_lucky :
      (rows : List Row)
      → All (IsRow balances t s) rows
      → (w : Text) (b : ℕ) → ¬ (Gets (awards 0 rows) w b 1)
  unfolding Map.get awards
  none_lucky [] good w b gets = cc gets.given
  none_lucky (r ∷ rs) (g, good) w b gets = elim (Bool-cases (r.w == w)) [
    | inl here ↦
        let (q, _) = row_balance r w b g here gets.held_by in let given = gets.given in ground arith
    | inr later ↦
        none_lucky rs good w b (record { held_by = gets.held_by; given = rw later at gets.given })
  ]

  -- A wallet that got one more unit has at least the remainder of one that did not.
  pub awards_priority :
      (n : ℕ) (rows : List Row)
      → All (IsRow balances t s) rows
      → IsSorted row_leb rows
      → (u w : Text) (bu bw : ℕ) → Gets (awards n rows) u bu 1
      → Gets (awards n rows) w bw 0
      → bw * t % s ≤ bu * t % s
  awards_priority zero rows good sorted u w bu bw gu gw = absurd (none_lucky rows good u bu gu)
  awards_priority (suc n) [] good sorted u w bu bw gu gw =
      absurd
        (none_lucky [] tt u bu (record { held_by = gu.held_by; given = unfold awards in gu.given }))
  awards_priority (suc n) (r ∷ rs) (g, good) (first, sorted) u w bu bw gu gw =
      let later = unlucky_first n r rs g w bw gw in
      let (k, next) = awards_step_suc n r rs w later in
      let gw' : Gets (awards n rs) w bw 0 = record {
        held_by = gw.held_by;
        given = sym next ∙ gw.given;
      } in
      elim (Bool-cases (r.w == u)) [
        | inl here ↦
            let (_, rem) = row_balance r u bu g here gu.held_by in
            behind_first r (bu * t % s) n rs rem first good w bw 0 gw'
        | inr other ↦
            awards_priority n rs good sorted u w bu bw
              (record {
                held_by = gu.held_by;
                given = sym (awards_step_suc n r rs u other).1 ∙ gu.given;
              })
              gw'
      ]
    where
      awards_step_suc :
          (n : ℕ) (r : Row) (rs : List Row) (w : Text)
          → (r.w == w) ≡ false
          → (k : ℕ) × (Map.get (awards (suc n) (r ∷ rs)) w ≡ Map.get (awards n rs) w)
      awards_step_suc n r rs w h = (n, unfold awards Map.get in rw h)

pub row_leb_total : (a b : Row) → (row_leb a b ≡ true) ⊎ (row_leb b a ≡ true)
unfolding row_leb
row_leb_total a b = elim (Bool-cases (a.remainder == b.remainder)) [
  | inl same ↦ ground (arith, beq_ℤ_iff a.remainder b.remainder, beq_ℤ_iff b.remainder a.remainder)
  | inr other ↦ ground (arith, beq_ℤ_iff a.remainder b.remainder, beq_ℤ_iff b.remainder a.remainder)
]

pub row_leb_trans : (a b c : Row) → row_leb a b ≡ true → row_leb b c ≡ true → row_leb a c ≡ true
unfolding row_leb
row_leb_trans a b c h k = ground (
  arith,
  beq_ℤ_iff a.remainder b.remainder,
  beq_ℤ_iff b.remainder c.remainder,
  beq_ℤ_iff a.remainder c.remainder,
)
