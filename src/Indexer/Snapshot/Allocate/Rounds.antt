-- ===== src/Indexer/Snapshot/Allocate/Rounds.antt =====
-- The two loops of `allocate`: what they hand out to rows of different wallets.
use mathlib.Core.List.{append_assoc, append-nil}
use penny_protocol.Base.{
  ◌==◌, ℕ, zero, suc, ◌-◌, ◌≡◌, refl, sym, ap, ◌∙◌, inl, inr, true, false, List, [], ◌∷◌, ◌++◌, map,
  arith, All, length, Bool-cases, min,
}
use penny_protocol.Base.Int.{ℤ, pos, ◌+ℤ◌, ◌-ℤ◌, ltb_ℤ, sum, int_laws}
use penny_protocol.Base.Text.{Text, text_eq, text_beq_iff}
use penny_protocol.Base.Map
use penny_protocol.Base.Map.{Map, IsDistinct}
use penny_protocol.Indexer.Snapshot.Allocate.{Row, grant, fill}

abbrev pub wallets_of : List Row → List Text
wallets_of = map (λ r. r.w)

-- One unit more for the first `n` rows.
unfoldable pub awards : ℕ → List Row → Map Text ℤ
awards n [] = []
awards zero (r ∷ rs) = (r.w, r.quotient) ∷ awards zero rs
awards (suc n) (r ∷ rs) = (r.w, r.quotient +ℤ pos 1) ∷ awards n rs

abbrev pub IsFresh : Map Text ℤ → List Row → Type 0
IsFresh m = All (λ r. Map.has m r.w ≡ false)

-- Adding another row's wallet keeps the later rows fresh.
IsFresh-set :
    (m : Map Text ℤ) (k : Text) (v : ℤ) (rows : List Row)
    → IsFresh m rows
    → Map.contains (wallets_of rows) k ≡ false
    → IsFresh (m ++ ((k, v) ∷ [])) rows
unfolding Map.contains Map.has
IsFresh-set m k v [] h d = tt
IsFresh-set m k v (r ∷ rs) h d = (
  Map.has-append m ((k, v) ∷ []) r.w ∙ ground (arith, h.0, text_beq_iff k r.w, text_beq_iff r.w k),
  IsFresh-set m k v rs h.1 (ground arith),
)

has_last : (m : Map Text ℤ) (k : Text) (v : ℤ) → Map.has (m ++ ((k, v) ∷ [])) k ≡ true
unfolding Map.has
has_last m k v = Map.has-append m ((k, v) ∷ []) k ∙ ground (arith, text_beq_iff k k)

grant-has :
    (rows : List Row) (left : ℤ) (m : Map Text ℤ) (k : Text)
    → Map.has m k ≡ true
    → Map.has (grant rows left m).0 k ≡ true
unfolding grant
grant-has [] left m k h = h
grant-has (r ∷ rs) left m k h = elim (Bool-cases (ltb_ℤ (pos 0) left)) [
  | inl more ↦ rw more (
      grant-has rs (left -ℤ pos 1) (Map.set m r.w (r.quotient +ℤ pos 1)) k
        (Map.has-set m r.w k (r.quotient +ℤ pos 1) ∙ ground (arith, h)))
  | inr done ↦ rw done h
]

one_less : (n : ℕ) → pos (suc n) -ℤ pos 1 ≡ pos n
one_less n = omega int_laws

grant-zero : (rows : List Row) (m : Map Text ℤ) → grant rows (pos 0) m ≡ (m, pos 0)
unfolding grant
grant-zero [] m = refl
grant-zero (r ∷ rs) m = refl

grant-suc :
    (r : Row) (rs : List Row) (n : ℕ) (m : Map Text ℤ)
    → Map.has m r.w ≡ false
    → grant (r ∷ rs) (pos (suc n)) m ≡ grant rs (pos n) (m ++ ((r.w, r.quotient +ℤ pos 1) ∷ []))
unfolding grant
grant-suc r rs n m h =
    let more : ltb_ℤ (pos 0) (pos (suc n)) ≡ true = ground arith in
    rw (more, one_less n, Map.set_fresh m r.w (r.quotient +ℤ pos 1) h)

-- Together the loops make the awards, in the order of the rows.
pub fill-grant :
    (rows : List Row) (n : ℕ) (m : Map Text ℤ)
    → IsFresh m rows
    → IsDistinct (wallets_of rows)
    → fill rows (grant rows (pos n) m).0 ≡ m ++ awards n rows
unfolding fill awards
fill-grant [] n m h d = unfold grant in sym (append-nil m)
fill-grant (r ∷ rs) zero m h d =
    rw (grant-zero (r ∷ rs) m, h.0, Map.set_fresh m r.w r.quotient h.0)
      (ap (λ p. fill rs p.0) (sym (grant-zero rs (m ++ ((r.w, r.quotient) ∷ []))))
        ∙ fill-grant rs zero (m ++ ((r.w, r.quotient) ∷ []))
            (IsFresh-set m r.w r.quotient rs h.1 d.0) d.1
        ∙ append_assoc m ((r.w, r.quotient) ∷ []) (awards zero rs))
fill-grant (r ∷ rs) (suc n) m h d =
    rw
      (
        grant-suc r rs n m h.0,
        grant-has rs (pos n) (m ++ ((r.w, r.quotient +ℤ pos 1) ∷ [])) r.w
            (has_last m r.w (r.quotient +ℤ pos 1)),
      )
      (fill-grant rs n (m ++ ((r.w, r.quotient +ℤ pos 1) ∷ []))
          (IsFresh-set m r.w (r.quotient +ℤ pos 1) rs h.1 d.0) d.1
        ∙ append_assoc m ((r.w, r.quotient +ℤ pos 1) ∷ []) (awards n rs))

-- What the first loop leaves over.
pub grant-left :
    (rows : List Row) (n : ℕ) (m : Map Text ℤ)
    → IsFresh m rows
    → IsDistinct (wallets_of rows)
    → (grant rows (pos n) m).1 ≡ pos (n - length rows)
unfolding grant
grant-left [] n m h d = omega int_laws
grant-left (r ∷ rs) zero m h d = omega int_laws
grant-left (r ∷ rs) (suc n) m h d =
    ap (λ p. p.1) (grant-suc r rs n m h.0)
    ∙ grant-left rs n (m ++ ((r.w, r.quotient +ℤ pos 1) ∷ []))
        (IsFresh-set m r.w (r.quotient +ℤ pos 1) rs h.1 d.0) d.1
    ∙ ap pos (omega arith)

-- The sum of the awards, while there are rows for all the units.
pub sum-awards :
    (n : ℕ) (rows : List Row)
    → sum (Map.values (awards n rows))
      ≡ sum (map (λ r. r.quotient) rows) +ℤ pos (min n (length rows))
unfolding awards sum Map.values
sum-awards n [] = omega int_laws
sum-awards zero (r ∷ rs) = rw (sum-awards zero rs) (omega int_laws)
sum-awards (suc n) (r ∷ rs) = rw (sum-awards n rs) (omega int_laws)

-- Another wallet's award is found behind the first row.
pub awards_step :
    (n : ℕ) (r : Row) (rs : List Row) (w : Text)
    → (r.w == w) ≡ false
    → (k : ℕ) × (Map.get (awards n (r ∷ rs)) w ≡ Map.get (awards k rs) w)
unfolding awards Map.get
awards_step zero r rs w h = (0, rw h)
awards_step (suc n) r rs w h = (n, rw h)
