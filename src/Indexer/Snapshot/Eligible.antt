-- ===== src/Indexer/Snapshot/Eligible.antt =====
-- The wallets that `eligible` selects, and their supply.
use mathlib.Core.List.{append_assoc, append-nil}
use penny_protocol.Base.{
  ◌&&◌, not, ◌↔◌, ap₂, Option, ◌≡◌, refl, sym, ap, ◌∙◌, subst, some, none, inl, inr, Bool, true,
  false, List, [], ◌∷◌, ◌++◌, arith, All, if◌then◌else◌, Bool-cases, get_or, map_id,
}
use penny_protocol.Base.Int.{ltb_ℤ, ℤ, pos, ◌+ℤ◌, sum, int_laws, ◌≤ℤ◌, pos_part, pos_of_nonneg}
use penny_protocol.Base.Text.{Text, text_eq, text_leb, text_leb_total, text_leb_trans, text_beq_iff}
use penny_protocol.Base.Map
use penny_protocol.Base.Map.{Map, IsMap, IsDistinct}
use penny_protocol.Base.Sort.{
  sort, IsSorted, sort-IsSorted, sum-sort, All-sort, contains-map-sort, sort-IsDistinct,
}
use penny_protocol.Indexer.Snapshot.{Eligibility, counts, pick, eligible}
use penny_protocol.Indexer.Snapshot.Allocate.Rows.{held, HasBalances}

abbrev elected : List Text → ℤ → Eligibility
elected ws total = record { wallets = sort text_leb ws; total_eligible_supply = total }

elect : {xs ys : List Text} {x y : ℤ} → xs ≡ ys → x ≡ y → elected xs x ≡ elected ys y
elect p q = ap₂ elected p q

module _ (threshold : ℤ) (exclusions : List Text) where
  -- The entries that pass both guards.
  unfoldable pub passing : Map Text ℤ → Map Text ℤ
  passing [] = []
  passing ((addr, balance) ∷ rest) =
      let next = passing rest in
      if counts threshold exclusions addr balance then (addr, balance) ∷ next else next

  passes : Text → ℤ → Bool
  passes = counts threshold exclusions

  has-passing : (m : Map Text ℤ) (k : Text) → Map.has m k ≡ false → Map.has (passing m) k ≡ false
  unfolding passing Map.has
  has-passing [] k h = refl
  has-passing ((a, b) ∷ m) k h = ground (arith, has-passing m k)

  passing-IsMap : (m : Map Text ℤ) → IsMap m → IsMap (passing m)
  unfolding passing
  passing-IsMap [] h = tt
  passing-IsMap ((a, b) ∷ m) h = elim (Bool-cases (counts threshold exclusions a b)) [
    | inl yes_it ↦ rw yes_it (has-passing m a h.0, passing-IsMap m h.1)
    | inr not_it ↦ rw not_it (passing-IsMap m h.1)
  ]

  -- The guards on what a look-up found.
  abbrev pub qualifies : Text → Option ℤ → Bool
  qualifies addr none = false
  qualifies addr (some balance) =
      not (ltb_ℤ balance threshold) && not (Map.contains exclusions addr)

  has-passing_lem :
      (m : Map Text ℤ) (k : Text) → IsMap m → Map.has (passing m) k ≡ qualifies k (Map.get m k)
  unfolding passing Map.has Map.get counts
  has-passing_lem [] k h = refl
  has-passing_lem ((a, b) ∷ m) k h =
      ground (arith, text_beq_iff a k, has-passing m a h.0, has-passing_lem m k h.1)

  -- The wallets found so far are none of the map's keys.
  abbrev IsApart : List Text → Map Text ℤ → Type 0
  IsApart s = All (λ e. Map.contains s e.0 ≡ false)

  IsApart-add :
      (s : List Text) (a : Text) (m : Map Text ℤ)
      → IsApart s m
      → Map.has m a ≡ false
      → IsApart (s ++ (a ∷ [])) m
  unfolding Map.has Map.contains
  IsApart-add s a [] h d = tt
  IsApart-add s a ((k, b) ∷ m) h d = (
    Map.contains-append s (a ∷ []) k ∙ ground (arith, h.0, text_beq_iff a k, text_beq_iff k a),
    IsApart-add s a m h.1 (ground arith),
  )

  pick_lem :
      (s : List Text) (total : ℤ) (m : Map Text ℤ)
      → IsMap m
      → IsApart s m
      → pick threshold exclusions s total m ≡ record {
        wallets = sort text_leb (s ++ Map.keys (passing m));
        total_eligible_supply = total +ℤ sum (Map.values (passing m));
      }
  unfolding pick passing Map.keys Map.values sum Map.add
  pick_lem s total [] h apart = elect (sym (append-nil s)) (omega int_laws)
  pick_lem s total ((a, b) ∷ m) h (new, apart) =
      elim (Bool-cases (counts threshold exclusions a b)) [
        | inl passed ↦
            rw (passed, new)
              (pick_lem (s ++ (a ∷ [])) (total +ℤ b) m h.1 (IsApart-add s a m apart h.0)
                ∙ elect (append_assoc s (a ∷ []) (Map.keys (passing m))) (omega int_laws))
        | inr failed ↦ rw failed (pick_lem s total m h.1 apart)
      ]

  passing-IsPart : (big m : Map Text ℤ) → Map.IsPart big m → Map.IsPart big (passing m)
  unfolding passing
  passing-IsPart big [] h = tt
  passing-IsPart big ((a, b) ∷ m) h = elim (Bool-cases (counts threshold exclusions a b)) [
    | inl passed ↦ rw passed (h.0, passing-IsPart big m h.1)
    | inr failed ↦ rw failed (passing-IsPart big m h.1)
  ]

  held-keys : (big m : Map Text ℤ) → Map.IsPart big m → held big (Map.keys m) ≡ sum (Map.values m)
  unfolding Map.keys Map.values sum
  held-keys big [] h = refl
  held-keys big ((a, b) ∷ m) h = rw (h.0, held-keys big m h.1)

  IsApart-nil : (m : Map Text ℤ) → IsApart [] m
  unfolding Map.contains
  IsApart-nil [] = tt
  IsApart-nil (e ∷ m) = (refl, IsApart-nil m)

  -- An address with a balance of at least the threshold, which is not excluded.
  abbrev pub IsEligible : Map Text ℤ → Text → Type 0
  IsEligible balances w =
      (balance : ℤ) × (Map.get balances w ≡ some balance)
      × (threshold ≤ℤ balance)
      × (Map.contains exclusions w ≡ false)

  qualifies_iff :
      (w : Text) (o : Option ℤ)
      → (qualifies w o ≡ true) ↔ (
          (balance : ℤ) × (o ≡ some balance)
          × (threshold ≤ℤ balance)
          × (Map.contains exclusions w ≡ false))
  qualifies_iff w none = (λ h. absurd (cc h), λ (b, same, enough, other). absurd (cc same))
  qualifies_iff w (some b) = (
    λ h. (b, refl, ground arith, ground arith),
    λ (c, same, enough, other).
        let e : b ≡ c = cc same in
        let not_less : ltb_ℤ b threshold ≡ false = ground (arith, e, enough) in
        rw (not_less, other) refl,
  )

  -- What `eligible` promises of its result.
  pub record IsElection (balances : Map Text ℤ) (e : Eligibility) : Type 0 where
    pub selected : (w : Text) → (Map.contains e.wallets w ≡ true) ↔ IsEligible balances w
    pub distinct : IsDistinct e.wallets
    pub ascending : IsSorted text_leb e.wallets
    pub supply : e.total_eligible_supply ≡ held balances e.wallets

  eligible_lem :
      (m : Map Text ℤ)
      → IsMap m
      → eligible m threshold exclusions
        ≡ elected (Map.keys (passing m)) (sum (Map.values (passing m)))
  unfolding eligible
  eligible_lem m h = pick_lem [] (pos 0) m h (IsApart-nil m) ∙ elect refl (omega int_laws)

  -- For every map of balances, `eligible` returns exactly the addresses whose balance is at least
  -- the threshold and that are not excluded, each once and in ascending order, and as the eligible
  -- supply the sum of their balances.
  pub eligible-IsElection :
      (balances : Map Text ℤ)
      → IsMap balances
      → IsElection balances (eligible balances threshold exclusions)
  eligible-IsElection m h = rw (eligible_lem m h) (record {
    selected = λ w.
        let same =
          same_keys (Map.keys (passing m)) w
          ∙ Map.contains-keys (passing m) w
          ∙ has-passing_lem m w h in
        let (found, back) = qualifies_iff w (Map.get m w) in
        (λ here. found (sym same ∙ here), λ e. same ∙ back e);
    distinct = subst IsDistinct (map_id (sort text_leb (Map.keys (passing m)))) (
        sort-IsDistinct text_leb (λ (x : Text). x) (Map.keys (passing m))
          (subst IsDistinct (sym (map_id (Map.keys (passing m))))
            (Map.keys-IsDistinct (passing m) (passing-IsMap m h))));
    ascending = sort-IsSorted text_leb text_leb_total text_leb_trans (Map.keys (passing m));
    supply =
        sym (held-keys m (passing m) (passing-IsPart m m (Map.IsPart-self m h)))
        ∙ sym (sum-sort text_leb (λ w. get_or (Map.get m w) (pos 0)) (Map.keys (passing m)));
  })
    where
      same_keys : (l : List Text) (w : Text) → Map.contains (sort text_leb l) w ≡ Map.contains l w
      same_keys l w =
          ap (λ x. Map.contains x w) (sym (map_id (sort text_leb l)))
          ∙ contains-map-sort text_leb (λ (x : Text). x) l w
          ∙ ap (λ x. Map.contains x w) (map_id l)

  nonneg_of_counts :
      (a : Text) (b : ℤ) → pos 0 ≤ℤ threshold → counts threshold exclusions a b ≡ true → pos 0 ≤ℤ b
  unfolding counts
  nonneg_of_counts a b p h = ground arith

  passing-HasBalances :
      (big m : Map Text ℤ)
      → pos 0 ≤ℤ threshold
      → Map.IsPart big m
      → HasBalances big (Map.keys (passing m))
  unfolding passing Map.keys
  passing-HasBalances big [] p h = tt
  passing-HasBalances big ((a, b) ∷ m) p h = elim (Bool-cases (counts threshold exclusions a b)) [
    | inl passed ↦ rw passed (
      (pos_part b, h.0 ∙ ap some (pos_of_nonneg b (nonneg_of_counts a b p passed))),
      passing-HasBalances big m p h.1,
    )
    | inr failed ↦ rw failed (passing-HasBalances big m p h.1)
  ]

  -- With a threshold of zero or more, no eligible balance is negative.
  pub eligible-HasBalances :
      (m : Map Text ℤ)
      → pos 0 ≤ℤ threshold
      → IsMap m
      → HasBalances m (eligible m threshold exclusions).wallets
  eligible-HasBalances m p h =
      rw (eligible_lem m h) (
        All-sort text_leb _ (Map.keys (passing m))
          (passing-HasBalances m m p (Map.IsPart-self m h)))

-- Balances of zero or more have such a sum.
pub held_nonneg :
    (balances : Map Text ℤ) (ws : List Text) → HasBalances balances ws → pos 0 ≤ℤ held balances ws
unfolding sum
held_nonneg balances [] h = omega arith
held_nonneg balances (w ∷ ws) ((b, found), h) =
    rw found (omega (int_laws, held_nonneg balances ws h))
