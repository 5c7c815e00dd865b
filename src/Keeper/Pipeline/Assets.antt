-- ===== src/Keeper/Pipeline/Assets.antt =====
-- The assets of an epoch are those with something to pay out, and fit `buildEpoch`.
use penny_protocol.Base.Map
use penny_protocol.Base.{
  refl, ap, Bool-cases, ◌∙◌, some, inr, arith, inl, ◌&&◌, false, ◌⊎◌, if◌then◌else◌, Bool, ◌==◌, [],
  ◌∷◌,
}
use penny_protocol.Keeper.Pipeline.{ℤ, Text, add_residuals, funded_assets}
use penny_protocol.Base.Map.{IsDistinct, Map}
use penny_protocol.Base.{◌↔◌, true, ◌≡◌, get_or, List, filter_by}
use penny_protocol.Base.Text.{text_beq_iff, text_leb_trans, text_leb_total, text_eq, text_leb, Text}
use penny_protocol.Base.Int.{int_eq, beq_ℤ_iff, ltb_ℤ, ◌≤ℤ◌, int_laws, ◌+ℤ◌, pos, ℤ}
use penny_protocol.Base.Sort.{sort-IsDistinct_self, contains-sort, sort, IsSorted, sort-IsSorted}
use penny_protocol.Base.Tabulate.{
  set_of-IsDistinct, filter_by-IsDistinct, contains-set_of, contains-filter_by,
}

-- What the funding brings and the residuals leave of a token.
unfoldable pub carried : Map Text ℤ → Text → ℤ
carried [] token = pos 0
carried ((k, n) ∷ rest) token =
    let later = carried rest token in if k == token then n +ℤ later else later

funds_of : Map Text ℤ → Text → ℤ
funds_of m token = get_or (Map.get m token) (pos 0)

get-add_residuals :
    (residuals funded : Map Text ℤ) (token : Text)
    → get_or (Map.get (add_residuals funded residuals) token) (pos 0)
      ≡ get_or (Map.get funded token) (pos 0) +ℤ carried residuals token
unfolding add_residuals carried
get-add_residuals [] funded token = omega int_laws
get-add_residuals ((k, n) ∷ rest) funded token = elim (Bool-cases (n == pos 0)) [
  | inl nothing ↦ rw nothing (
      get-add_residuals rest funded token
      ∙ absent (Bool-cases (k == token)) ((beq_ℤ_iff n (pos 0)).0 nothing))
  | inr something ↦ rw something (
      get-add_residuals rest (Map.set funded k (get_or (Map.get funded k) (pos 0) +ℤ n)) token
      ∙ rw (Map.get-set funded k token (get_or (Map.get funded k) (pos 0) +ℤ n))
          (present (Bool-cases (k == token))))
]
  where
    later : ℤ
    later = carried rest token

    absent :
        ((k == token) ≡ true) ⊎ ((k == token) ≡ false)
        → n ≡ pos 0
        → get_or (Map.get funded token) (pos 0) +ℤ later
          ≡ get_or (Map.get funded token) (pos 0) +ℤ (if k == token then n +ℤ later else later)
    absent (inl same) z = rw (same, z) (omega int_laws)
    absent (inr other) z = rw other refl

    present :
        ((k == token) ≡ true) ⊎ ((k == token) ≡ false)
        → get_or
              (if k == token
                then some (get_or (Map.get funded k) (pos 0) +ℤ n)
                else Map.get funded token)
              (pos 0)
            +ℤ later
          ≡ get_or (Map.get funded token) (pos 0) +ℤ (if k == token then n +ℤ later else later)
    present (inl same) = rw (same, (text_beq_iff k token).0 same) (omega int_laws)
    present (inr other) = rw other refl

-- What `treeBuild` asks the indexer to pay out.
pub record IsAssetList (funded residuals : Map Text ℤ) (assets : List Text) : Type 0 where
  pub listed :
      (a : Text)
      → (Map.contains assets a ≡ true)
        ↔ (pos 1 ≤ℤ get_or (Map.get funded a) (pos 0) +ℤ carried residuals a)
  pub ascending : IsSorted text_leb assets
  pub distinct : IsDistinct assets

-- For every funding and residuals: the assets of an epoch are exactly the tokens whose funding and
-- residuals come to more than zero, each once and in ascending order.
pub funded_assets-IsAssetList :
    (funded residuals : Map Text ℤ)
    → IsAssetList funded residuals (funded_assets (add_residuals funded residuals))
unfolding funded_assets
funded_assets-IsAssetList funded residuals = record {
  listed = λ a.
      let total = get-add_residuals residuals funded a in
      (
        λ h. ground (arith, in_list a, total, h),
        λ h. ground (arith, in_list a, total, h, in_keys a),
      );
  ascending = sort-IsSorted text_leb text_leb_total text_leb_trans _;
  distinct = sort-IsDistinct_self text_leb _ (
      filter_by-IsDistinct has_funds (Map.set_of [] (Map.keys totals))
        (set_of-IsDistinct [] (Map.keys totals) tt));
}
  where
    totals : Map Text ℤ
    totals = add_residuals funded residuals

    has_funds : Text → Bool
    has_funds a = ltb_ℤ (pos 0) (get_or (Map.get totals a) (pos 0))

    in_list :
        (a : Text)
        → Map.contains (sort text_leb (filter_by has_funds (Map.set_of [] (Map.keys totals)))) a
          ≡ (Map.has totals a && has_funds a)
    in_list a =
        contains-sort text_leb (filter_by has_funds (Map.set_of [] (Map.keys totals))) a
        ∙ contains-filter_by has_funds (Map.set_of [] (Map.keys totals)) a
        ∙ ap (λ b. b && has_funds a)
            (contains-set_of [] (Map.keys totals) a ∙ listed_key (Map.contains-keys totals a))
      where
        listed_key :
            Map.contains (Map.keys totals) a ≡ Map.has totals a
            → (if Map.contains (Map.keys totals) a then true else Map.contains [] a)
              ≡ Map.has totals a
        listed_key e = unfold Map.contains in ground (arith, e)

    in_keys : (a : Text) → has_funds a ≡ true → Map.has totals a ≡ true
    in_keys a h = elim (Bool-cases (Map.has totals a)) [
      | inl there ↦ there
      | inr missing ↦ absurd (cc (rw (Map.get-none totals a missing) at h))
    ]
