-- ===== src/Keeper/Purchase/Funding.antt =====
-- The funding ledger adds up, token by token.
use penny_protocol.Base.Map
use penny_protocol.Base.Tabulate.{
  has-set_all, get-set_all_gone, get-set_all, contains-set_of, set_all,
}
use penny_protocol.Base.Text.{text_beq_iff, text_eq, Text}
use penny_protocol.Keeper.Purchase.{
  FundingLedger, ℤ, RewardDeposit, fund_tokens, funding, add_deposits,
}
use penny_protocol.Base.Map.{Map}
use penny_protocol.Base.{
  ap, sym, false, refl, inr, inl, Bool-cases, ◌∙◌, arith, [], true, ◌==◌, ◌∷◌, map, if◌then◌else◌,
  get_or, Bool, ◌≡◌, List,
}
use penny_protocol.Base.Int.{int_laws, ◌+ℤ◌, pos, ℤ}

-- What the deposits bring of a token.
unfoldable pub deposited : Text → List RewardDeposit → ℤ
deposited token [] = pos 0
deposited token (d ∷ ds) =
    let rest = deposited token ds in if d.token == token then d.amount +ℤ rest else rest

-- Some deposit is of the token.
abbrev pub is_deposited : Text → List RewardDeposit → Bool
is_deposited token ds = Map.contains (map (λ (d : RewardDeposit). d.token) ds) token

abbrev pub residual_of : Map Text ℤ → Text → ℤ
residual_of m token = get_or (Map.get m token) (pos 0)

pub get-add_deposits :
    (m : Map Text ℤ) (ds : List RewardDeposit) (token : Text)
    → residual_of (add_deposits m ds) token ≡ residual_of m token +ℤ deposited token ds
unfolding add_deposits deposited
get-add_deposits m [] token = omega int_laws
get-add_deposits m (d ∷ ds) token =
    get-add_deposits (Map.set m d.token (residual_of m d.token +ℤ d.amount)) ds token
    ∙ elim (Bool-cases (d.token == token)) [
      | inl same ↦
          rw
            (
              Map.get-set m d.token token (residual_of m d.token +ℤ d.amount),
              same,
              (text_beq_iff d.token token).0 same,
            )
            (omega int_laws)
      | inr other ↦ rw (Map.get-set m d.token token (residual_of m d.token +ℤ d.amount), other) refl
    ]

has-add_deposits :
    (m : Map Text ℤ) (ds : List RewardDeposit) (token : Text)
    → Map.has (add_deposits m ds) token ≡ (if Map.has m token then true else is_deposited token ds)
unfolding add_deposits Map.contains
has-add_deposits m [] token = ground arith
has-add_deposits m (d ∷ ds) token =
    has-add_deposits (Map.set m d.token (residual_of m d.token +ℤ d.amount)) ds token
    ∙ ground (arith, Map.has-set m d.token token (residual_of m d.token +ℤ d.amount))

fund_tokens-set_all :
    (per_asset prior norm funded : Map Text ℤ) (tokens : List Text)
    → fund_tokens per_asset prior norm funded tokens ≡ (
      set_all norm (residual_of prior) tokens,
      set_all funded (λ t. residual_of per_asset t +ℤ residual_of prior t) tokens,
    )
unfolding fund_tokens set_all
fund_tokens-set_all per_asset prior norm funded [] = refl
fund_tokens-set_all per_asset prior norm funded (t ∷ ts) =
    fund_tokens-set_all per_asset prior (Map.set norm t (residual_of prior t))
      (Map.set funded t (residual_of per_asset t +ℤ residual_of prior t)) ts

-- What the ledger says of one token.
pub record IsFunded (deposits : List RewardDeposit) (prior : Map Text ℤ) (l : FundingLedger)
    (token : Text) : Type 0 where
  pub paid_in : residual_of l.per_asset token ≡ deposited token deposits
  pub carried : residual_of l.prior_residual token ≡ residual_of prior token
  pub funded :
      residual_of l.funded_totals token ≡ deposited token deposits +ℤ residual_of prior token
  pub listed :
      Map.has l.funded_totals token
      ≡ (if is_deposited token deposits then true else Map.has prior token)

-- For every list of deposits, every map of residuals and every token: the ledger's deposits are the
-- sum of those of the token, its residual is the earlier one, the token's funding is their sum, and
-- the token is listed exactly when it has a deposit or a residual.
pub funding-IsFunded :
    (deposits : List RewardDeposit) (prior : Map Text ℤ) (token : Text)
    → IsFunded deposits prior (funding deposits prior) token
unfolding funding Map.contains Map.get Map.has ◌+ℤ◌
funding-IsFunded deposits prior token = record {
  paid_in = paid;
  carried =
      rw (fund_tokens-set_all per_asset prior [] [] tokens)
        (by_list (residual_of prior) carried_none);
  funded = rw (fund_tokens-set_all per_asset prior [] [] tokens) (
      by_list (λ t. residual_of per_asset t +ℤ residual_of prior t) funded_none
      ∙ ap (λ x. x +ℤ residual_of prior token) paid);
  listed = rw (fund_tokens-set_all per_asset prior [] [] tokens) (
      has-set_all [] (λ t. residual_of per_asset t +ℤ residual_of prior t) tokens token
      ∙ ground (arith, all_tokens));
}
  where
    per_asset : Map Text ℤ
    per_asset = add_deposits [] deposits

    tokens : List Text
    tokens = Map.set_of (Map.set_of [] (Map.keys per_asset)) (Map.keys prior)

    paid : residual_of per_asset token ≡ deposited token deposits
    paid = get-add_deposits [] deposits token ∙ unfold Map.get in omega int_laws

    all_tokens :
        Map.contains tokens token
        ≡ (if is_deposited token deposits then true else Map.has prior token)
    all_tokens = ground (
      arith,
      contains-set_of (Map.set_of [] (Map.keys per_asset)) (Map.keys prior) token,
      contains-set_of [] (Map.keys per_asset) token,
      Map.contains-keys prior token,
      Map.contains-keys per_asset token,
      has-add_deposits [] deposits token,
    )

    carried_none : Map.contains tokens token ≡ false → residual_of prior token ≡ pos 0
    carried_none gone = rw (Map.get-none prior token (ground (arith, all_tokens, gone))) refl

    funded_none :
        Map.contains tokens token ≡ false
        → residual_of per_asset token +ℤ residual_of prior token ≡ pos 0
    funded_none gone =
        rw
          (
            carried_none gone,
            Map.get-none per_asset token
                (ground (arith, all_tokens, gone, has-add_deposits [] deposits token)),
          )
          refl

    by_list :
        (f : Text → ℤ)
        → (Map.contains tokens token ≡ false → f token ≡ pos 0)
        → residual_of (set_all [] f tokens) token ≡ f token
    by_list f zero_f = elim (Bool-cases (Map.contains tokens token)) [
      | inl there ↦ rw (get-set_all [] f tokens token there) refl
      | inr gone ↦ rw (get-set_all_gone [] f tokens token gone) (sym (zero_f gone))
    ]
