-- ===== src/Web/Search.antt =====
-- The language's `trim` and `includes`, on which the pages and scripts of apps/web search texts.
use penny_protocol.Base.{
  arith, ap₂, ap, inr, inl, Bool-cases, nat_eq, refl, ◌++◌, ◌==◌, [], false, ◌&&◌, ◌||◌, ◌↔◌,
  if◌then◌else◌, leb, true, ◌∷◌, ◌≡◌, Bool, ℕ,
}
use penny_protocol.Base.Text.{Text}
use Prim.Native.Nat.{ℕ}
use penny_protocol.Keeper.Config.{is_blank}

-- The white space and line ends that `trim` takes away.
abbrev pub is_space : ℕ → Bool
is_space c =
    (leb 9 c && leb c 13)
    || ((c == 32)
        || ((c == 160)
            || ((c == 5_760)
                || ((leb 8_192 c && leb c 8_202)
                    || ((c == 8_232)
                        || ((c == 8_233)
                            || ((c == 8_239)
                                || ((c == 8_287) || ((c == 12_288) || (c == 65_279))))))))))

unfoldable pub trim_start : Text → Text
trim_start [] = []
trim_start (c ∷ cs) = let rest = trim_start cs in if is_space c then rest else c ∷ cs

-- Nothing is left of a text of white space alone.
unfoldable pub trim_end : Text → Text
trim_end [] = []
trim_end (c ∷ cs) = let rest = trim_end cs in if is_space c && is_blank rest then [] else c ∷ rest

unfoldable pub trim : Text → Text
unfolding trim_start trim_end
trim t = trim_end (trim_start t)

unfoldable pub starts_with : Text → Text → Bool
starts_with t [] = true
starts_with [] (p ∷ ps) = false
starts_with (c ∷ cs) (p ∷ ps) = let rest = starts_with cs ps in if c == p then rest else false

unfoldable pub includes : Text → Text → Bool
unfolding starts_with
includes [] part = is_blank part
includes (c ∷ cs) part = starts_with (c ∷ cs) part || includes cs part

-- The part stands at the front, or somewhere.
abbrev pub Starts : Text → Text → Type 0
Starts t part = (after : Text) × (t ≡ part ++ after)

abbrev pub Contains : Text → Text → Type 0
Contains t part = (before : Text) × (after : Text) × (t ≡ before ++ (part ++ after))

starts_with_iff : (t part : Text) → (starts_with t part ≡ true) ↔ Starts t part
unfolding starts_with
starts_with_iff t [] = ((λ _. (t, refl)), λ _. refl)
starts_with_iff [] (p ∷ ps) = ((λ h. absurd (cc h)), λ found. absurd (cc found.1))
starts_with_iff (c ∷ cs) (p ∷ ps) = elim (Bool-cases (c == p)) [
  | inl same ↦ (
    (λ h.
        let (after, e) = (starts_with_iff cs ps).0 (rw same at h) in
        (after, ap₂ (λ x t. x ∷ t) (ground (arith, same)) e)),
    λ found.
        let rest : cs ≡ ps ++ found.0 = cc found.1 in
        rw same ((starts_with_iff cs ps).1 (found.0, rest)),
  )
  | inr other ↦ (
    (λ h. absurd (cc (rw other at h))),
    λ found. let head : c ≡ p = cc found.1 in absurd (ground arith),
  )
]

not_within : (p : ℕ) (ps : Text) → ¬ Contains [] (p ∷ ps)
not_within p ps ([], after, e) = cc e
not_within p ps (x ∷ before, after, e) = cc e

-- Where the part is contained in a text, it is at its front or contained in the rest.
within :
    (c : ℕ) (cs part before after : Text)
    → c ∷ cs ≡ before ++ (part ++ after)
    → (Contains cs part → includes cs part ≡ true)
    → starts_with (c ∷ cs) part || includes cs part ≡ true
within c cs part [] after e later = rw ((starts_with_iff (c ∷ cs) part).1 (after, e)) refl
within c cs part (x ∷ before) after e later =
    let rest : cs ≡ before ++ (part ++ after) = cc e in ground (arith, later (before, after, rest))

-- A text includes another exactly where it is that text with something before and after.
pub includes_iff : (t part : Text) → (includes t part ≡ true) ↔ Contains t part
unfolding includes
includes_iff [] [] = ((λ h. ([], [], refl)), λ found. refl)
includes_iff [] (p ∷ ps) = ((λ h. absurd (cc h)), λ found. absurd (not_within p ps found))
includes_iff (c ∷ cs) part = (
  (λ h. elim (Bool-cases (starts_with (c ∷ cs) part)) [
    | inl here ↦ let (after, e) = (starts_with_iff (c ∷ cs) part).0 here in ([], after, e)
    | inr later ↦
        let (before, after, e) = (includes_iff cs part).0 (rw later at h) in
        (c ∷ before, after, ap (λ t. c ∷ t) e)
  ]),
  λ (before, after, e). within c cs part before after e (includes_iff cs part).1,
)
