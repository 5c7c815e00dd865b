-- ===== src/Web/Format/Grouped.antt =====
-- Where the commas of apps/web/app/page.tsx, `fmt`, come to stand.
use penny_protocol.Base.{
  subst, false, ◌^◌, ◌∙◌, ap, ◌≤◌, Bool-cases, refl, inr, inl, arith, zero, if◌then◌else◌, ◌%◌, ◌+◌,
  ltb, ◌⊎◌, ◌++◌, length, ◌&&◌, ◌∷◌, ◌/◌, ◌≡◌, suc, ◌<◌, true, [], ℕ, Bool,
}
use penny_protocol.Base.Text.{Text}
use Prim.Native.Nat.{suc, ℕ}
use penny_protocol.Base.Decimal.{show-less_ten, show-last, show, is_digit}
use penny_protocol.Web.Format.{
  pos, show_ℤ, fmt, is_in_threes, group_thousands, group_after, digit_run,
}
use penny_protocol.Indexer.Manifest.{show_ℤ}
use penny_protocol.Base.Int.{quot_ℤ_pos, pos}
use mathlib.Core.List.{append_assoc}

-- The digits of a number in groups of three, by division, on any fuel above the number.
grouped_fuel : ℕ → ℕ → Text
grouped_fuel zero n = []
grouped_fuel (suc f) n =
    let rest =
      grouped_fuel f (n / 1_000)
      ++ (b',' ∷ (48 + n / 100 % 10) ∷ (48 + n / 10 % 10) ∷ (48 + n % 10) ∷ []) in
    if ltb n 1_000 then show n else rest

pub grouped : ℕ → Text
grouped n = grouped_fuel (suc n) n

abbrev is_digits : Text → Bool
is_digits [] = true
is_digits (c ∷ cs) = is_digit c && is_digits cs

is_digits-append : (xs ys : Text) → is_digits (xs ++ ys) ≡ is_digits xs && is_digits ys
is_digits-append [] ys = refl
is_digits-append (x ∷ xs) ys = ground (arith, is_digits-append xs ys)

digit_run-append :
    (ds t : Text) → is_digits ds ≡ true → digit_run (ds ++ t) ≡ digit_run ds + digit_run t
unfolding digit_run
digit_run-append [] t h = omega arith
digit_run-append (d ∷ ds) t h =
    let here : is_digit d ≡ true = ground arith in
    let rest = digit_run-append ds t (ground arith) in rw (here, rest) (omega arith)

is_in_threes-more : (n : ℕ) → is_in_threes (suc (n + 3)) ≡ is_in_threes (suc n)
is_in_threes-more n = ground arith

-- Three more digits at the end of a text of digits are set off by a comma, and move no other.
group_after-three :
    (p : Bool) (ds : Text) (a b c : ℕ)
    → is_digits ds ≡ true
    → is_digit a ≡ true
    → is_digit b ≡ true
    → is_digit c ≡ true
    → (p ≡ true) ⊎ (ltb 0 (length ds) ≡ true)
    → group_after p (ds ++ (a ∷ b ∷ c ∷ [])) ≡ group_after p ds ++ (b',' ∷ a ∷ b ∷ c ∷ [])
unfolding group_after digit_run
group_after-three p [] a b c hs ha hb hc (inl h) = rw (h, ha, hb, hc) refl
group_after-three p [] a b c hs ha hb hc (inr h) = absurd (ground (arith, h))
group_after-three p (d ∷ ds) a b c hs ha hb hc some_before =
    let here : is_digit d ≡ true = ground arith in
    let more : is_digits ds ≡ true = ground arith in
    let rest = group_after-three true ds a b c more ha hb hc (inl refl) in
    let three : digit_run (a ∷ b ∷ c ∷ []) ≡ 3 = rw (ha, hb, hc) refl in
    let run = digit_run-append ds (a ∷ b ∷ c ∷ []) more in
    elim (Bool-cases (p && is_in_threes (suc (digit_run ds)))) [
      | inl comma ↦ rw (here, rest, run, three, is_in_threes-more (digit_run ds), comma) refl
      | inr none_here ↦
          rw (here, rest, run, three, is_in_threes-more (digit_run ds), none_here) refl
    ]

digit_of : (n : ℕ) → is_digit (48 + n % 10) ≡ true
digit_of n = ground arith

-- A number below a thousand has at most three digits.
show-less_hundred : (n : ℕ) → 10 ≤ n → n < 100 → show n ≡ (48 + n / 10) ∷ (48 + n % 10) ∷ []
show-less_hundred n h k =
    show-last n h ∙ ap (λ t. t ++ ((48 + n % 10) ∷ [])) (show-less_ten (n / 10) (omega arith))

show-less_thousand :
    (n : ℕ)
    → 100 ≤ n
    → n < 1_000
    → show n ≡ (48 + n / 100) ∷ (48 + n / 10 % 10) ∷ (48 + n % 10) ∷ []
show-less_thousand n h k =
    show-last n (omega arith)
    ∙ ap (λ t. t ++ ((48 + n % 10) ∷ []))
        (show-less_hundred (n / 10) (omega arith) (omega arith)
          ∙ ap (λ a. (48 + a) ∷ (48 + n / 10 % 10) ∷ []) (omega arith))

-- One with more has those of its thousands before its last three.
show-three :
    (n : ℕ)
    → 1_000 ≤ n
    → show n ≡ show (n / 1_000) ++ ((48 + n / 100 % 10) ∷ (48 + n / 10 % 10) ∷ (48 + n % 10) ∷ [])
show-three n h =
    let c = 48 + n % 10 in
    let b = 48 + n / 10 % 10 in
    let a = 48 + n / 100 % 10 in
    let hundreds : show (n / 100) ≡ show (n / 1_000) ++ (a ∷ []) =
      subst (λ k. show (n / 100) ≡ show k ++ (a ∷ [])) (omega arith)
        (show-last (n / 100) (omega arith)) in
    let tens : show (n / 10) ≡ (show (n / 1_000) ++ (a ∷ [])) ++ (b ∷ []) =
      subst (λ t. show (n / 10) ≡ t ++ (b ∷ [])) hundreds
        (subst (λ k. show (n / 10) ≡ show k ++ (b ∷ [])) (omega arith)
          (show-last (n / 10) (omega arith))) in
    show-last n (omega arith)
    ∙ ap (λ t. t ++ (c ∷ [])) (tens ∙ append_assoc (show (n / 1_000)) (a ∷ []) (b ∷ []))
    ∙ append_assoc (show (n / 1_000)) (a ∷ b ∷ []) (c ∷ [])

some_digit-append : (xs : Text) (c : ℕ) → ltb 0 (length (xs ++ (c ∷ []))) ≡ true
some_digit-append [] c = refl
some_digit-append (x ∷ xs) c = ground arith

show-is_digits_fuel :
    (f n : ℕ) → n < f → (is_digits (show n) ≡ true) × (ltb 0 (length (show n)) ≡ true)
show-is_digits_fuel zero n h = elim h [ ]
show-is_digits_fuel (suc f) n h = elim (Bool-cases (ltb n 10)) [
  | inl small ↦ rw (show-less_ten n (ground arith)) (ground arith, refl)
  | inr large ↦
      let (digits, _) = show-is_digits_fuel f (n / 10) (ground arith) in
      rw (show-last n (ground arith)) (
        is_digits-append (show (n / 10)) ((48 + n % 10) ∷ []) ∙ (rw (digits, digit_of n) refl),
        some_digit-append (show (n / 10)) (48 + n % 10),
      )
]

group_thousands-small : (n : ℕ) → n < 1_000 → group_thousands (show n) ≡ show n
unfolding group_thousands group_after digit_run
group_thousands-small n h = elim (Bool-cases (ltb n 10)) [
  | inl one ↦ rw (show-less_ten n (ground arith)) refl
  | inr more ↦ elim (Bool-cases (ltb n 100)) [
    | inl two ↦
        let first : is_digit (48 + n / 10) ≡ true = ground arith in
        rw (show-less_hundred n (ground arith) (ground arith), first, digit_of n) refl
    | inr three ↦
        let first : is_digit (48 + n / 100) ≡ true = ground arith in
        rw (show-less_thousand n (ground arith) h, first, digit_of (n / 10), digit_of n) refl
  ]
]

group_thousands-fuel : (f n : ℕ) → n < f → group_thousands (show n) ≡ grouped_fuel f n
unfolding grouped_fuel group_thousands
group_thousands-fuel zero n h = elim h [ ]
group_thousands-fuel (suc f) n h = elim (Bool-cases (ltb n 1_000)) [
  | inl small ↦ rw small (group_thousands-small n (ground arith))
  | inr large ↦
      let (digits, some_digit) = show-is_digits_fuel (suc (n / 1_000)) (n / 1_000) (omega arith) in
      rw large (
        ap group_thousands (show-three n (ground arith))
        ∙ group_after-three false (show (n / 1_000)) (48 + n / 100 % 10) (48 + n / 10 % 10)
            (48 + n % 10) digits (digit_of (n / 100)) (digit_of (n / 10)) (digit_of n)
            (inr some_digit)
        ∙ ap (λ t. t ++ (b',' ∷ (48 + n / 100 % 10) ∷ (48 + n / 10 % 10) ∷ (48 + n % 10) ∷ []))
            (group_thousands-fuel f (n / 1_000) (ground arith)))
]

-- An amount of zero or more is printed as its whole tokens, rounded down, with a comma before each
-- three digits: those of the number of thousands first, and then the last three, zeros included.
pub fmt-grouped : (n : ℕ) → fmt (pos n) ≡ grouped (n / 10 ^ 18)
unfolding fmt grouped show_ℤ
fmt-grouped n =
    rw (quot_ℤ_pos n (10 ^ 18))
      (group_thousands-fuel (suc (n / 10 ^ 18)) (n / 10 ^ 18) (omega arith))
