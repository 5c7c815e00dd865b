-- ===== src/Base/Decimal.antt =====
-- Numbers in template strings: decimal digits, most significant first, and the number that a run
-- of digits reads as.
use Prim.Native.Nat.{◌≤◌, ℕ, zero, suc, ◌+◌, ◌-◌, ◌*◌, ◌/◌, ◌%◌, ◌<◌}
use mathlib.Core.Path.{◌≡◌, refl, ap, ◌∙◌}
use mathlib.Core.Bool.{Bool, true, false, ◌&&◌}
use mathlib.Core.Logic.{inl, inr}
use mathlib.Core.List.{[], ◌∷◌, ◌++◌, append_assoc}
use native.Mathlib.Omega.{arith}
use penny_protocol.Base.Tests.{ltb, leb, if◌then◌else◌, Bool-cases}
use penny_protocol.Base.Text.{Text}
use penny_protocol.Base.{◌≤◌}

-- `\d`
abbrev pub is_digit : ℕ → Bool
is_digit c = leb 48 c && leb c 57

show_fuel : ℕ → ℕ → Text
show_fuel zero n = []
show_fuel (suc f) n =
    let rest = show_fuel f (n / 10) ++ ((48 + n % 10) ∷ []) in
    if ltb n 10 then (48 + n) ∷ [] else rest

-- `n.toString()`
unfoldable pub show : ℕ → Text
unfolding show_fuel
show n = show_fuel (suc n) n

-- The value of the digits, after those already read, and the rest of the text.
unfoldable pub read_digits : ℕ → Text → ℕ × Text
read_digits n [] = (n, [])
read_digits n (c ∷ cs) =
    let rest = read_digits (n * 10 + (c - 48)) cs in if is_digit c then rest else (n, c ∷ cs)

-- A text that does not begin with a digit.
abbrev pub EndsNumber : Text → Type 0
EndsNumber [] = Unit
EndsNumber (c ∷ cs) = is_digit c ≡ false

read_digits-stop : (n : ℕ) (cs : Text) → EndsNumber cs → read_digits n cs ≡ (n, cs)
unfolding read_digits
read_digits-stop n [] h = refl
read_digits-stop n (c ∷ cs) h = rw h refl

read_digits-digit :
    (n d : ℕ) (cs : Text) → d < 10 → read_digits n ((48 + d) ∷ cs) ≡ read_digits (n * 10 + d) cs
unfolding read_digits
read_digits-digit n d cs h =
    let e : is_digit (48 + d) ≡ true = ground arith in
    rw e (ap (λ k. read_digits (n * 10 + k) cs) (omega arith))

read_digits-show_fuel :
    (f n : ℕ) (cs : Text) → n < f → read_digits 0 (show_fuel f n ++ cs) ≡ read_digits n cs
unfolding show_fuel
read_digits-show_fuel zero n cs h = elim h [ ]
read_digits-show_fuel (suc f) n cs h = elim (Bool-cases (ltb n 10)) [
  | inl small ↦
      rw small (read_digits-digit 0 n cs (ground arith) ∙ ap (λ k. read_digits k cs) (omega arith))
  | inr large ↦ rw large (
      ap (read_digits 0) (append_assoc (show_fuel f (n / 10)) ((48 + n % 10) ∷ []) cs)
      ∙ read_digits-show_fuel f (n / 10) ((48 + n % 10) ∷ cs) (ground arith)
      ∙ read_digits-digit (n / 10) (n % 10) cs (omega arith)
      ∙ ap (λ k. read_digits k cs) (omega arith))
]

-- The digits of a number read back, up to the first character that is none.
pub read_digits-show : (n : ℕ) (cs : Text) → EndsNumber cs → read_digits 0 (show n ++ cs) ≡ (n, cs)
unfolding show
read_digits-show n cs h = read_digits-show_fuel (suc n) n cs (omega arith) ∙ read_digits-stop n cs h

show_fuel-digit :
    (f n : ℕ) (cs : Text)
    → n < f
    → (d : ℕ) × (rest : Text) × (show_fuel f n ++ cs ≡ d ∷ rest) × (is_digit d ≡ true)
unfolding show_fuel
show_fuel-digit zero n cs h = elim h [ ]
show_fuel-digit (suc f) n cs h = elim (Bool-cases (ltb n 10)) [
  | inl small ↦ (48 + n, cs, rw small refl, ground arith)
  | inr large ↦
      let (d, rest, same, digit) = show_fuel-digit f (n / 10) ((48 + n % 10) ∷ cs) (ground arith) in
      (
        d,
        rest,
        rw large (append_assoc (show_fuel f (n / 10)) ((48 + n % 10) ∷ []) cs ∙ same),
        digit,
      )
]

-- A printed number begins with a digit.
pub show-digit :
    (n : ℕ) (cs : Text) → (d : ℕ) × (rest : Text) × (show n ++ cs ≡ d ∷ rest) × (is_digit d ≡ true)
unfolding show
show-digit n cs = show_fuel-digit (suc n) n cs (omega arith)

-- Any two fuels above the number print the same.
show_fuel-same : (f g n : ℕ) → n < f → n < g → show_fuel f n ≡ show_fuel g n
unfolding show_fuel
show_fuel-same zero g n h k = elim h [ ]
show_fuel-same (suc f) zero n h k = elim k [ ]
show_fuel-same (suc f) (suc g) n h k = elim (Bool-cases (ltb n 10)) [
  | inl small ↦ rw small refl
  | inr large ↦
      let rest = show_fuel-same f g (n / 10) (ground arith) (ground arith) in
      rw large (ap (λ t. t ++ ((48 + n % 10) ∷ [])) rest)
]

-- The last digit is set off from the others.
pub show-last : (n : ℕ) → 10 ≤ n → show n ≡ show (n / 10) ++ ((48 + n % 10) ∷ [])
unfolding show show_fuel
show-last n h =
    let large : ltb n 10 ≡ false = ground arith in
    let rest = show_fuel-same n (suc (n / 10)) (n / 10) (omega arith) (omega arith) in
    rw large (ap (λ t. t ++ ((48 + n % 10) ∷ [])) rest)

pub show-less_ten : (n : ℕ) → n < 10 → show n ≡ (48 + n) ∷ []
unfolding show show_fuel
show-less_ten n h = let small : ltb n 10 ≡ true = ground arith in rw small refl
