-- ===== src/Keeper/Amounts.antt =====
-- `BigInt(text)`, as services/keeper/src reads the amounts of records and answers.
use penny_protocol.Base.{
  arith, false, ◌∙◌, ap, ◌+◌, sym, length, nat_beq, [], refl, ◌∷◌, if◌then◌else◌, ◌≡◌, Option, ℕ,
  Bool, none, some,
}
use penny_protocol.Base.Result.{Result, ok, err}
use penny_protocol.Indexer.Manifest.{show_ℤ}
use penny_protocol.Base.Text.{Text}
use penny_protocol.Base.Int.{int_laws, negsuc, ◌-ℤ◌, pos, ℤ}
use penny_protocol.Base.Decimal.{read_digits-show, read_digits, show-digit, show}
use mathlib.Core.List.{append-nil}

-- A run of one digit or more, to its end.
unfoldable pub all_digits : Text → Option ℕ
all_digits [] = none
all_digits (c ∷ cs) =
    let (n, rest) = read_digits 0 (c ∷ cs) in if nat_beq (length rest) 0 then some n else none

abbrev pub signed : Bool → Option ℕ → Option ℤ
signed minus none = none
signed minus (some n) = some (if minus then pos 0 -ℤ pos n else pos n)

-- `BigInt(text)` on the empty text and on a decimal number with an optional sign; another text is
-- refused.
unfoldable pub big_int : Text → Option ℤ
unfolding all_digits
big_int [] = some (pos 0)
big_int (c ∷ cs) =
    signed (nat_beq c 45)
      (all_digits (if nat_beq c 45 then cs else if nat_beq c 43 then cs else c ∷ cs))

-- A text that `BigInt` throws on.
pub data CursorError : Type 0 where
  not_a_number : Text → CursorError

unfoldable pub parse_number : Text → Result CursorError ℤ
unfolding big_int
parse_number text = elim (big_int text) [ none ↦ err (not_a_number text) | some n ↦ ok n ]

all_digits-show : (n : ℕ) → all_digits (show n) ≡ some n
unfolding all_digits
all_digits-show n =
    let (d, rest, same, digit) = show-digit n [] in
    let text : show n ≡ d ∷ rest = sym (append-nil (show n)) ∙ same in
    let read : read_digits 0 (d ∷ rest) ≡ (n, []) =
      ap (read_digits 0) (sym same) ∙ read_digits-show n [] tt in
    rw (text, read) refl

big_int-show : (n : ℕ) → big_int (show n) ≡ some (pos n)
unfolding big_int
big_int-show n =
    let (d, rest, same, digit) = show-digit n [] in
    let text : show n ≡ d ∷ rest = sym (append-nil (show n)) ∙ same in
    let plain : nat_beq d 45 ≡ false = ground (arith, digit) in
    let unsigned : nat_beq d 43 ≡ false = ground (arith, digit) in
    let whole : all_digits (d ∷ rest) ≡ some n = ap all_digits (sym text) ∙ all_digits-show n in
    rw (text, plain, unsigned, whole) refl

-- `BigInt(n.toString())` is `n`.
pub big_int-show_ℤ : (n : ℤ) → big_int (show_ℤ n) ≡ some n
unfolding show_ℤ big_int
big_int-show_ℤ (pos n) = big_int-show n
big_int-show_ℤ (negsuc n) = rw (all_digits-show (n + 1)) (ap some (omega int_laws))

pub parse_number-show_ℤ : (n : ℤ) → parse_number (show_ℤ n) ≡ ok n
unfolding parse_number
parse_number-show_ℤ n = rw (big_int-show_ℤ n, parse_number) refl
