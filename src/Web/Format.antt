-- ===== src/Web/Format.antt =====
-- The amounts that the pages of apps/web/app print: whole tokens, with a comma before every third
-- digit from the right, `replace(/\B(?=(\d{3})+(?!\d))/g, ",")`.
pub mod Grouped
use penny_protocol.Base.{
  nat_eq, ◌^◌, ◌==◌, [], suc, leb, ◌%◌, if◌then◌else◌, ◌&&◌, ◌||◌, ◌∷◌, false, ltb, zero, ℕ, Bool,
}
use penny_protocol.Indexer.Manifest.{show_ℤ}
use penny_protocol.Base.Text.{Text}
use Prim.Native.Nat.{suc, zero, ℕ}
use penny_protocol.Packages.Sdk.{penny_decimals, eligible_balance_threshold, penny_total_supply}
use penny_protocol.Base.Decimal.{is_digit}
use penny_protocol.Base.Int.{pos, quot_ℤ, ℤ}

-- `\w`
abbrev pub is_word : ℕ → Bool
is_word c =
    is_digit c || ((leb b'A' c && leb c b'Z') || ((leb b'a' c && leb c b'z') || (c == b'_')))

-- How many digits a text begins with.
unfoldable pub digit_run : Text → ℕ
digit_run [] = zero
digit_run (c ∷ cs) = let rest = digit_run cs in if is_digit c then suc rest else zero

-- `(?=(\d{3})+(?!\d))`: groups of three digits, and then no digit.
abbrev pub is_in_threes : ℕ → Bool
is_in_threes n = ltb 0 n && (n % 3 == 0)

-- The text with its commas; whether a word's character stands before it. A digit follows where a
-- comma is set, so that `\B` is that one does.
unfoldable pub group_after : Bool → Text → Text
unfolding digit_run
group_after follows [] = []
group_after follows (c ∷ cs) =
    let rest = c ∷ group_after (is_word c) cs in
    if follows && is_in_threes (digit_run (c ∷ cs)) then b',' ∷ rest else rest

unfoldable pub group_thousands : Text → Text
unfolding group_after
group_thousands t = group_after false t

unfoldable pub fmt : ℤ → Text
unfolding group_thousands show_ℤ
fmt n = group_thousands (show_ℤ (quot_ℤ n (pos (10 ^ penny_decimals))))

abbrev pub supply_display : Text
supply_display = fmt penny_total_supply

abbrev pub threshold_display : Text
threshold_display = fmt eligible_balance_threshold
