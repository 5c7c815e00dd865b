-- ===== src/Packages/Sdk.antt =====
-- packages/sdk/src: the constants of the protocol, and its arithmetic.
use penny_protocol.Base.Int.{quot_ℤ_pos, *ℤ_pos, int_laws, ◌-ℤ◌, int_eq, ◌*ℤ◌, quot_ℤ, ℤ, pos}
use penny_protocol.Base.{
  length, zero, leb, if◌then◌else◌, ◌∷◌, [], ◌++◌, List, refl, arith, ◌+◌, get_or, ◌<◌, ◌-◌, some,
  ◌/◌, ◌≡◌, ◌==◌, ◌^◌, ◌≤◌, ◌*◌, Bool, Option, ℕ,
}
use Prim.Native.Nat.{suc, ℕ}
use penny_protocol.Base.Map.{Map}
use penny_protocol.Base.Text.{codes, Text}

abbrev pub chain_id_mainnet : ℕ
chain_id_mainnet = 4663

abbrev pub chain_id_testnet : ℕ
chain_id_testnet = 46630

abbrev pub penny_total_supply : ℤ
penny_total_supply = pos (1_000_000_000 * 10 ^ 18)

abbrev pub protocol_fee_bps : ℤ
protocol_fee_bps = pos 300

abbrev pub native_token : Text
native_token = codes "ETH"

abbrev pub basket_tickers : List Text
basket_tickers = codes "AUR" ∷ codes "JOBY" ∷ codes "SOUN" ∷ codes "SMR" ∷ codes "CLOV" ∷ []

abbrev pub basket_tokens : Map Text Text
basket_tokens =
    (codes "AUR", codes "0x373C06c4f7BDe527D7Dae4BA169E42b55E393CeD")
    ∷ (codes "JOBY", codes "0xb334C5cE741B80B5B671F47F5C269Cb193fe8E24")
    ∷ (codes "SOUN", codes "0x6E3Dfd9f7e1649BaA14D25cac18C94d62dB10A54")
    ∷ (codes "SMR", codes "0x1Eebee7F74517e0279dFb09d25B0407bEEc3FDd6")
    ∷ (codes "CLOV", codes "0x62200915e7DEab1eC7f79fb246daDbB80eACdDd0")
    ∷ []

-- `slice(0, n)` and `slice(-n)`
unfoldable pub first_units : ℕ → Text → Text
first_units zero t = []
first_units (suc n) [] = []
first_units (suc n) (c ∷ t) = c ∷ first_units n t

unfoldable pub last_units : ℕ → Text → Text
last_units n [] = []
last_units n (c ∷ t) = let rest = last_units n t in if leb (length (c ∷ t)) n then c ∷ t else rest

-- The short form of an address.
unfoldable pub render : Text → Text
unfolding first_units last_units
render address = first_units 6 address ++ (codes "..." ++ last_units 4 address)

unfoldable pub is_fixed_supply_amount : ℤ → Bool
is_fixed_supply_amount amount = amount == penny_total_supply

-- The fee has the default that `protocol_fee_bps` gives.
unfoldable pub minimum_expected_output : ℤ → Option ℤ → ℤ
minimum_expected_output input_notional_usd fee_bps =
    quot_ℤ (input_notional_usd *ℤ (pos 10_000 -ℤ get_or fee_bps protocol_fee_bps)) (pos 10_000)

-- What remains of an amount of zero or more after a fee of at most the whole.
pub record IsNet (n fee : ℕ) (out : ℤ) : Type 0 where
  pub net : ℕ
  pub is_net : out ≡ pos net
  pub at_least : n * (10_000 - fee) < (net + 1) * 10_000
  pub at_most : net * 10_000 ≤ n * (10_000 - fee)
  pub no_more : net ≤ n

less_of_share : (n k : ℕ) → k ≤ 10_000 → n * k / 10_000 ≤ n
less_of_share n k h = grind arith

-- For an amount of zero or more and a fee of at most the whole, the minimum output is the amount
-- less the fee, rounded down: never negative, and never more than the amount.
pub minimum_expected_output-IsNet :
    (n fee : ℕ) → fee ≤ 10_000 → IsNet n fee (minimum_expected_output (pos n) (some (pos fee)))
unfolding minimum_expected_output
minimum_expected_output-IsNet n fee h = record {
  net = n * (10_000 - fee) / 10_000;
  is_net = whole;
  at_least = omega arith;
  at_most = omega arith;
  no_more = less_of_share n (10_000 - fee) (omega arith);
}
  where
    rate : pos 10_000 -ℤ pos fee ≡ pos (10_000 - fee)
    rate = omega (int_laws, h)

    whole :
        quot_ℤ (pos n *ℤ (pos 10_000 -ℤ pos fee)) (pos 10_000) ≡ pos (n * (10_000 - fee) / 10_000)
    whole = rw (rate, *ℤ_pos n (10_000 - fee), quot_ℤ_pos (n * (10_000 - fee)) 10_000) refl

abbrev pub penny_decimals : ℕ
penny_decimals = 18

abbrev pub eligible_balance_threshold : ℤ
eligible_balance_threshold = pos (100_000 * 10 ^ 18)

abbrev pub constituent_target_weight_bps : ℕ
constituent_target_weight_bps = 2_000

abbrev pub team_vest_duration_seconds : ℤ
team_vest_duration_seconds = pos (365 * 24 * 3_600)

-- The index is not looked at.
unfoldable pub target_weight_bps_for : Option ℕ → ℕ
target_weight_bps_for index = constituent_target_weight_bps
