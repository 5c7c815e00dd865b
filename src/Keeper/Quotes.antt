-- ===== src/Keeper/Quotes.antt =====
-- services/keeper/src/quotes.ts: one route for each leg of a purchase, checked against an oracle.
pub mod Gate
pub mod Lifi
use penny_protocol.Base.Int.{◌-ℤ◌, ltb_ℤ, ◌*ℤ◌, quot_ℤ, ℤ, int_eq, pos}
use penny_protocol.Base.{
  ◌&&◌, length, nat_beq, none, false, some, map, ◌++◌, [], ◌+◌, ◌∷◌, ◌==◌, Bool, Option, List, ℕ,
  ◌^◌, if◌then◌else◌,
}
use penny_protocol.Base.Text.{Text}
use Prim.Native.Nat.{ℕ}
use penny_protocol.Base.Result.{ok, err, Result}

pub record QuoteRequest : Type 0 where
  pub from_token : Text
  pub to_token : Text
  pub from_amount : ℤ
  pub recipient : Text

pub record LifiQuote : Type 0 where
  pub tool : Text
  pub to_amount : ℤ
  pub router : Text
  pub call_data : Text

pub record CollectedRoute : Type 0 where
  pub token : Text
  pub router : Text
  pub call_data : Text
  pub to_amount : ℤ
  pub tool : Text
  pub exec_price_wad : ℤ
  pub oracle_price_wad : ℤ
  pub deviation_bps : ℤ

-- The reasons, by what each says.
pub data Reason : Type 0 where
  weth_oracle_dead token_oracle_dead no_route : Reason
  deviation_over : ℤ → Reason

pub record FailedLeg : Type 0 where
  pub token : Text
  pub reason : Reason

pub record QuoteGateResult : Type 0 where
  pub passed : List CollectedRoute
  pub failed : List FailedLeg
  pub cycle_viable : Bool

pub record Leg : Type 0 where
  pub token : Text
  pub from_amount : ℤ

abbrev pub wad : ℤ
wad = pos (10 ^ 18)

-- `usdIn * WAD / q.toAmount`, of the rounded `usdIn`.
unfoldable pub exec_price : ℤ → ℤ → ℤ → ℤ
exec_price from_amount weth_usd to_amount =
    quot_ℤ (quot_ℤ (from_amount *ℤ weth_usd) wad *ℤ wad) to_amount

-- The gap between the two prices, in hundredths of a percent of the oracle's.
unfoldable pub deviation : ℤ → ℤ → ℤ
deviation exec oracle =
    let diff = if ltb_ℤ oracle exec then exec -ℤ oracle else oracle -ℤ exec in
    quot_ℤ (diff *ℤ pos 10_000) oracle

abbrev pub Outcome : Type 0
Outcome = List CollectedRoute × List FailedLeg

-- `passed.push(…)` or `failed.push(…)`
unfoldable pub push_outcome : Outcome → Leg → Result Reason CollectedRoute → Outcome
push_outcome (passed, failed) leg (ok route) = (passed ++ (route ∷ []), failed)
push_outcome (passed, failed) leg (err reason) =
    (passed, failed ++ (record { token = leg.token; reason = reason } ∷ []))

-- The clients answer by the number of the call, since a later call may answer otherwise.
module _ (quote : ℕ → QuoteRequest → Option LifiQuote) (price_wad : ℕ → Text → ℤ)
    (weth recipient : Text) (max_deviation_bps : ℤ) where
  -- What the oracle and the quote say of a leg, past the first two guards.
  unfoldable pub check_route : ℤ → ℤ → Leg → Option LifiQuote → Result Reason CollectedRoute
  check_route weth_usd oracle leg none = err no_route
  check_route weth_usd oracle leg (some q) =
      if q.to_amount == pos 0
      then err no_route
      else (let exec = exec_price leg.from_amount weth_usd q.to_amount in
          let bps = deviation exec oracle in
          if ltb_ℤ max_deviation_bps bps
          then err (deviation_over bps)
          else ok (record {
            token = leg.token;
            router = q.router;
            call_data = q.call_data;
            to_amount = q.to_amount;
            tool = q.tool;
            exec_price_wad = exec;
            oracle_price_wad = oracle;
            deviation_bps = bps;
          }))

  -- One turn of the loop, whose oracle call is the `i`-th.
  unfoldable pub check_leg : ℤ → ℕ → Leg → Result Reason CollectedRoute
  unfolding check_route exec_price deviation
  check_leg weth_usd i leg =
      let oracle = price_wad i leg.token in
      if oracle == pos 0
      then err token_oracle_dead
      else check_route weth_usd oracle leg (
          quote i (record {
            from_token = weth;
            to_token = leg.token;
            from_amount = leg.from_amount;
            recipient = recipient;
          }))

  unfoldable pub collect_legs : ℤ → ℕ → Outcome → List Leg → Outcome
  unfolding check_leg push_outcome
  collect_legs weth_usd i done [] = done
  collect_legs weth_usd i done (leg ∷ legs) =
      collect_legs weth_usd (i + 1) (push_outcome done leg (check_leg weth_usd i leg)) legs

  unfoldable pub collect_quotes : List Leg → QuoteGateResult
  unfolding collect_legs
  collect_quotes legs =
      let weth_usd = price_wad 0 weth in
      if weth_usd == pos 0
      then record {
        passed = [];
        failed = map (λ (l : Leg). record { token = l.token; reason = weth_oracle_dead }) legs;
        cycle_viable = false;
      }
      else (let (passed, failed) = collect_legs weth_usd 1 ([], []) legs in
          record {
            passed = passed;
            failed = failed;
            cycle_viable = nat_beq (length failed) 0 && nat_beq (length passed) (length legs);
          })
