-- ===== src/Indexer/Snapshot.antt =====
-- services/indexer/src/snapshot.ts: balances from transfer logs, and who is eligible.
pub mod Balances
pub mod Eligible
pub mod Payout
pub mod Allocate
use penny_protocol.Base.{◌==◌, Bool, true, false, get_or, List, [], ◌∷◌, if◌then◌else◌, ℕ, ltb}
use penny_protocol.Base.Int.{ℤ, pos, ◌+ℤ◌, ◌-ℤ◌, ltb_ℤ}
use penny_protocol.Base.Text.{Text, text_eq, codes, to_lower, text_leb}
use penny_protocol.Base.Map
use penny_protocol.Base.Map.{Map}
use penny_protocol.Base.Sort.{sort}
use penny_protocol.Indexer.Events.{TransferLog}

abbrev pub zero_address : Text
zero_address = codes "0x0000000000000000000000000000000000000000"

unfoldable pub normalize : Text → Text
normalize = to_lower

unfoldable pub credit : Map Text ℤ → Text → ℤ → Map Text ℤ
credit balances to amount =
    if to == zero_address
    then balances
    else Map.set balances to (get_or (Map.get balances to) (pos 0) +ℤ amount)

unfoldable pub debit : Map Text ℤ → Text → ℤ → Map Text ℤ
debit balances from amount =
    if from == zero_address
    then balances
    else Map.set balances from (get_or (Map.get balances from) (pos 0) -ℤ amount)

-- One turn of the loop of `balancesAt`: the receiver first, then the sender.
unfoldable pub apply_transfer : Map Text ℤ → TransferLog → Map Text ℤ
unfolding credit debit normalize
apply_transfer balances t =
    debit (credit balances (normalize t.to) t.amount) (normalize t.from) t.amount

replay : ℕ → Map Text ℤ → List TransferLog → Map Text ℤ
unfolding apply_transfer
replay at_block balances [] = balances
replay at_block balances (t ∷ ts) =
    replay at_block (if ltb at_block t.block_number then balances else apply_transfer balances t) ts

unfoldable pub balances_at : List TransferLog → ℕ → Map Text ℤ
unfolding replay
balances_at transfers at_block = replay at_block [] transfers

total_from : ℤ → List ℤ → ℤ
total_from total [] = total
total_from total (b ∷ bs) = total_from (total +ℤ b) bs

unfoldable pub total_supply_of : Map Text ℤ → ℤ
unfolding total_from
total_supply_of balances = total_from (pos 0) (Map.values balances)

pub record Eligibility : Type 0 where
  pub wallets : List Text
  pub total_eligible_supply : ℤ

-- The two guards of the loop of `eligible`.
unfoldable pub counts : ℤ → List Text → Text → ℤ → Bool
counts threshold exclusions addr balance =
    if ltb_ℤ balance threshold
    then false
    else (if Map.contains exclusions addr then false else true)

pick : ℤ → List Text → List Text → ℤ → Map Text ℤ → Eligibility
unfolding counts
pick threshold exclusions wallets total [] = record {
  wallets = sort text_leb wallets;
  total_eligible_supply = total;
}
pick threshold exclusions wallets total ((addr, balance) ∷ rest) =
    let next = counts threshold exclusions addr balance in
    pick threshold exclusions (if next then Map.add wallets addr else wallets)
      (if next then total +ℤ balance else total) rest

unfoldable pub eligible : Map Text ℤ → ℤ → List Text → Eligibility
unfolding pick
eligible balances threshold exclusions = pick threshold exclusions [] (pos 0) balances
