-- ===== src/Indexer/Snapshot/Balances.antt =====
-- The balances that `balancesAt` derives from the transfer logs.
use penny_protocol.Base.{
  refl, sym, ap, inr, inl, some, ltb, ◌∙◌, if◌then◌else◌, ◌∷◌, [], Bool-cases, ◌⊎◌, not, false,
  true, ◌==◌, ◌≢◌, Bool, get_or, List, ℕ, ◌≡◌,
}
use penny_protocol.Base.Int.{ℤ, pos, ◌+ℤ◌, ◌-ℤ◌, sum, int_laws}
use penny_protocol.Base.Text.{text_beq_iff, Text, text_eq}
use penny_protocol.Base.Map
use penny_protocol.Base.Map.{Map, IsMap}
use penny_protocol.Indexer.Events.{TransferLog}
use penny_protocol.Indexer.Snapshot.{
  zero_address, normalize, credit, debit, apply_transfer, replay, balances_at, total_from,
  total_supply_of,
}

-- What a wallet received less what it sent, in the logs up to the block, by the lower-case address.
abbrev when : Bool → ℤ → ℤ
when true x = x
when false x = pos 0

-- The logs up to the block.
unfoldable pub up_to : ℕ → List TransferLog → List TransferLog
up_to at_block [] = []
up_to at_block (t ∷ ts) =
    let rest = up_to at_block ts in if ltb at_block t.block_number then rest else t ∷ rest

unfoldable pub received : Text → List TransferLog → ℤ
received w [] = pos 0
received w (t ∷ ts) = when (normalize t.to == w) t.amount +ℤ received w ts

unfoldable pub sent : Text → List TransferLog → ℤ
sent w [] = pos 0
sent w (t ∷ ts) = when (normalize t.from == w) t.amount +ℤ sent w ts

abbrev pub balance_of : Map Text ℤ → Text → ℤ
balance_of m w = get_or (Map.get m w) (pos 0)

zero_is_other : (a w : Text) → w ≢ zero_address → (a == zero_address) ≡ true → (a == w) ≡ false
zero_is_other a w ne h = elim (Bool-cases (a == w)) [
  | inr other ↦ other
  | inl same ↦ absurd (ne (sym ((text_beq_iff a w).0 same) ∙ (text_beq_iff a zero_address).0 h))
]

module _ (m : Map Text ℤ) (a w : Text) (x : ℤ) (ne : w ≢ zero_address) where
  credit_lem : balance_of (credit m a x) w ≡ balance_of m w +ℤ when (a == w) x
  unfolding credit
  credit_lem = elim (Bool-cases (a == zero_address)) [
    | inl zeroed ↦ rw (zeroed, zero_is_other a w ne zeroed) (omega int_laws)
    | inr holder ↦
        rw (holder, Map.get-set m a w (balance_of m a +ℤ x)) (at_key (Bool-cases (a == w)))
  ]
    where
      at_key :
          ((a == w) ≡ true) ⊎ ((a == w) ≡ false)
          → get_or (if a == w then some (balance_of m a +ℤ x) else Map.get m w) (pos 0)
            ≡ balance_of m w +ℤ when (a == w) x
      at_key (inl same) = rw same (ap (λ k. balance_of m k +ℤ x) ((text_beq_iff a w).0 same))
      at_key (inr other) = rw other (omega int_laws)

  debit_lem : balance_of (debit m a x) w ≡ balance_of m w -ℤ when (a == w) x
  unfolding debit
  debit_lem = elim (Bool-cases (a == zero_address)) [
    | inl zeroed ↦ rw (zeroed, zero_is_other a w ne zeroed) (omega int_laws)
    | inr holder ↦
        rw (holder, Map.get-set m a w (balance_of m a -ℤ x)) (at_key (Bool-cases (a == w)))
  ]
    where
      at_key :
          ((a == w) ≡ true) ⊎ ((a == w) ≡ false)
          → get_or (if a == w then some (balance_of m a -ℤ x) else Map.get m w) (pos 0)
            ≡ balance_of m w -ℤ when (a == w) x
      at_key (inl same) = rw same (ap (λ k. balance_of m k -ℤ x) ((text_beq_iff a w).0 same))
      at_key (inr other) = rw other (omega int_laws)

replay_lem :
    (n : ℕ) (m : Map Text ℤ) (ts : List TransferLog) (w : Text)
    → w ≢ zero_address
    → balance_of (replay n m ts) w
      ≡ balance_of m w +ℤ received w (up_to n ts) -ℤ sent w (up_to n ts)
unfolding replay up_to received sent
replay_lem n m [] w ne = omega int_laws
replay_lem n m (t ∷ ts) w ne = elim (Bool-cases (ltb n t.block_number)) [
  | inl later ↦ rw later (replay_lem n m ts w ne)
  | inr now ↦ rw now (
      replay_lem n (apply_transfer m t) ts w ne
      ∙ rw
          (
            apply_lem,
            debit_lem (credit m (normalize t.to) t.amount) (normalize t.from) w t.amount ne,
            credit_lem m (normalize t.to) w t.amount ne,
          )
          (omega int_laws))
]
  where
    apply_lem :
        apply_transfer m t ≡ debit (credit m (normalize t.to) t.amount) (normalize t.from) t.amount
    apply_lem = unfold apply_transfer in refl

-- For every list of logs, the balance derived for an address other than zero (none counts as zero)
-- is the sum of the amounts it received less the sum of those it sent, over the logs up to and
-- including the block, addresses compared in lower case.
pub balances_at_lem :
    (ts : List TransferLog) (n : ℕ) (w : Text)
    → w ≢ zero_address
    → balance_of (balances_at ts n) w ≡ received w (up_to n ts) -ℤ sent w (up_to n ts)
unfolding balances_at
balances_at_lem ts n w ne = replay_lem n [] ts w ne ∙ nothing_yet
  where
    nothing_yet :
        balance_of [] w +ℤ received w (up_to n ts) -ℤ sent w (up_to n ts)
        ≡ received w (up_to n ts) -ℤ sent w (up_to n ts)
    nothing_yet = unfold Map.get in omega int_laws

-- What a transfer adds to the circulating supply: its amount if it leaves zero for a holder, less
-- its amount if it leaves a holder for zero.
unfoldable pub issued : List TransferLog → ℤ
issued [] = pos 0
issued (t ∷ ts) =
    when (not (normalize t.to == zero_address)) t.amount
    -ℤ when (not (normalize t.from == zero_address)) t.amount
    +ℤ issued ts

sum-credit :
    (m : Map Text ℤ) (a : Text) (x : ℤ)
    → sum (Map.values (credit m a x)) ≡ sum (Map.values m) +ℤ when (not (a == zero_address)) x
unfolding credit
sum-credit m a x = elim (Bool-cases (a == zero_address)) [
  | inl zeroed ↦ rw zeroed (omega int_laws)
  | inr holder ↦ rw holder (grind (int_laws, Map.sum-set m a (balance_of m a +ℤ x)))
]

sum-debit :
    (m : Map Text ℤ) (a : Text) (x : ℤ)
    → sum (Map.values (debit m a x)) ≡ sum (Map.values m) -ℤ when (not (a == zero_address)) x
unfolding debit
sum-debit m a x = elim (Bool-cases (a == zero_address)) [
  | inl zeroed ↦ rw zeroed (omega int_laws)
  | inr holder ↦ rw holder (grind (int_laws, Map.sum-set m a (balance_of m a -ℤ x)))
]

sum-replay :
    (n : ℕ) (m : Map Text ℤ) (ts : List TransferLog)
    → sum (Map.values (replay n m ts)) ≡ sum (Map.values m) +ℤ issued (up_to n ts)
unfolding replay up_to issued apply_transfer
sum-replay n m [] = omega int_laws
sum-replay n m (t ∷ ts) = elim (Bool-cases (ltb n t.block_number)) [
  | inl later ↦ rw later (sum-replay n m ts)
  | inr now ↦ rw now (
      sum-replay n (debit (credit m (normalize t.to) t.amount) (normalize t.from) t.amount) ts
      ∙ rw (sum-debit, sum-credit) (omega int_laws))
]

total_from-eq : (acc : ℤ) (xs : List ℤ) → total_from acc xs ≡ acc +ℤ sum xs
unfolding total_from sum
total_from-eq acc [] = omega int_laws
total_from-eq acc (x ∷ xs) = total_from-eq (acc +ℤ x) xs ∙ omega int_laws

-- For every list of logs, the balances derived at a block sum to the circulating supply: what the
-- logs up to the block minted from the zero address, less what they burned to it.
pub total_supply_of-balances_at :
    (ts : List TransferLog) (n : ℕ) → total_supply_of (balances_at ts n) ≡ issued (up_to n ts)
unfolding total_supply_of balances_at
total_supply_of-balances_at ts n =
    total_from-eq (pos 0) (Map.values (replay n [] ts)) ∙ rw (sum-replay n [] ts) empty
  where
    empty : pos 0 +ℤ (sum (Map.values {K = Text} []) +ℤ issued (up_to n ts)) ≡ issued (up_to n ts)
    empty = unfold Map.values sum in omega int_laws

update-IsMap :
    (c : Bool) (m : Map Text ℤ) (a : Text) (x : ℤ)
    → IsMap m
    → IsMap (if c then m else Map.set m a x)
update-IsMap true m a x h = h
update-IsMap false m a x h = Map.set-IsMap m a x h

credit-IsMap : (m : Map Text ℤ) (a : Text) (x : ℤ) → IsMap m → IsMap (credit m a x)
unfolding credit
credit-IsMap m a x h = update-IsMap (a == zero_address) m a (balance_of m a +ℤ x) h

debit-IsMap : (m : Map Text ℤ) (a : Text) (x : ℤ) → IsMap m → IsMap (debit m a x)
unfolding debit
debit-IsMap m a x h = update-IsMap (a == zero_address) m a (balance_of m a -ℤ x) h

replay-IsMap : (n : ℕ) (m : Map Text ℤ) (ts : List TransferLog) → IsMap m → IsMap (replay n m ts)
unfolding replay
replay-IsMap n m [] h = h
replay-IsMap n m (t ∷ ts) h = elim (Bool-cases (ltb n t.block_number)) [
  | inl later ↦ rw later (replay-IsMap n m ts h)
  | inr now ↦ rw now (
      replay-IsMap n (apply_transfer m t) ts (
        unfold apply_transfer in
        debit-IsMap (credit m (normalize t.to) t.amount) (normalize t.from) t.amount
          (credit-IsMap m (normalize t.to) t.amount h)))
]

-- A derived map of balances lists no address twice.
pub balances_at-IsMap : (ts : List TransferLog) (n : ℕ) → IsMap (balances_at ts n)
unfolding balances_at
balances_at-IsMap ts n = replay-IsMap n [] ts tt
