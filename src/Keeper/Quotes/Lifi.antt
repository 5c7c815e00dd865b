-- ===== src/Keeper/Quotes/Lifi.antt =====
-- `HttpLifiClient` of services/keeper/src/quotes.ts: the question that it sends, and what it makes
-- of the answer.
use penny_protocol.Keeper.Quotes.{Result, Bool, Text, ℕ, QuoteRequest, LifiQuote}
use penny_protocol.Keeper.Amounts.{parse_number, CursorError}
use penny_protocol.Base.{
  ◌∙◌, arith, ap, refl, inl, inr, [], Bool-cases, get_or, false, true, ◌||◌, none, if◌then◌else◌,
  some, ◌++◌, Option, not, ◌≡◌, Bool, ℕ,
}
use penny_protocol.Base.Text.{codes, Text}
use penny_protocol.Base.Result.{ok_of_bind, err, ◌>>=◌, ok, Result}
use penny_protocol.Keeper.Config.{is_unset}
use penny_protocol.Base.Decimal.{show}
use penny_protocol.Indexer.Manifest.{show_ℤ}

-- The client's settings; the slippage as it stands in the address.
pub record HttpLifiClient : Type 0 where
  pub chain_id : ℕ
  pub from_address : Text
  pub slippage : Text

-- The fields that are read of an answer, where they are there.
pub record LifiResponse : Type 0 where
  pub is_ok : Bool
  pub message : Option Text
  pub tool : Option Text
  pub to_amount : Option Text
  pub destination : Option Text
  pub call_data : Option Text

unfoldable pub quote_url : HttpLifiClient → QuoteRequest → Text
quote_url client req =
    codes "https://li.quest/v1/quote?fromChain="
    ++ (show client.chain_id
        ++ (codes "&toChain="
            ++ (show client.chain_id
                ++ (codes "&fromToken="
                    ++ (req.from_token
                        ++ (codes "&toToken="
                            ++ (req.to_token
                                ++ (codes "&fromAmount="
                                    ++ (show_ℤ req.from_amount
                                        ++ (codes "&fromAddress="
                                            ++ (client.from_address
                                                ++ (codes "&toAddress="
                                                    ++ (req.recipient
                                                        ++ (codes "&slippage="
                                                            ++ client.slippage))))))))))))))

-- `d.message || !d.transactionRequest?.to || !d.transactionRequest.data`
abbrev pub is_refused : LifiResponse → Bool
is_refused d = not (is_unset d.message) || (is_unset d.destination || is_unset d.call_data)

-- The amount may be a text that `BigInt` throws on.
unfoldable pub read_response : LifiResponse → Result CursorError (Option LifiQuote)
read_response d =
    if not d.is_ok
    then ok none
    else (if is_refused d then ok none else do
      to_amount ← parse_number (get_or d.to_amount (codes "0"))
      ok (
          some (record {
            tool = get_or d.tool (codes "unknown");
            to_amount = to_amount;
            router = get_or d.destination [];
            call_data = get_or d.call_data [];
          })))

-- `quote`; `fetch` is the network, and `none` a request that fails.
unfoldable pub lifi_quote :
    HttpLifiClient
    → (Text → Option LifiResponse)
    → QuoteRequest
    → Option (Result CursorError (Option LifiQuote))
unfolding quote_url read_response
lifi_quote client fetch req = elim (fetch (quote_url client req)) [
  | none ↦ none
  | some d ↦ some (read_response d)
]

value_of : Result CursorError (Option LifiQuote) → Option LifiQuote
value_of (ok o) = o
value_of (err e) = none

set_some : (o : Option Text) → is_unset o ≡ false → o ≡ some (get_or o [])
set_some none h = absurd (cc h)
set_some (some t) h = refl

-- A route comes from an answer that was accepted, and has its destination and its data.
pub read_response-accepted :
    (d : LifiResponse) (q : LifiQuote)
    → read_response d ≡ ok (some q)
    → (d.is_ok ≡ true)
      × (is_refused d ≡ false)
      × (d.destination ≡ some q.router)
      × (d.call_data ≡ some q.call_data)
unfolding read_response value_of
read_response-accepted d q h = elim (Bool-cases d.is_ok) [
  | inr down ↦ absurd (cc (rw (read_response, down) at h))
  | inl up ↦ elim (Bool-cases (is_refused d)) [
    | inl refused ↦ absurd (cc (rw (read_response, up, refused) at h))
    | inr taken ↦
        let (amount, made, parsed) =
          ok_of_bind (parse_number (get_or d.to_amount (codes "0"))) _ (some q)
            (rw (read_response, up, taken) at h) in
        let same = ap (λ r. get_or (value_of r) q) made in
        (
          up,
          taken,
          set_some d.destination (ground (arith, taken))
              ∙ ap (λ (x : LifiQuote). some x.router) same,
          set_some d.call_data (ground (arith, taken))
              ∙ ap (λ (x : LifiQuote). some x.call_data) same,
        )
  ]
]
