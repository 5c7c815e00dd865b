-- ===== src/Keeper/Quotes/Gate.antt =====
-- What the quote gate lets through.
use penny_protocol.Base.{
  ◌⊎◌, ◌^◌, if◌then◌else◌, ◌&&◌, nat_beq, length-map, ◌∙◌, ◌↔◌, true, length-append, none, ap, refl,
  subst, [], ◌∷◌, ◌++◌, ◌≤◌, inr, ◌+◌, sym, inl, arith, length, some, ◌==◌, All, Bool-cases, ◌≢◌,
  ◌≡◌, map, List, Option, ℕ,
}
use Prim.Native.Nat.{ℕ}
use penny_protocol.Keeper.Quotes.{
  FailedLeg, weth_oracle_dead, FailedLeg, collect_quotes, QuoteGateResult, exec_price, Reason,
  push_outcome, Outcome, collect_legs, check_route, ok, check_leg, deviation, Leg, CollectedRoute,
  ℤ, Text, LifiQuote, QuoteRequest,
}
use penny_protocol.Base.Text.{Text}
use penny_protocol.Base.Int.{int_laws, ◌*ℤ◌, ◌-ℤ◌, quot_ℤ, ltb_ℤ, int_eq, beq_ℤ_iff, pos, ◌≤ℤ◌, ℤ}
use penny_protocol.Base.Result.{Result-cases, err, Result, ok}
use mathlib.Core.List.{append-nil}

All-last {ℓ κ} :
    {A : Type ℓ} (P : A → Type κ) (xs : List A) (x : A) → All P xs → P x → All P (xs ++ (x ∷ []))
All-last P [] x h p = (p, tt)
All-last P (y ∷ ys) x h p = (h.0, All-last P ys x h.1 p)

viable_lem :
    (P : Type 0) (n : ℕ) (passed : List CollectedRoute) (failed : List FailedLeg)
    → length passed + length failed ≡ n
    → P
    → ((nat_beq (length failed) 0 && nat_beq (length passed) n) ≡ true) ↔ (P × (failed ≡ []))
viable_lem P n passed failed all p = (
  λ h. (p, none_left failed (ground (arith, h))),
  λ h. let empty : length failed ≡ 0 = ap length h.1 in ground (arith, empty, all),
)
  where
    none_left : (l : List FailedLeg) → length l ≡ 0 → l ≡ []
    none_left [] h = refl
    none_left (x ∷ l) h = absurd (omega (arith, h))

module _ (quote : ℕ → QuoteRequest → Option LifiQuote) (price_wad : ℕ → Text → ℤ)
    (weth recipient : Text) (max_deviation_bps : ℤ) where
  -- The gap between two prices, whichever is the larger.
  abbrev pub gap : ℤ → ℤ → ℤ
  gap a b = if ltb_ℤ (a -ℤ b) (pos 0) then b -ℤ a else a -ℤ b

  -- The route is what the `i`-th call of the client answered for the leg. Its price, in dollars per
  -- token scaled by 10 ^ 18, is that of what the leg spends, and differs from the price that the
  -- oracle gave at its `i`-th call by at most the tolerance, in hundredths of a percent of the
  -- oracle's.
  pub record IsWithin (i : ℕ) (leg : Leg) (route : CollectedRoute) : Type 0 where
    pub answer : LifiQuote
    pub asked :
        quote i (record {
          from_token = weth;
          to_token = leg.token;
          from_amount = leg.from_amount;
          recipient = recipient;
        })
        ≡ some answer
    pub token : route.token ≡ leg.token
    pub router : route.router ≡ answer.router
    pub call_data : route.call_data ≡ answer.call_data
    pub to_amount : route.to_amount ≡ answer.to_amount
    pub delivers : answer.to_amount ≢ pos 0
    pub oracle : route.oracle_price_wad ≡ price_wad i leg.token
    pub live : price_wad i leg.token ≢ pos 0
    pub paid :
        route.exec_price_wad
        ≡ quot_ℤ
            (quot_ℤ (leg.from_amount *ℤ price_wad 0 weth) (pos (10 ^ 18)) *ℤ pos (10 ^ 18))
            answer.to_amount
    pub tolerated :
        quot_ℤ
          (gap route.exec_price_wad route.oracle_price_wad *ℤ pos 10_000)
          route.oracle_price_wad
        ≤ℤ max_deviation_bps

  deviation-gap : (a b : ℤ) → deviation a b ≡ quot_ℤ (gap a b *ℤ pos 10_000) b
  unfolding deviation
  deviation-gap a b = ap (λ d. quot_ℤ (d *ℤ pos 10_000) b) (grind int_laws)

  check_route-IsWithin :
      (i : ℕ) (leg : Leg) (q : Option LifiQuote) (route : CollectedRoute)
      → price_wad i leg.token ≢ pos 0
      → quote i (record {
        from_token = weth;
        to_token = leg.token;
        from_amount = leg.from_amount;
        recipient = recipient;
      })
        ≡ q
      → check_route quote price_wad weth recipient max_deviation_bps
          (price_wad 0 weth)
          (price_wad i leg.token)
          leg
          q
        ≡ ok route
      → IsWithin i leg route
  unfolding check_route exec_price
  check_route-IsWithin i leg none route live asked h = absurd (cc h)
  check_route-IsWithin i leg (some q) route live asked h =
      elim (Bool-cases (q.to_amount == pos 0)) [
        | inl nothing ↦ absurd (cc (rw nothing at h))
        | inr something ↦
            let oracle = price_wad i leg.token in
            let exec = exec_price leg.from_amount (price_wad 0 weth) q.to_amount in
            elim (Bool-cases (ltb_ℤ max_deviation_bps (deviation exec oracle))) [
              | inl far ↦ absurd (cc (rw (something, far) at h))
              | inr near ↦
                  let found : ok (route_of q exec oracle) ≡ ok route = rw (something, near) at h in
                  let small : deviation exec oracle ≤ℤ max_deviation_bps = ground arith in
                  subst (IsWithin i leg) (ap get_ok found) (record {
                    answer = q;
                    asked = asked;
                    token = refl;
                    router = refl;
                    call_data = refl;
                    to_amount = refl;
                    delivers = λ e. absurd (cc (something, (beq_ℤ_iff q.to_amount (pos 0)).1 e));
                    oracle = refl;
                    live = live;
                    paid = refl;
                    tolerated =
                        subst (λ d. d ≤ℤ max_deviation_bps) (deviation-gap exec oracle) small;
                  })
            ]
      ]
    where
      route_of : LifiQuote → ℤ → ℤ → CollectedRoute
      route_of q exec oracle = record {
        token = leg.token;
        router = q.router;
        call_data = q.call_data;
        to_amount = q.to_amount;
        tool = q.tool;
        exec_price_wad = exec;
        oracle_price_wad = oracle;
        deviation_bps = deviation exec oracle;
      }

      get_ok : Result Reason CollectedRoute → CollectedRoute
      get_ok (ok r) = r
      get_ok (err e) = route

  check_leg-IsWithin :
      (i : ℕ) (leg : Leg) (route : CollectedRoute)
      → check_leg quote price_wad weth recipient max_deviation_bps (price_wad 0 weth) i leg
        ≡ ok route
      → IsWithin i leg route
  unfolding check_leg
  check_leg-IsWithin i leg route h = elim (Bool-cases (price_wad i leg.token == pos 0)) [
    | inl dead ↦ absurd (cc (rw dead at h))
    | inr live ↦
        check_route-IsWithin i leg _ route
          (λ e. absurd (cc (live, (beq_ℤ_iff (price_wad i leg.token) (pos 0)).1 e))) refl
          (rw live at h)
  ]

  -- The route is within the tolerance for a leg among these, numbered from `i`.
  abbrev pub IsOfSome : ℕ → List Leg → CollectedRoute → Type 0
  IsOfSome i [] route = ⊥
  IsOfSome i (leg ∷ legs) route = IsWithin i leg route ⊎ IsOfSome (i + 1) legs route

  -- What the loop adds for the legs to what it had.
  pub record IsCollected (P : CollectedRoute → Type 0) (done : Outcome) (legs : List Leg)
      (r : Outcome) : Type 0 where
    within : All P r.0
    counted : length r.0 + length r.1 ≡ length done.0 + length done.1 + length legs
    failures : length done.1 ≤ length r.1
    full :
        length r.1 ≡ 0
        → map (λ (x : CollectedRoute). x.token) r.0
          ≡ map (λ (x : CollectedRoute). x.token) done.0 ++ map (λ (l : Leg). l.token) legs

  abbrev collect : ℤ → ℕ → Outcome → List Leg → Outcome
  collect = collect_legs quote price_wad weth recipient max_deviation_bps

  -- Whatever holds of the routes that the loop had, and of each that it may add, holds of all.
  collect_legs-IsCollected :
      (P : CollectedRoute → Type 0) (i : ℕ) (done : Outcome) (legs : List Leg)
      → ((r : CollectedRoute) → IsOfSome i legs r → P r)
      → All P done.0
      → IsCollected P done legs (collect (price_wad 0 weth) i done legs)
  unfolding collect_legs push_outcome
  collect_legs-IsCollected P i done [] fits good = record {
    within = good;
    counted = omega arith;
    failures = omega arith;
    full = λ h. sym (append-nil (map (λ (x : CollectedRoute). x.token) done.0));
  }
  collect_legs-IsCollected P i done (leg ∷ legs) fits good =
      elim (Result-cases
        (check_leg quote price_wad weth recipient max_deviation_bps (price_wad 0 weth) i leg)) [
          | inl (route, found) ↦
              let within = check_leg-IsWithin i leg route found in
              let rest =
                collect_legs-IsCollected P (i + 1) (push_outcome done leg (ok route)) legs
                  (λ r later. fits r (inr later))
                  (All-last P done.0 route good (fits route (inl within))) in
              subst
                (λ o.
                  IsCollected P done (leg ∷ legs)
                    (collect (price_wad 0 weth) (i + 1) (push_outcome done leg o) legs))
                (sym found)
                (record {
                  within = rest.within;
                  counted = omega (arith, rest.counted, length-append done.0 (route ∷ []));
                  failures = omega (arith, rest.failures);
                  full = λ h. rest.full h ∙ moved done.0 route within.token;
                })
          | inr (reason, found) ↦
              let rest =
                collect_legs-IsCollected P (i + 1) (push_outcome done leg (err reason)) legs
                  (λ r later. fits r (inr later)) good in
              let one_more =
                length-append done.1 (record { token = leg.token; reason = reason } ∷ []) in
              subst
                (λ o.
                  IsCollected P done (leg ∷ legs)
                    (collect (price_wad 0 weth) (i + 1) (push_outcome done leg o) legs))
                (sym found)
                (record {
                  within = rest.within;
                  counted = omega (arith, rest.counted, one_more);
                  failures = omega (arith, rest.failures, one_more);
                  full = λ h. absurd (omega (arith, rest.failures, one_more, h));
                })
        ]
    where
      moved :
          (p : List CollectedRoute) (route : CollectedRoute)
          → route.token ≡ leg.token
          → map (λ (x : CollectedRoute). x.token) (p ++ (route ∷ []))
              ++ map (λ (l : Leg). l.token) legs
            ≡ map (λ (x : CollectedRoute). x.token) p
              ++ (leg.token ∷ map (λ (l : Leg). l.token) legs)
      moved [] route e = rw e refl
      moved (x ∷ p) route e = ap (λ t. x.token ∷ t) (moved p route e)

  -- What the gate promises.
  pub record IsGated (legs : List Leg) (r : QuoteGateResult) : Type 0 where
    pub within : All (IsOfSome 1 legs) r.passed
    pub counted : length r.passed + length r.failed ≡ length legs
    pub viable : (r.cycle_viable ≡ true) ↔ ((price_wad 0 weth ≢ pos 0) × (r.failed ≡ []))
    pub full :
        r.cycle_viable ≡ true
        → map (λ (x : CollectedRoute). x.token) r.passed ≡ map (λ (l : Leg). l.token) legs

  -- Whatever the clients answer: each leg either passes or fails; each route that passes is what the
  -- client answered for one of the legs, delivers an amount other than zero, and has a price that is
  -- computed from that answer and lies within the tolerance of the live price that the oracle gave
  -- for the leg; and the cycle may proceed exactly when the price of the spent token is live and no
  -- leg failed, in which case the routes are those of all the legs, in their order.
  pub collect_quotes-IsGated :
      (legs : List Leg)
      → IsGated legs (collect_quotes quote price_wad weth recipient max_deviation_bps legs)
  unfolding collect_quotes
  collect_quotes-IsGated legs = elim (Bool-cases (price_wad 0 weth == pos 0)) [
    | inl dead ↦ rw dead (record {
      within = tt;
      counted = omega (
        arith,
        length-map {B = FailedLeg}
            (λ (l : Leg). record { token = l.token; reason = weth_oracle_dead }) legs,
      );
      viable =
          (λ h. absurd (cc h), λ h. absurd (h.0 ((beq_ℤ_iff (price_wad 0 weth) (pos 0)).0 dead)));
      full = λ h. absurd (cc h);
    })
    | inr live ↦
        let got = collect_legs-IsCollected (IsOfSome 1 legs) 1 ([], []) legs (λ r h. h) tt in
        rw live (record {
          within = got.within;
          counted = omega (arith, got.counted);
          viable =
              viable_lem (price_wad 0 weth ≢ pos 0) (length legs) _ _ (omega (arith, got.counted))
                (λ e. absurd (cc (live, (beq_ℤ_iff (price_wad 0 weth) (pos 0)).1 e)));
          full = λ h. got.full (ground (arith, h));
        })
  ]
