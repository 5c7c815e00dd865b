-- ===== src/Keeper/Config/Valid.antt =====
-- Which configurations are accepted.
use penny_protocol.Base.Map
use penny_protocol.Base.{
  ◌&&◌, All-map, nat_beq, none, length, arith, not, refl, true, ◌∷◌, ◌↔◌, ◌<◌, some, false, All,
  ◌++◌, [], ◌⊎◌, ◌≡◌, Option, List, Bool,
}
use penny_protocol.Keeper.Config.{
  pos, is_unset, report, Text, is_blank, ConfigError, address_errors, validate_config,
  AdapterAddresses, some_uppercase, KeeperConfig, duplicate_errors,
}
use penny_protocol.Base.Text.{text_eq, text_beq_iff, to_lower, Text}
use penny_protocol.Base.Map.{IsDistinct}
use penny_protocol.Base.Tabulate.{contains-add}
use penny_protocol.Base.Int.{ltb_ℤ, ◌≤ℤ◌, pos}

append_none : (a b : List ConfigError) → a ++ b ≡ [] → (a ≡ []) × (b ≡ [])
append_none [] b h = (refl, h)
append_none (e ∷ a) b h = absurd (cc h)

none_append : {a b : List ConfigError} → a ≡ [] → b ≡ [] → a ++ b ≡ []
none_append {a} {b} p q = rw (p, q) refl

report_none : (b : Bool) (e : ConfigError) → report b e ≡ [] → b ≡ false
report_none true e h = absurd (cc h)
report_none false e h = refl

none_reported : {b : Bool} (e : ConfigError) → b ≡ false → report b e ≡ []
none_reported {b} e h = rw h refl

-- None of the five addresses is blank.
pub record HasAddresses (a : AdapterAddresses) : Type 0 where
  pub reward_vault : is_blank a.reward_vault ≡ false
  pub fee_collector : is_blank a.fee_collector ≡ false
  pub basket_buyer : is_blank a.basket_buyer ≡ false
  pub distributor : is_blank a.distributor ≡ false
  pub penny : is_blank a.penny ≡ false

-- A configuration that the keeper may run with.
pub record IsValid (c : KeeperConfig) : Type 0 where
  pub chain : (c.chain_id ≡ 4663) ⊎ (c.chain_id ≡ 46630)
  pub some_job : 0 < length c.jobs
  pub rescan : pos 0 ≤ℤ c.rescan_window
  pub min_sweep : pos 0 ≤ℤ c.min_sweep_wei
  pub addresses : HasAddresses c.addresses
  pub distinct : IsDistinct c.excluded
  pub lowercase : All (λ a. a ≡ to_lower a) c.excluded
  pub armed : (url : Text) × (c.rpc_url ≡ some url) × (is_blank url ≡ false)

seen-IsDistinct :
    (seen l : List Text)
    → duplicate_errors seen l ≡ []
    → All (λ a. Map.contains seen a ≡ false) l × IsDistinct l
unfolding duplicate_errors Map.add Map.contains
seen-IsDistinct seen [] h = (tt, tt)
seen-IsDistinct seen (a ∷ l) h =
    let (here, later) =
      append_none (report (Map.contains seen a) (ConfigError.duplicate_excluded a))
        (duplicate_errors (Map.add seen a) l) h in
    let new = report_none (Map.contains seen a) (ConfigError.duplicate_excluded a) here in
    let (fresh, distinct) = seen-IsDistinct (Map.add seen a) l later in
    ((new, All-map _ _ (λ b e. not_seen seen a b e) l fresh), (not_listed seen a l fresh, distinct))
  where
    not_seen :
        (s : List Text) (x b : Text)
        → Map.contains (Map.add s x) b ≡ false
        → Map.contains s b ≡ false
    not_seen s x b e = ground (arith, contains-add s x b)

    not_listed :
        (s : List Text) (x : Text) (rest : List Text)
        → All (λ b. Map.contains (Map.add s x) b ≡ false) rest
        → Map.contains rest x ≡ false
    not_listed s x [] h = refl
    not_listed s x (b ∷ rest) h = ground (
      arith,
      contains-add s x b,
      text_beq_iff x b,
      text_beq_iff b x,
      h.0,
      not_listed s x rest h.1,
    )

IsDistinct-seen :
    (seen l : List Text)
    → All (λ a. Map.contains seen a ≡ false) l
    → IsDistinct l
    → duplicate_errors seen l ≡ []
unfolding duplicate_errors Map.add Map.contains
IsDistinct-seen seen [] fresh d = refl
IsDistinct-seen seen (a ∷ l) fresh d =
    none_append (none_reported (ConfigError.duplicate_excluded a) fresh.0)
      (IsDistinct-seen (Map.add seen a) l (still_fresh l fresh.1 d.0) d.1)
  where
    still_fresh :
        (rest : List Text)
        → All (λ b. Map.contains seen b ≡ false) rest
        → Map.contains rest a ≡ false
        → All (λ b. Map.contains (Map.add seen a) b ≡ false) rest
    still_fresh [] f c = tt
    still_fresh (b ∷ rest) f c = (
      ground (arith, contains-add seen a b, text_beq_iff a b, text_beq_iff b a, f.0),
      still_fresh rest f.1 (ground arith),
    )

lowercase_iff : (l : List Text) → (some_uppercase l ≡ false) ↔ All (λ a. a ≡ to_lower a) l
unfolding some_uppercase
lowercase_iff [] = (λ h. tt, λ h. refl)
lowercase_iff (a ∷ l) = (
  λ h. ((text_beq_iff a (to_lower a)).0 (ground arith), (lowercase_iff l).0 (ground arith)),
  λ h. ground (arith, (text_beq_iff a (to_lower a)).1 h.0, (lowercase_iff l).1 h.1),
)

addresses_iff : (a : AdapterAddresses) → (address_errors a ≡ []) ↔ HasAddresses a
unfolding address_errors
addresses_iff a = (
  λ h.
      let (p1, r1) = append_none (report (is_blank a.reward_vault) _) _ h in
      let (p2, r2) = append_none (report (is_blank a.fee_collector) _) _ r1 in
      let (p3, r3) = append_none (report (is_blank a.basket_buyer) _) _ r2 in
      let (p4, p5) = append_none (report (is_blank a.distributor) _) _ r3 in
      record {
        reward_vault = report_none _ _ p1;
        fee_collector = report_none _ _ p2;
        basket_buyer = report_none _ _ p3;
        distributor = report_none _ _ p4;
        penny = report_none _ _ p5;
      },
  λ h. rw (h.reward_vault, h.fee_collector, h.basket_buyer, h.distributor, h.penny) refl,
)

armed_of :
    (o : Option Text) → is_unset o ≡ false → (url : Text) × (o ≡ some url) × (is_blank url ≡ false)
armed_of none h = absurd (cc h)
armed_of (some t) h = (t, refl, h)

unseen : (l : List Text) → All (λ a. Map.contains [] a ≡ false) l
unfolding Map.contains
unseen [] = tt
unseen (a ∷ l) = (refl, unseen l)

-- `validateConfig` reports nothing exactly for a chain that it knows, some job, no negative window
-- or minimum, no blank address, excluded addresses that are different and in lower case, and a node
-- to connect to.
pub validate_config-IsValid : (c : KeeperConfig) → (validate_config c ≡ []) ↔ IsValid c
unfolding validate_config
validate_config-IsValid c = (sound, complete)
  where
    sound : validate_config c ≡ [] → IsValid c
    sound h =
        let (chain, h1) =
          append_none (report (not (nat_beq c.chain_id 4663) && not (nat_beq c.chain_id 46630)) _) _
            h in
        let (job, h2) = append_none (report (nat_beq (length c.jobs) 0) _) _ h1 in
        let (rescan, h3) = append_none (report (ltb_ℤ c.rescan_window (pos 0)) _) _ h2 in
        let (sweep, h4) = append_none (report (ltb_ℤ c.min_sweep_wei (pos 0)) _) _ h3 in
        let (addresses, h5) = append_none (address_errors c.addresses) _ h4 in
        let (different, h6) = append_none (duplicate_errors [] c.excluded) _ h5 in
        let (lower, rpc) = append_none (report (some_uppercase c.excluded) _) _ h6 in
        record {
          chain = ground (arith, report_none _ _ chain);
          some_job = ground (arith, report_none _ _ job);
          rescan = ground (arith, report_none _ _ rescan);
          min_sweep = ground (arith, report_none _ _ sweep);
          addresses = (addresses_iff c.addresses).0 addresses;
          distinct = (seen-IsDistinct [] c.excluded different).1;
          lowercase = (lowercase_iff c.excluded).0 (report_none _ _ lower);
          armed = armed_of c.rpc_url (report_none _ _ rpc);
        }

    complete : IsValid c → validate_config c ≡ []
    complete h =
        let chain : (not (nat_beq c.chain_id 4663) && not (nat_beq c.chain_id 46630)) ≡ false =
          ground (arith, h.chain) in
        let job : nat_beq (length c.jobs) 0 ≡ false = ground (arith, h.some_job) in
        let rescan : ltb_ℤ c.rescan_window (pos 0) ≡ false = ground (arith, h.rescan) in
        let sweep : ltb_ℤ c.min_sweep_wei (pos 0) ≡ false = ground (arith, h.min_sweep) in
        let url : is_unset c.rpc_url ≡ false = rw h.armed.1 h.armed.2 in
        none_append (none_reported _ chain) (
          none_append (none_reported _ job) (
            none_append (none_reported _ rescan) (
              none_append (none_reported _ sweep) (
                none_append ((addresses_iff c.addresses).1 h.addresses) (
                  none_append (IsDistinct-seen [] c.excluded (unseen c.excluded) h.distinct) (
                    none_append (none_reported _ ((lowercase_iff c.excluded).1 h.lowercase))
                      (none_reported _ url)))))))
