-- ===== src/Keeper/Config.antt =====
-- services/keeper/src/config.ts: the configuration, and what makes one invalid.
pub mod Valid
use penny_protocol.Base.Int.{ltb_ℤ, ℤ, pos}
use penny_protocol.Base.Map
use penny_protocol.Keeper.Jobs.{JobName}
use penny_protocol.Base.{
  ◌||◌, length, none, ◌&&◌, some, ◌==◌, nat_beq, ◌++◌, [], ◌∷◌, not, false, true, ℕ, List, Bool,
  Option,
}
use penny_protocol.Base.Text.{text_eq, to_lower, codes, Text}
use Prim.Native.Nat.{ℕ}

pub record AdapterAddresses : Type 0 where
  pub reward_vault : Text
  pub fee_collector : Text
  pub basket_buyer : Text
  pub distributor : Text
  pub penny : Text

pub record KeeperConfig : Type 0 where
  pub chain_id : ℕ
  pub jobs : List JobName
  pub rescan_window : ℤ
  pub min_sweep_wei : ℤ
  pub eligibility_threshold : ℤ
  pub venue_armed : Bool
  pub excluded : List Text
  pub addresses : AdapterAddresses
  pub rpc_url : Option Text

-- The messages, by what each says.
pub data ConfigError : Type 0 where
  unrecognized_chain_id : ℕ → ConfigError
  jobs_empty rescan_negative min_sweep_negative : ConfigError
  missing_address duplicate_excluded : Text → ConfigError
  excluded_not_lowercase rpc_url_unset : ConfigError

-- `if (c) errors.push(e)`
abbrev pub report : Bool → ConfigError → List ConfigError
report true e = e ∷ []
report false e = []

-- `!text`
abbrev pub is_blank : Text → Bool
is_blank [] = true
is_blank (c ∷ cs) = false

abbrev pub is_unset : Option Text → Bool
is_unset none = true
is_unset (some t) = is_blank t

unfoldable pub address_errors : AdapterAddresses → List ConfigError
address_errors a =
    report (is_blank a.reward_vault) (missing_address (codes "rewardVault"))
    ++ (report (is_blank a.fee_collector) (missing_address (codes "feeCollector"))
        ++ (report (is_blank a.basket_buyer) (missing_address (codes "basketBuyer"))
            ++ (report (is_blank a.distributor) (missing_address (codes "distributor"))
                ++ report (is_blank a.penny) (missing_address (codes "penny")))))

-- The loop over the excluded addresses, with those already seen.
unfoldable pub duplicate_errors : List Text → List Text → List ConfigError
duplicate_errors seen [] = []
duplicate_errors seen (a ∷ rest) =
    report (Map.contains seen a) (duplicate_excluded a) ++ duplicate_errors (Map.add seen a) rest

unfoldable pub some_uppercase : List Text → Bool
some_uppercase [] = false
some_uppercase (a ∷ rest) = not (a == to_lower a) || some_uppercase rest

unfoldable pub validate_config : KeeperConfig → List ConfigError
unfolding address_errors duplicate_errors some_uppercase
validate_config c =
    report (not (nat_beq c.chain_id 4663) && not (nat_beq c.chain_id 46630))
      (unrecognized_chain_id c.chain_id)
    ++ (report (nat_beq (length c.jobs) 0) jobs_empty
        ++ (report (ltb_ℤ c.rescan_window (pos 0)) rescan_negative
            ++ (report (ltb_ℤ c.min_sweep_wei (pos 0)) min_sweep_negative
                ++ (address_errors c.addresses
                    ++ (duplicate_errors [] c.excluded
                        ++ (report (some_uppercase c.excluded) excluded_not_lowercase
                            ++ report (is_unset c.rpc_url) rpc_url_unset))))))
