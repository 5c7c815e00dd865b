-- ===== src/Keeper/Jobs.antt =====
-- services/keeper/src/jobs.ts: the names of the jobs, and the orders in which they run.
use penny_protocol.Base.{List, [], ◌∷◌}
use penny_protocol.Base.Text.{Text, codes}

-- A union of string literals in the source.
abbrev pub JobName : Type 0
JobName = Text

abbrev pub fee_monitor : JobName
fee_monitor = codes "fee-monitor"

abbrev pub quote_collect : JobName
quote_collect = codes "quote-collect"

abbrev pub oracle_session_check : JobName
oracle_session_check = codes "oracle-session-check"

abbrev pub basket_purchase : JobName
basket_purchase = codes "basket-purchase"

abbrev pub funding_reconcile : JobName
funding_reconcile = codes "funding-reconcile"

abbrev pub ingest : JobName
ingest = codes "ingest"

abbrev pub snapshot_request : JobName
snapshot_request = codes "snapshot-request"

abbrev pub tree_build : JobName
tree_build = codes "tree-build"

abbrev pub manifest_validate : JobName
manifest_validate = codes "manifest-validate"

abbrev pub root_propose : JobName
root_propose = codes "root-propose"

abbrev pub root_activate : JobName
root_activate = codes "root-activate"

abbrev pub claim_relay : JobName
claim_relay = codes "claim-relay"

abbrev pub monitoring : JobName
monitoring = codes "monitoring"

abbrev pub job_names : List JobName
job_names =
    fee_monitor ∷ quote_collect ∷ oracle_session_check ∷ basket_purchase ∷ funding_reconcile
    ∷ ingest ∷ snapshot_request ∷ tree_build ∷ manifest_validate ∷ root_propose ∷ root_activate
    ∷ claim_relay ∷ monitoring ∷ []

abbrev pub core_job_order : List JobName
core_job_order =
    basket_purchase ∷ funding_reconcile ∷ ingest ∷ snapshot_request ∷ tree_build ∷ manifest_validate
    ∷ root_propose ∷ root_activate ∷ []
