-- ===== src/Keeper/Tests/Steps/Reached.antt =====
-- The theorem on all that the keeper reaches, at a keeper that is killed in its second cycle.
use penny_protocol.Base.Map
use penny_protocol.Keeper.Jobs
use penny_protocol.Keeper.Tests.{ℤ, List, Text, ℕ, distributor-IsDistributor}
use penny_protocol.Keeper.Tests.Steps.{
  empty_store, empty_cursor, MemoryStepStore, slice, Cycle, keeper, locale, toy_chain,
  toy_chain-IsSeparate, toy_host, of_parts, drop,
}
use penny_protocol.Keeper.StepStore.Laws.{memory_step_store-IsStepStore}
use penny_protocol.Keeper.System.Steps.{IsAppendOnly, IsJson}
use penny_protocol.Keeper.System.{Move, after_jobs, Reach}
use penny_protocol.Keeper.Steps.Recorded.{reconcile_cursor}
use penny_protocol.Keeper.Steps.{ProposeIntent, ParsedCursor, Cycle}
use penny_protocol.Base.{
  filter_by, ◌∙◌, zero, suc, none, sym, arith, ◌⊎◌, refl, some, ◌≡◌, ◌∷◌, ◌++◌, get_or, length, ap,
  [], get_elem?, List, ℕ,
}
use penny_protocol.Keeper.System.Reached.{reached-on_chain, IsReliable}
use penny_protocol.Base.Text.{Text}
use penny_protocol.Base.Int.{negsuc, neg_part, pos_part, pos, ℤ}
use penny_protocol.Keeper.Steps.Release.{slice}
use penny_protocol.Keeper.State.{history_of, history, new_memory_store, MemoryStepStore}
use penny_protocol.Keeper.Jobs.{JobName}
use penny_protocol.Keeper.Cycle.{run_cycle, attempt}
use penny_protocol.Keeper.Pipeline.{EpochCursor, empty_cursor}
use penny_protocol.Indexer.Store.{empty_store}
use penny_protocol.Base.Sort.{sort}

get_elem?-append :
    (c : List Text) (root r : Text) (n : ℕ)
    → get_elem? c n ≡ some r
    → get_elem? (c ++ (root ∷ [])) n ≡ some r
get_elem?-append [] root r n h = absurd (cc h)
get_elem?-append (x ∷ c) root r zero h = h
get_elem?-append (x ∷ c) root r (suc n) h = get_elem?-append c root r n h

toy_chain-IsAppendOnly : IsAppendOnly toy_chain
toy_chain-IsAppendOnly = record {
  keeps = λ c root assets totals hash n r h. get_elem?-append c root r n h;
}

of_parts-of : (i : ℤ) → of_parts (pos_part i) (neg_part i) ≡ i
of_parts-of (pos n) = refl
of_parts-of (negsuc n) = ground arith

slice-append : (r x : Text) → slice (length r) (r ++ x) ≡ r
slice-append [] x = refl
slice-append (c ∷ r) x = ap (λ t. c ∷ t) (slice-append r x)

drop-append : (r x : Text) → drop (length r) (r ++ x) ≡ x
drop-append [] x = refl
drop-append (c ∷ r) x = drop-append r x

toy_host-IsJson : IsJson toy_host
toy_host-IsJson = record {
  cursors = λ cursor p h.
      let same = ap (λ o. (get_or {A = ParsedCursor} o p).cursor) (sym h) in
      (
        ap (λ (c : EpochCursor). c.epoch_index) same ∙ of_parts-of cursor.epoch_index,
        ap (λ (c : EpochCursor). c.root) same,
      );
  intents = λ intent back h.
      let same = ap (λ o. get_or {A = ProposeIntent} o back) (sym h) in
      let rest : drop (length intent.root)
            (intent.root ++ (intent.content_hash ++ intent.next_cursor))
          ≡ intent.content_hash ++ intent.next_cursor =
        drop-append intent.root (intent.content_hash ++ intent.next_cursor) in
      (
        ap (λ (i : ProposeIntent). i.epoch_index) same,
        ap (λ (i : ProposeIntent). i.root) same
            ∙ slice-append intent.root (intent.content_hash ++ intent.next_cursor),
        ap (λ (i : ProposeIntent). i.next_cursor) same
            ∙ ap (drop (length intent.content_hash)) rest
            ∙ drop-append intent.content_hash intent.next_cursor,
      );
}

keeper-IsReliable : IsReliable keeper
keeper-IsReliable = record {
  of_store = memory_step_store-IsStepStore locale;
  of_distributor = distributor-IsDistributor;
  append_only = toy_chain-IsAppendOnly;
  separate = toy_chain-IsSeparate;
  of_json = toy_host-IsJson;
}

abbrev clock : ℕ → ℤ
clock n = pos n

abbrev first : Cycle (List Text) MemoryStepStore
first = (run_cycle keeper clock [] new_memory_store empty_store none).1.world

-- The second cycle, up to its activation.
abbrev pre : List JobName
pre =
    Jobs.basket_purchase ∷ Jobs.funding_reconcile ∷ Jobs.ingest ∷ Jobs.snapshot_request
    ∷ Jobs.tree_build ∷ Jobs.manifest_validate ∷ Jobs.root_propose ∷ []

abbrev second : Cycle (List Text) MemoryStepStore
second = after_jobs keeper clock first.chain first.ledger empty_store none pre

abbrev killed : Cycle (List Text) MemoryStepStore
killed = (attempt keeper Jobs.root_activate second).1

reached : Reach keeper [] new_memory_store killed.chain killed.ledger
reached =
    Reach.next (Reach.next Reach.here (Move.cycled clock empty_store none refl refl)) (
      Move.killed_after clock empty_store none pre [] Jobs.root_activate second refl refl refl refl)

reached-on_chain_example :
    let cursor = (reconcile_cursor keeper killed.chain killed.ledger (pos 20)).0.cursor in
    (cursor ≡ empty_cursor)
    ⊎ ((n : ℕ) × (cursor.epoch_index ≡ pos n) × (get_elem? killed.chain n ≡ some cursor.root))
reached-on_chain_example =
    reached-on_chain keeper [] killed.chain new_memory_store killed.ledger (pos 20)
      keeper-IsReliable (nothing _) (nothing _) reached
  where
    nothing : (job : JobName) → keeper.store.history new_memory_store job ≡ []
    nothing job = unfold history history_of sort filter_by Map.values in refl
