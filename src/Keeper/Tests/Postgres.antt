-- ===== src/Keeper/Tests/Postgres.antt =====
-- The theorems on the Postgres store at a database of two tables.
use penny_protocol.Base.Map
use penny_protocol.Base.Text.{codes, Text, text_eq, text_beq}
use penny_protocol.Keeper.Tests.{ok, some, step}
use penny_protocol.Keeper.PgStore.{
  roll_back_txn, map_row, commit, rollback_txn, transact, commit_txn, with_connection, next_pg_id,
  begin_txn, query_failed, first_row, cycle_next, get_pg, step_delete, step_history, values_of,
  step_put, StepRow, step_get, Query, Answer, put_pg, PostgresStepStore, Connection,
}
use penny_protocol.Keeper.PgStore.Atomic.{
  put_pg-atomic, bumped, as_rows, with_row, Views, Tables, IsStore, IsPostgres,
}
use penny_protocol.Base.{
  nat_eq, inr, ◌≢◌, refl, ◌++◌, ◌∷◌, ◌+◌, ◌⊎◌, ◌==◌, get_or, if◌then◌else◌, List, ap, [], none,
  subst, sym, Option, ◌≡◌, some,
}
use penny_protocol.Base.Result.{err, ok}
use penny_protocol.Keeper.State.{key_of, step_id}
use penny_protocol.Base.Decimal.{read_digits, show}
use penny_protocol.Keeper.Amounts.{big_int}
use penny_protocol.Indexer.Manifest.{show_ℤ}
use penny_protocol.Keeper.PgStore.ReadBack.{get_pg-put_pg}

-- A database: what is committed, and what an open transaction sees.
abbrev Db : Type 0
Db = Tables × Tables

abbrev no_answer : Answer
no_answer = record { rows = []; cycles = [] }

abbrev select : Tables → Text → List StepRow
select t id = as_rows (Map.get t.steps id)

-- The answer to the commit of the fifth name is lost. A delete, which the store sends outside of a transaction, is committed at once.
abbrev run_query : Db → Query → Option Answer × Db
run_query (shown, seen) (step_get id) =
    (some (record { rows = select shown id; cycles = [] }), (shown, seen))
run_query (shown, seen) (step_put row) = (some no_answer, (shown, with_row row seen))
run_query (shown, seen) (step_history job) = (none, (shown, seen))
run_query (shown, seen) (step_delete id) =
    (some no_answer, (record shown { steps = Map.delete shown.steps id }, seen))
run_query (shown, seen) cycle_next =
    (some (record { rows = []; cycles = (seen.cycle + 1) ∷ [] }), (shown, bumped seen))
run_query (shown, seen) begin_txn = (some no_answer, (shown, shown))
run_query (shown, seen) commit_txn =
    ((if seen.cycle == 5 then none else some no_answer), (seen, seen))
run_query (shown, seen) rollback_txn = (some no_answer, (shown, shown))

abbrev conn : Connection Db
conn = record { query = run_query }

abbrev pg : PostgresStepStore Db
pg = record {
  pool = record { pooled = conn; connect = λ d. (some conn, d); release = λ d. d };
  client = none;
}

abbrev views : Views Db
views = record { committed = λ d. d.0; working = λ d. d.1 }

refused :
    (d : Db) (q : Query) → q ≢ commit_txn → (run_query d q).0 ≡ none → (run_query d q).1.0 ≡ d.0
refused d (step_get id) other h = absurd (cc h)
refused d (step_put row) other h = absurd (cc h)
refused d (step_history job) other h = refl
refused d (step_delete id) other h = absurd (cc h)
refused d cycle_next other h = absurd (cc h)
refused d begin_txn other h = absurd (cc h)
refused d commit_txn other h = absurd (other refl)
refused d rollback_txn other h = absurd (cc h)

conn-IsPostgres : IsPostgres views conn
conn-IsPostgres = record {
  begins = λ d a h. (refl, refl);
  puts = λ d row a h. (refl, refl);
  bumps = λ d a h. (refl, refl, sym (ap (λ o. (get_or o no_answer).cycles) h));
  commits = λ d a h. refl;
  loses = λ d h. inr refl;
  refuses = refused;
  rolls = λ d. refl;
}

some_inj : (c e : Connection Db) → some c ≡ some e → c ≡ e
some_inj c e h = ap (λ o. get_or o c) h

pg-IsStore : IsStore views pg
pg-IsStore = record {
  of_pool = record {
    connects = λ d. refl;
    releases = λ d. refl;
    checked_out = λ d c h. subst (IsPostgres views) (some_inj conn c h) conn-IsPostgres;
    reads = λ d id a h. sym (ap (λ o. (get_or o no_answer).rows) h);
  };
  of_client = λ c h. absurd (cc h);
}

abbrev empty : Tables
empty = record { steps = []; cycle = 4 }

abbrev before : Db
before = (empty, empty)

put_pg-atomic_example :
    (let (answer, d') = put_pg pg before step in
      let whole = with_row (values_of step) empty in
      ((answer ≡ ok tt) × (d'.0 ≡ whole))
      ⊎ ((answer ≡ err query_failed) × ((d'.0 ≡ empty) ⊎ (d'.0 ≡ whole))))
    × (let (name, d') = next_pg_id pg before in
        let whole = bumped empty in
        ((name ≡ ok (codes "c" ++ show 5)) × (d'.0 ≡ whole))
        ⊎ ((name ≡ err query_failed) × ((d'.0 ≡ empty) ⊎ (d'.0 ≡ whole))))
put_pg-atomic_example = put_pg-atomic views pg before step pg-IsStore

-- The allocation throws, although it took place.
lost_answer :
    let (name, d') = next_pg_id pg before in (name ≡ err query_failed) × (d'.0 ≡ bumped empty)
unfolding next_pg_id with_connection transact commit roll_back_txn
lost_answer = (refl, refl)

get_pg-put_pg_example :
    some step ≡ (if step_id step.cycle_id step.job == key_of step then some step else none)
get_pg-put_pg_example =
    get_pg-put_pg views pg before (put_pg pg before step).1 step (key_of step) none (some step)
      pg-IsStore missing returned refl found
  where
    missing : (get_pg pg before (key_of step)).0 ≡ ok none
    missing = unfold get_pg first_row Map.get in refl

    returned : (put_pg pg before step).0 ≡ ok tt
    returned = unfold put_pg with_connection transact commit in refl

    found : (get_pg pg (put_pg pg before step).1 (key_of step)).0 ≡ ok (some step)
    found =
        unfold get_pg put_pg with_connection transact commit first_row map_row values_of Map.get
          Map.set step_id text_beq big_int show_ℤ show read_digits in
        refl
