-- ===== src/Keeper/PgStore.antt =====
-- services/keeper/src/pg-store.ts: the step store on Postgres, over a database that is a parameter.
pub mod Atomic
pub mod ReadBack
use penny_protocol.Keeper.State
use penny_protocol.Keeper.State.{StepRecord, StepStatus}
use penny_protocol.Keeper.Amounts.{big_int}
use penny_protocol.Base.Result.{◌>>=◌, ok, err, Result}
use penny_protocol.Base.Text.{codes, Text}
use penny_protocol.Keeper.Jobs.{JobName}
use penny_protocol.Base.{◌++◌, [], ◌∷◌, none, some, ℕ, List, Option}
use penny_protocol.Indexer.Manifest.{show_ℤ}
use penny_protocol.Base.Decimal.{show}

-- A row of `step_records`; a status is the text that names it.
pub record StepRow : Type 0 where
  pub step_id : Text
  pub cycle_id : Text
  pub job : JobName
  pub status : StepStatus
  pub input_hash : Option Text
  pub attempts : ℕ
  pub at_block : Option ℕ
  pub detail : Option Text
  pub last_error : Option Text
  pub updated_at : Text

-- The prepared statements, with their values.
pub data Query : Type 0 where
  step_get : Text → Query
  step_put : StepRow → Query
  step_history : JobName → Query
  step_delete : Text → Query
  cycle_next begin_txn commit_txn rollback_txn : Query

-- The rows that a statement returns: of steps, or of the journal.
pub record Answer : Type 0 where
  pub rows : List StepRow
  pub cycles : List ℕ

-- A client on a database whose states are `D`; none is a promise that is rejected.
pub record Connection (D : Type 0) : Type 0 where
  pub query : D → Query → Option Answer × D

pub record Pool (D : Type 0) : Type 0 where
  pub pooled : Connection D
  pub connect : D → Option (Connection D) × D
  pub release : D → D

pub record PostgresStepStore (D : Type 0) : Type 0 where
  pub pool : Pool D
  pub client : Option (Connection D)

-- What the calls throw: the database's error, or that of `BigInt`.
pub data PgError : Type 0 where
  query_failed not_a_number : PgError

-- The values of a put.
unfoldable pub values_of : StepRecord → StepRow
values_of r = record {
  step_id = State.step_id r.cycle_id r.job;
  cycle_id = r.cycle_id;
  job = r.job;
  status = r.status;
  input_hash = r.input_hash;
  attempts = r.attempts;
  at_block = r.at_block;
  detail = r.detail;
  last_error = r.last_error;
  updated_at = show_ℤ r.updated_at;
}

-- `mapRow`
unfoldable pub map_row : StepRow → Result PgError StepRecord
map_row row = elim (big_int row.updated_at) [
  | none ↦ err not_a_number
  | some updated_at ↦ ok (record {
    cycle_id = row.cycle_id;
    job = row.job;
    status = row.status;
    input_hash = row.input_hash;
    attempts = row.attempts;
    at_block = row.at_block;
    last_error = row.last_error;
    detail = row.detail;
    updated_at = updated_at;
  })
]

-- `rows.map((row) => this.mapRow(row))`
unfoldable pub map_rows : List StepRow → Result PgError (List StepRecord)
unfolding map_row
map_rows [] = ok []
map_rows (row ∷ rest) = do r ← map_row row; rs ← map_rows rest; ok (r ∷ rs)

unfoldable pub first_row : List StepRow → Result PgError (Option StepRecord)
unfolding map_row
first_row [] = ok none
first_row (row ∷ rest) = do r ← map_row row; ok (some r)

-- `rows[0]?.cycle ?? 0`
abbrev pub first_cycle : List ℕ → ℕ
first_cycle [] = 0
first_cycle (n ∷ rest) = n

module _ {D : Type 0} where
  -- The `catch` around a transaction: rolled back, whatever that answers, and thrown on.
  unfoldable pub roll_back_txn : Connection D → D → Result PgError Answer × D
  roll_back_txn conn d = (err query_failed, (conn.query d rollback_txn).1)

  unfoldable pub commit : Connection D → Answer → D → Result PgError Answer × D
  unfolding roll_back_txn
  commit conn answer d =
      let (done, d') = conn.query d commit_txn in
      elim done [ none ↦ roll_back_txn conn d' | some other ↦ (ok answer, d') ]

  -- `begin`, which stands outside of the `try`, then the statement, then `commit`.
  unfoldable pub transact : Query → Connection D → D → Result PgError Answer × D
  unfolding roll_back_txn commit
  transact q conn d =
      let (begun, d1) = conn.query d begin_txn in
      elim begun [
        | none ↦ (err query_failed, d1)
        | some _ ↦
            let (answer, d2) = conn.query d1 q in
            elim answer [ none ↦ roll_back_txn conn d2 | some a ↦ commit conn a d2 ]
      ]

  unfoldable pub with_connection :
      PostgresStepStore D
      → (Connection D → D → Result PgError Answer × D)
      → D
      → Result PgError Answer × D
  with_connection store run d = elim store.client [
    | some client ↦ run client d
    | none ↦
        let (conn, d1) = store.pool.connect d in
        elim conn [
          | none ↦ (err query_failed, d1)
          | some c ↦ let (answer, d2) = run c d1 in (answer, store.pool.release d2)
        ]
  ]

  module _ (store : PostgresStepStore D) where
    abbrev asked : D → Query → Result PgError Answer × D
    asked d q =
        let (answer, d') = store.pool.pooled.query d q in
        (elim answer [ none ↦ err query_failed | some a ↦ ok a ], d')

    unfoldable pub get_pg : D → Text → Result PgError (Option StepRecord) × D
    unfolding first_row
    get_pg d id = let (answer, d') = asked d (step_get id) in (do a ← answer; first_row a.rows, d')

    unfoldable pub put_pg : D → StepRecord → Result PgError (Unit {0}) × D
    unfolding with_connection transact values_of
    put_pg d r =
        let (answer, d') = with_connection store (transact (step_put (values_of r))) d in
        (do a ← answer; ok tt, d')

    unfoldable pub history_pg : D → JobName → Result PgError (List StepRecord) × D
    unfolding map_rows
    history_pg d job =
        let (answer, d') = asked d (step_history job) in (do a ← answer; map_rows a.rows, d')

    unfoldable pub delete_pg : D → Text → Result PgError (Unit {0}) × D
    delete_pg d id = let (answer, d') = asked d (step_delete id) in (do a ← answer; ok tt, d')

    unfoldable pub next_pg_id : D → Result PgError Text × D
    unfolding with_connection transact
    next_pg_id d =
        let (answer, d') = with_connection store (transact cycle_next) d in
        (do a ← answer; ok (codes "c" ++ show (first_cycle a.cycles)), d')
