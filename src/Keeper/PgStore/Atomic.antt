-- ===== src/Keeper/PgStore/Atomic.antt =====
-- The transactions of services/keeper/src/pg-store.ts happen whole or not at all, and a record reads
-- back as it was put.
use penny_protocol.Base.Map
use penny_protocol.Keeper.PgStore.{
  show, values_of, StepRecord, next_pg_id, put_pg, with_connection, PostgresStepStore, rollback_txn,
  query_failed, cycle_next, commit_txn, step_get, step_put, Text, Option, Result, begin_txn,
  StepRow, Query, Answer, Connection, Pool, PgError, transact, roll_back_txn, commit,
}
use penny_protocol.Base.{
  ◌≢◌, ◌++◌, refl, subst, none, ap, inl, ◌∷◌, ◌∙◌, inr, Option-cases, ℕ, [], ◌⊎◌, List, some, ◌+◌,
  ◌≡◌, Option,
}
use penny_protocol.Base.Result.{err, ok, Result}
use penny_protocol.Base.Map.{Map}
use penny_protocol.Base.Text.{codes, text_eq, Text}
use penny_protocol.Keeper.State.{StepRecord}
use penny_protocol.Base.Decimal.{show}

-- The two tables.
pub record Tables : Type 0 where
  pub steps : Map Text StepRow
  pub cycle : ℕ

-- What others see of a database, and what the transaction sees that is open on it.
pub record Views (D : Type 0) : Type 0 where
  pub committed : D → Tables
  pub working : D → Tables

abbrev pub with_row : StepRow → Tables → Tables
with_row row t = record t { steps = Map.set t.steps row.step_id row }

abbrev pub bumped : Tables → Tables
bumped t = record t { cycle = t.cycle + 1 }

-- The rows that have a key.
abbrev pub as_rows : Option StepRow → List StepRow
as_rows none = []
as_rows (some row) = row ∷ []

module _ {D : Type 0} (view : Views D) where
  -- What Postgres documents of the statements: those of a transaction change what it sees alone,
  -- a commit shows it to the others, and a statement that is refused or a rollback shows nothing.
  -- Whether a commit took place whose answer was lost is not known.
  pub record IsPostgres (conn : Connection D) : Type 0 where
    pub begins :
        (d : D) (a : Answer)
        → (conn.query d begin_txn).0 ≡ some a
        → (view.committed (conn.query d begin_txn).1 ≡ view.committed d)
          × (view.working (conn.query d begin_txn).1 ≡ view.committed d)
    pub puts :
        (d : D) (row : StepRow) (a : Answer)
        → (conn.query d (step_put row)).0 ≡ some a
        → (view.committed (conn.query d (step_put row)).1 ≡ view.committed d)
          × (view.working (conn.query d (step_put row)).1 ≡ with_row row (view.working d))
    pub bumps :
        (d : D) (a : Answer)
        → (conn.query d cycle_next).0 ≡ some a
        → (view.committed (conn.query d cycle_next).1 ≡ view.committed d)
          × (view.working (conn.query d cycle_next).1 ≡ bumped (view.working d))
          × (a.cycles ≡ ((view.working d).cycle + 1) ∷ [])
    pub commits :
        (d : D) (a : Answer)
        → (conn.query d commit_txn).0 ≡ some a
        → view.committed (conn.query d commit_txn).1 ≡ view.working d
    pub loses :
        (d : D)
        → (conn.query d commit_txn).0 ≡ none
        → (view.committed (conn.query d commit_txn).1 ≡ view.committed d)
          ⊎ (view.committed (conn.query d commit_txn).1 ≡ view.working d)
    pub refuses :
        (d : D) (q : Query)
        → q ≢ commit_txn
        → (conn.query d q).0 ≡ none
        → view.committed (conn.query d q).1 ≡ view.committed d
    pub rolls : (d : D) → view.committed (conn.query d rollback_txn).1 ≡ view.committed d

  -- Each connection of the pool is such a one, and checking one out or in shows nothing.
  pub record IsPool (pool : Pool D) : Type 0 where
    pub connects : (d : D) → view.committed (pool.connect d).1 ≡ view.committed d
    pub releases : (d : D) → view.committed (pool.release d) ≡ view.committed d
    pub checked_out :
        (d : D) (conn : Connection D) → (pool.connect d).0 ≡ some conn → IsPostgres conn
    pub reads :
        (d : D) (id : Text) (a : Answer)
        → (pool.pooled.query d (step_get id)).0 ≡ some a
        → a.rows ≡ as_rows (Map.get (view.committed d).steps id)

  -- The pool, and the client if one was injected.
  pub record IsStore (store : PostgresStepStore D) : Type 0 where
    pub of_pool : IsPool store.pool
    pub of_client : (conn : Connection D) → store.client ≡ some conn → IsPostgres conn

  -- A transaction with this effect was made whole, with an answer as promised, or not at all.
  abbrev Atomic :
      (Tables → Tables) → (Answer → Tables → Type 0) → D → Result PgError Answer × D → Type 0
  Atomic effect Promise d (answer, d') =
      ((a : Answer) × (answer ≡ ok a)
        × (view.committed d' ≡ effect (view.committed d))
        × Promise a (view.committed d))
      ⊎ ((answer ≡ err query_failed)
          × ((view.committed d' ≡ view.committed d)
              ⊎ (view.committed d' ≡ effect (view.committed d))))

  module _ (conn : Connection D) (law : IsPostgres conn) (q : Query) (effect : Tables → Tables)
      (Promise : Answer → Tables → Type 0) (other : q ≢ commit_txn)
      (works : (d : D) (a : Answer)
        → (conn.query d q).0 ≡ some a
        → (view.committed (conn.query d q).1 ≡ view.committed d)
          × (view.working (conn.query d q).1 ≡ effect (view.working d))
          × Promise a (view.working d)) where
    roll_back_txn-Atomic :
        (d d' : D)
        → (view.committed d' ≡ view.committed d) ⊎ (view.committed d' ≡ effect (view.committed d))
        → Atomic effect Promise d (roll_back_txn conn d')
    unfolding roll_back_txn
    roll_back_txn-Atomic d d' (inl same) = inr (refl, inl (law.rolls d' ∙ same))
    roll_back_txn-Atomic d d' (inr made) = inr (refl, inr (law.rolls d' ∙ made))

    commit-Atomic :
        (d d' : D) (a : Answer)
        → view.committed d' ≡ view.committed d
        → view.working d' ≡ effect (view.committed d)
        → Promise a (view.committed d)
        → Atomic effect Promise d (commit conn a d')
    unfolding commit
    commit-Atomic d d' a same seen promise = elim (Option-cases (conn.query d' commit_txn).0) [
      | inl refused ↦
          rw (commit, refused)
            (roll_back_txn-Atomic d (conn.query d' commit_txn).1 (elim (law.loses d' refused) [
              | inl lost ↦ inl (lost ∙ same)
              | inr made ↦ inr (made ∙ seen)
            ]))
      | inr (b, done) ↦ rw (commit, done) (inl (a, refl, law.commits d' b done ∙ seen, promise))
    ]

    transact-Atomic : (d : D) → Atomic effect Promise d (transact q conn d)
    unfolding transact
    transact-Atomic d = elim (Option-cases (conn.query d begin_txn).0) [
      | inl refused ↦
          rw (transact, refused) (inr (refl, inl (law.refuses d begin_txn (λ e. cc e) refused)))
      | inr (a, begun) ↦
          let d1 = (conn.query d begin_txn).1 in
          let (same, seen) = law.begins d a begun in
          elim (Option-cases (conn.query d1 q).0) [
            | inl refused ↦
                rw (transact, begun, refused)
                  (roll_back_txn-Atomic d (conn.query d1 q).1
                    (inl (law.refuses d1 q other refused ∙ same)))
            | inr (b, done) ↦
                let (same', seen', promise) = works d1 b done in
                rw (transact, begun, done)
                  (commit-Atomic d (conn.query d1 q).1 b (same' ∙ same) (seen' ∙ ap effect seen)
                    (subst (Promise b) seen promise))
          ]
    ]

module _ {D : Type 0} (view : Views D) (store : PostgresStepStore D) (law : IsStore view store)
    (q : Query) (effect : Tables → Tables) (Promise : Answer → Tables → Type 0)
    (other : q ≢ commit_txn)
    (works : (conn : Connection D)
      → IsPostgres view conn
      → (d : D) (a : Answer) → (conn.query d q).0 ≡ some a
      → (view.committed (conn.query d q).1 ≡ view.committed d)
        × (view.working (conn.query d q).1 ≡ effect (view.working d))
        × Promise a (view.working d)) where
  -- A state that shows the same before, and another that shows the same after.
  Atomic-around :
      (d d1 : D) (answer : Result PgError Answer) (d2 d3 : D)
      → view.committed d1 ≡ view.committed d
      → view.committed d3 ≡ view.committed d2
      → Atomic view effect Promise d1 (answer, d2)
      → Atomic view effect Promise d (answer, d3)
  Atomic-around d d1 answer d2 d3 before after (inl (a, e, made, promise)) =
      inl (a, e, after ∙ made ∙ ap effect before, subst (Promise a) before promise)
  Atomic-around d d1 answer d2 d3 before after (inr (e, inl same)) =
      inr (e, inl (after ∙ same ∙ before))
  Atomic-around d d1 answer d2 d3 before after (inr (e, inr made)) =
      inr (e, inr (after ∙ made ∙ ap effect before))

  with_connection-Atomic :
      (d : D) → Atomic view effect Promise d (with_connection store (transact q) d)
  unfolding with_connection
  with_connection-Atomic d = elim (Option-cases store.client) [
    | inr (client, own) ↦
        let client_law = law.of_client client own in
        rw (with_connection, own)
          (transact-Atomic view client client_law q effect Promise other (works client client_law)
            d)
    | inl pooled ↦
        let d1 = (store.pool.connect d).1 in
        let before = law.of_pool.connects d in
        elim (Option-cases (store.pool.connect d).0) [
          | inl refused ↦ rw (with_connection, pooled, refused) (inr (refl, inl before))
          | inr (conn, found) ↦
              let conn_law = law.of_pool.checked_out d conn found in
              let ran = transact q conn d1 in
              rw (with_connection, pooled, found)
                (Atomic-around d d1 ran.0 ran.1 (store.pool.release ran.1) before
                  (law.of_pool.releases ran.1)
                  (transact-Atomic view conn conn_law q effect Promise other (works conn conn_law)
                    d1))
        ]
  ]

module _ {D : Type 0} (view : Views D) (store : PostgresStepStore D) where
  -- On a database as documented, from every state: a put either returns, and then its row stands in
  -- the table under its key beside all other rows, or throws, and then the tables are as they were
  -- or, where the answer to the commit was lost, as after the whole put; and the allocation of a
  -- cycle either returns the next number's name, and then the journal holds that number, or throws,
  -- and then the tables are as they were or as after the whole allocation.
  pub put_pg-atomic :
      (d : D) (r : StepRecord)
      → IsStore view store
      → (let (answer, d') = put_pg store d r in
          let whole = with_row (values_of r) (view.committed d) in
          ((answer ≡ ok tt) × (view.committed d' ≡ whole))
          ⊎ ((answer ≡ err query_failed)
              × ((view.committed d' ≡ view.committed d) ⊎ (view.committed d' ≡ whole))))
        × (let (name, d') = next_pg_id store d in
            let whole = bumped (view.committed d) in
            ((name ≡ ok (codes "c" ++ show ((view.committed d).cycle + 1)))
              × (view.committed d' ≡ whole))
            ⊎ ((name ≡ err query_failed)
                × ((view.committed d' ≡ view.committed d) ⊎ (view.committed d' ≡ whole))))
  unfolding put_pg next_pg_id
  put_pg-atomic d r law = (
    elim (with_connection-Atomic view store law (step_put (values_of r)) (with_row (values_of r))
        (λ a t. Unit {0}) (λ e. cc e)
        (λ conn conn_law d a done.
          let (same, seen) = conn_law.puts d (values_of r) a done in (same, seen, tt))
        d) [
          | inl (a, e, made, promise) ↦ inl (rw e refl, made)
          | inr (e, same) ↦ inr (rw e refl, same)
        ],
    elim (with_connection-Atomic view store law cycle_next bumped
        (λ a t. a.cycles ≡ (t.cycle + 1) ∷ []) (λ e. cc e)
        (λ conn conn_law d a done. conn_law.bumps d a done) d) [
          | inl (a, e, made, promise) ↦ inl (rw (e, promise) refl, made)
          | inr (e, same) ↦ inr (rw e refl, same)
        ],
  )
