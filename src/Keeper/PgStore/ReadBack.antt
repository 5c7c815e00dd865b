-- ===== src/Keeper/PgStore/ReadBack.antt =====
-- What `get` of services/keeper/src/pg-store.ts reads back after a `put`.
use penny_protocol.Base.Map
use penny_protocol.Base.Text.{Text, text_eq}
use penny_protocol.Keeper.State.{StepRecord, step_id}
use penny_protocol.Keeper.Amounts.{big_int-show_ℤ}
use penny_protocol.Keeper.PgStore.{
  StepRow, step_get, ok, PostgresStepStore, PgError, values_of, map_row, first_row, get_pg, put_pg,
}
use penny_protocol.Keeper.PgStore.Atomic.{with_row, Tables, Views, IsStore, as_rows, put_pg-atomic}
use penny_protocol.Base.{
  Bool-cases, ◌∙◌, ap, ◌==◌, if◌then◌else◌, subst, inr, inl, refl, Option-cases, some, Option, ◌≡◌,
}
use penny_protocol.Base.Result.{Result, ok}

-- A record is what its row maps to.
map_row-values_of : (r : StepRecord) → map_row (values_of r) ≡ ok r
unfolding map_row values_of
map_row-values_of r = rw (map_row, big_int-show_ℤ r.updated_at) refl

found_own :
    (r : StepRecord) (found : Option StepRecord)
    → first_row (as_rows (some (values_of r))) ≡ ok found
    → found ≡ some r
unfolding first_row
found_own r found h = cc (rw (map_row-values_of r) at h)

found_same :
    {answer : Result PgError (Option StepRecord)} {a b : Option StepRecord}
    → answer ≡ ok a
    → answer ≡ ok b
    → a ≡ b
found_same h g = cc (h, g)

module _ {D : Type 0} (view : Views D) (store : PostgresStepStore D) where
  -- What a `get` that answers makes of the rows.
  get_pg-rows :
      (d : D) (id : Text) (found : Option StepRecord)
      → IsStore view store
      → (get_pg store d id).0 ≡ ok found
      → first_row (as_rows (Map.get (view.committed d).steps id)) ≡ ok found
  unfolding get_pg
  get_pg-rows d id found law h = elim (Option-cases (store.pool.pooled.query d (step_get id)).0) [
    | inl refused ↦ absurd (cc (rw refused at h))
    | inr (a, answered) ↦
        subst (λ rows. first_row rows ≡ ok found) (law.of_pool.reads d id a answered)
          (rw answered at h)
  ]

  -- On a database as documented: after a put that returned, in every state that shows the same
  -- tables, a `get` that answers gives that record under its key, and under any other key what a
  -- `get` before the put gave.
  pub get_pg-put_pg :
      (d later : D) (r : StepRecord) (id : Text) (before found : Option StepRecord)
      → IsStore view store
      → (get_pg store d id).0 ≡ ok before
      → (put_pg store d r).0 ≡ ok tt
      → view.committed later ≡ view.committed (put_pg store d r).1
      → (get_pg store later id).0 ≡ ok found
      → found ≡ (if step_id r.cycle_id r.job == id then some r else before)
  unfolding values_of
  get_pg-put_pg d later r id before found law got_before put same got =
      elim (put_pg-atomic view store d r law).0 [
        | inr (thrown, kept) ↦ absurd (cc (put, thrown))
        | inl (returned, made) ↦ elim (Bool-cases (key == id)) [
          | inl own ↦
              rw own (found_own r found (at_row (some (values_of r)) (there made ∙ rw own refl)))
          | inr other ↦ rw other (
              found_same (at_row _ (there made ∙ rw other refl))
                (get_pg-rows d id before law got_before))
        ]
      ]
    where
      key : Text
      key = step_id r.cycle_id r.job

      at_row :
          (o : Option StepRow)
          → Map.get (view.committed later).steps id ≡ o
          → first_row (as_rows o) ≡ ok found
      at_row o e =
          subst (λ x. first_row (as_rows x) ≡ ok found) e (get_pg-rows later id found law got)

      there :
          view.committed (put_pg store d r).1 ≡ with_row (values_of r) (view.committed d)
          → Map.get (view.committed later).steps id
            ≡ (if key == id then some (values_of r) else Map.get (view.committed d).steps id)
      there made =
          ap (λ (t : Tables). Map.get t.steps id) (same ∙ made)
          ∙ Map.get-set (view.committed d).steps key id (values_of r)
