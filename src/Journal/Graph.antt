-- ===== src/Journal/Graph.antt =====
-- The life of one operation: the phases that it goes through, what is known in each, and that its
-- end is final.
use g_sentinel.Base.{
  String, false, List, [], ◌∷◌, map, none, some, ◌==◌, eq_iff, ◌≡◌, refl, ap, ◌∙◌, subst, arith,
  ◌⊎◌, inl, inr, Bool-cases, any,
}
use g_sentinel.Journal.Types.{terminal, OperationRecord, Limits}
use g_sentinel.Journal.Db.{Db, Row, select, read, update_operation, change_row, consumed_units}
use g_sentinel.Journal.Validate.{Hashing}
use g_sentinel.Journal.Phases.{advance, write_phase}
use g_sentinel.Journal.Rows.{select-change_row}
use g_sentinel.Journal.Invariant.{write_totals, with_totals}
use g_sentinel.Journal.Commitments.{Edge, Edge-ne_terminal}
use g_sentinel.Journal.Steps.{Step, Effect, inserted, moved, charged, unchanged, Step-Effect}

-- What one step does to an operation that is there before it.
pub record Continues (r s : OperationRecord) : Type 0 where
  pub phase : (s.phase ≡ r.phase) ⊎ Edge r.phase s.phase
  pub admission : s.admission ≡ r.admission
  pub settled :
      r.phase ≡ terminal
      → (s.terminal_outcome ≡ r.terminal_outcome) × (s.transaction_hash ≡ r.transaction_hash)

Continues-refl : (r : OperationRecord) → Continues r r
Continues-refl r = record { phase = inl refl; admission = refl; settled = λ _. (refl, refl) }

-- Every operation goes on, or is as it was.
abbrev pub Goes : Db → Db → Type 0
Goes db db' =
    (id : String) (r : OperationRecord)
    → read id db ≡ some r
    → (s : OperationRecord) × (read id db' ≡ some s) × Continues r s

select-none_of_not-any :
    (id : String) (rows : List Row)
    → any (λ o. o.recovery_id == id) rows ≡ false
    → select (λ o. o.recovery_id == id) rows ≡ none
unfolding select
select-none_of_not-any id [] h = refl
select-none_of_not-any id (r ∷ rows) h = ground (arith, select-none_of_not-any id rows)

-- An update of the rows of one operation, which go on to `y`, leaves the other operations alone.
update-Goes :
    (id : String) (f : Row → Row) (y current : OperationRecord) (db db' : Db)
    → ((r : Row) → (f r).recovery_id ≡ r.recovery_id)
    → ((r : Row) → (f r).payload ≡ y)
    → read id db ≡ some current
    → Continues current y
    → db'.operations ≡ map (change_row id f) db.operations
    → Goes db db'
unfolding read
update-Goes id f y current db db' k w found go same j r e = elim (Bool-cases (id == j)) [
  | inl here ↦ (
    y,
    ground (arith, select-change_row id j f y db.operations k w),
    subst (λ x. Continues x y) (ground (arith, eq_iff id j)) go,
  )
  | inr there ↦ (r, ground (arith, select-change_row id j f y db.operations k w), Continues-refl r)
]

module _ (hashing : Hashing) (limits : Limits) where
  Effect-Goes : {db db' : Db} → Effect hashing limits db db' → Goes db db'
  unfolding update_operation
  Effect-Goes {db} {db'} (inserted e) id r found = (
    r,
    (unfold read select in
        ground (
          arith,
          e.result,
          select-none_of_not-any e.fresh db.operations e.fresh_id,
          eq_iff e.fresh id,
        )),
    Continues-refl r,
  )
  Effect-Goes {db} {db'} (moved e) id r found =
      update-Goes e.id (write_phase e.now e.next e.updated) (advance e.now e.next e.updated)
        e.current db db' (λ r. refl) (λ r. refl) e.found
        (record {
          phase = inr e.edge;
          admission = e.same_admission;
          settled = λ end. absurd (Edge-ne_terminal e.edge end);
        })
        (ap (λ d. d.operations) e.result) id r found
  Effect-Goes {db} {db'} (charged e) id r found =
      update-Goes e.id (write_totals e.now (consumed_units e.id e.costs) e.current)
        (with_totals e.now (consumed_units e.id e.costs) e.current) e.current db db' (λ r. refl)
        (λ r. refl) e.found
        (record { phase = inl refl; admission = refl; settled = λ _. (refl, refl) })
        (ap (λ d. d.operations) e.result) id r found
  Effect-Goes (unchanged e) id r found = (r, rw e found, Continues-refl r)

  -- In every step of the journal, an operation that is there stays there, keeps its admission, and
  -- keeps its phase or follows an edge of the diagram.
  pub Step-Goes : {db db' : Db} → Step hashing limits db db' → Goes db db'
  Step-Goes s = Effect-Goes (Step-Effect hashing limits s)

  -- The databases that come after one.
  pub data Later (db : Db) : Db → Type 0 where
    now : Later db db
    after : {db₁ db₂ : Db} → Later db db₁ → Step hashing limits db₁ db₂ → Later db db₂

  -- An operation that has come to its end keeps its phase, its outcome and its transaction hash in
  -- every later database.
  pub terminal_stays :
      (id : String) (r : OperationRecord) {db db' : Db}
      → read id db ≡ some r
      → r.phase ≡ terminal
      → Later db db'
      → (s : OperationRecord) × (read id db' ≡ some s)
        × (s.phase ≡ terminal)
        × (s.terminal_outcome ≡ r.terminal_outcome)
        × (s.transaction_hash ≡ r.transaction_hash)
  terminal_stays id r found end now = (r, found, end, refl, refl)
  terminal_stays id r found end (after l st) =
      let (s, found', end', o, h) = terminal_stays id r found end l in
      let (t, found'', go) = Step-Goes st id s found' in
      let (o', h') = go.settled end' in
      (
        t,
        found'',
        elim go.phase [ inl same ↦ same ∙ end' | inr edge ↦ absurd (Edge-ne_terminal edge end') ],
        o' ∙ o,
        h' ∙ h,
      )
