-- ===== src/Journal/Limits.antt =====
-- The bounds on live operations that `enforceAdmission` sets, as invariants of the journal.
use g_sentinel.Base.{
  ◌≤◌, ◌+◌, String, Bool, true, false, List, [], ◌∷◌, map, eq_iff, ◌≡◌, refl, arith, All, AllPairs,
  Bool-cases, inl, inr, count_if,
}
use g_sentinel.Journal.Types.{Limits}
use g_sentinel.Journal.Db.{Db, Row, update_operation, consumed_units}
use g_sentinel.Journal.Validate.{Hashing}
use g_sentinel.Journal.Admission.{is_live, is_live_identity, is_live_operator, enforce_admission}
use g_sentinel.Journal.Invariant.{IsWellFormed, OneLive, Stays, All-Stays_phase, All-Stays_totals}
use g_sentinel.Journal.Rows.{All-imp}
use g_sentinel.Journal.Commitments.{Edge-ne_terminal}
use g_sentinel.Journal.Steps.{
  Reach, start, then_step, Effect, inserted, moved, charged, unchanged, Inserts, Step-Effect,
  Reach-IsWellFormed,
}

-- An update under which no row comes to meet the test does not raise the count.
count_if-map-le {ℓ} :
    (S : Row → Type ℓ) (p : Row → Bool) (f : Row → Row) (rows : List Row)
    → ((r : Row) → S r → p (f r) ≡ true → p r ≡ true)
    → All S rows
    → count_if p (map f rows) ≤ count_if p rows
unfolding count_if
count_if-map-le S p f [] k s = omega arith
count_if-map-le S p f (r ∷ rows) k s = ground (arith, k r s.0, count_if-map-le S p f rows k s.1)

count_if-zero :
    (p : Row → Bool) (rows : List Row) → All (λ b. p b ≡ false) rows → count_if p rows ≡ 0
unfolding count_if
count_if-zero p [] h = refl
count_if-zero p (r ∷ rows) h = ground (arith, count_if-zero p rows h.1)

count_if-one :
    (p : Row → Bool) (r : Row) (rows : List Row) → count_if p (r ∷ rows) ≤ 1 + count_if p rows
unfolding count_if
count_if-one p r rows = ground arith

-- At most one live row has a given identity.
count_if-le-one :
    (key : String) (rows : List Row)
    → AllPairs OneLive rows
    → count_if (is_live_identity key) rows ≤ 1
unfolding count_if
count_if-le-one key [] h = omega arith
count_if-le-one key (r ∷ rows) h = elim (Bool-cases (is_live_identity key r)) [
  | inl here ↦ omega (
    arith,
    count_if-zero (is_live_identity key) rows (
        All-imp (OneLive r) (λ b. is_live_identity key b ≡ false) rows
          (λ b one. ground (arith, one, eq_iff r.identity_key key, eq_iff b.identity_key key)) h.0),
    count_if-one (is_live_identity key) r rows,
  )
  | inr there ↦ ground (arith, count_if-le-one key rows h.1)
]

abbrev pub Within : Limits → Db → Type 0
Within limits db =
    ((operator : String)
      → count_if (is_live_operator operator) db.operations ≤ limits.max_concurrency)
    × (count_if is_live db.operations ≤ limits.global_max_concurrency)

Inserts-Within :
    (limits : Limits) {db db' : Db} → Inserts limits db db' → Within limits db → Within limits db'
unfolding enforce_admission count_if
Inserts-Within limits {db} e h = rw e.result (
  (λ operator. ground (arith, e.admitted, h.0 operator, eq_iff e.input.operator operator)),
  ground (arith, e.admitted, h.1),
)

-- Rows that stay what they were, up to a step towards the end, keep the bounds.
map-Within :
    (limits : Limits) (db : Db) (f : Row → Row)
    → All (λ r. Stays r (f r)) db.operations
    → Within limits db
    → ((operator : String)
        → count_if (is_live_operator operator) (map f db.operations) ≤ limits.max_concurrency)
      × (count_if is_live (map f db.operations) ≤ limits.global_max_concurrency)
map-Within limits db f s h = (
  (λ operator. omega (
    arith,
    h.0 operator,
    count_if-map-le (λ r. Stays r (f r)) (is_live_operator operator) f db.operations
        (λ r sr live. ground (arith, sr.live, sr.operator)) s,
  )),
  omega (
    arith,
    h.1,
    count_if-map-le (λ r. Stays r (f r)) is_live f db.operations (λ r sr live. sr.live live) s,
  ),
)

Effect-Within :
    (hashing : Hashing) (limits : Limits) {db db' : Db}
    → Effect hashing limits db db'
    → IsWellFormed db
    → Within limits db
    → Within limits db'
unfolding update_operation
Effect-Within hashing limits (inserted e) w h = Inserts-Within limits e h
Effect-Within hashing limits {db} (moved e) w h = rw e.result (
    map-Within limits db _
      (All-Stays_phase db e.id w e.found e.now e.next e.updated e.same_admission e.same_id
        (Edge-ne_terminal e.edge))
      h)
Effect-Within hashing limits {db} (charged e) w h = rw e.result (
    map-Within limits db _ (All-Stays_totals db e.id w e.found e.now (consumed_units e.id e.costs))
      h)
Effect-Within hashing limits (unchanged e) w h = rw e h

-- In every database that a journal with these limits reaches, an operator has at most
-- `max_concurrency` live operations, and all operators together have at most
-- `global_max_concurrency`.
pub Reach-Within :
    (hashing : Hashing) (limits : Limits) {db : Db} → Reach hashing limits db → Within limits db
unfolding count_if
Reach-Within hashing limits start = ((λ operator. omega arith), omega arith)
Reach-Within hashing limits (then_step r s) =
    Effect-Within hashing limits (Step-Effect hashing limits s)
      (Reach-IsWellFormed hashing limits r) (Reach-Within hashing limits r)

-- In every database that a journal reaches, at most one operation of an identity has not come to
-- its end.
pub Reach-one_live :
    (hashing : Hashing) (limits : Limits) (key : String) {db : Db}
    → Reach hashing limits db
    → count_if (is_live_identity key) db.operations ≤ 1
Reach-one_live hashing limits key {db} r =
    count_if-le-one key db.operations (Reach-IsWellFormed hashing limits r).one_live
