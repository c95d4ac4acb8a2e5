-- ===== src/Journal/Rows.antt =====
-- Facts about the journal's tables: reading by recovery id, and updates that keep keys.
use g_sentinel.Base.{
  String, Bool, List, [], ◌∷◌, map, none, some, ◌==◌, eq_iff, ◌≡◌, ◌≢◌, sym, ◌∙◌, arith, All,
  AllPairs, if◌then◌else◌, Bool-cases, inl, inr, is_some,
}
use mathlib.Core.Path.{subst}
use g_sentinel.Journal.Types.{OperationRecord}
use g_sentinel.Journal.Db.{Row, select, change_row}

abbrev pub HasId : String → Row → Type 0
HasId id r = r.recovery_id ≡ id

-- What holds of every payload holds of the one that is read.
pub select-All {ℓ} :
    (P : OperationRecord → Type ℓ) (p : Row → Bool) (rows : List Row) {x : OperationRecord}
    → All (λ r. P r.payload) rows
    → select p rows ≡ some x
    → P x
unfolding select
select-All P p [] h e = cc
select-All P p (r ∷ rows) {x} h e = elim (Bool-cases (p r)) [
  | inl here ↦ let same : r.payload ≡ x = ground arith in subst P same h.0
  | inr there ↦ select-All P p rows h.1 (ground arith)
]

pub All-map {ℓ κ} :
    (P : Row → Type ℓ) (Q : Row → Type κ) (f : Row → Row) (rows : List Row)
    → ((r : Row) → P r → Q (f r))
    → All P rows
    → All Q (map f rows)
All-map P Q f [] k h = tt
All-map P Q f (r ∷ rows) k h = (k r h.0, All-map P Q f rows k h.1)

pub All-imp {ℓ κ} :
    {A : Type 0} (P : A → Type ℓ) (Q : A → Type κ) (xs : List A)
    → ((x : A) → P x → Q x)
    → All P xs
    → All Q xs
All-imp P Q [] k h = tt
All-imp P Q (x ∷ xs) k h = (k x h.0, All-imp P Q xs k h.1)

pub All-both {ℓ κ} :
    {A : Type 0} (P : A → Type ℓ) (Q : A → Type κ) (xs : List A)
    → All P xs
    → All Q xs
    → All (λ x. P x × Q x) xs
All-both P Q [] h k = tt
All-both P Q (x ∷ xs) h k = ((h.0, k.0), All-both P Q xs h.1 k.1)

-- With distinct ids, every row with an id holds the payload that is read by it.
pub payload_of_id :
    (id : String) (rows : List Row) {x : OperationRecord}
    → AllPairs (λ a b. a.recovery_id ≢ b.recovery_id) rows
    → select (λ r. r.recovery_id == id) rows ≡ some x
    → All (λ r. r.recovery_id ≡ id → r.payload ≡ x) rows
unfolding select
payload_of_id id [] d e = tt
payload_of_id id (r ∷ rows) {x} d e = elim (Bool-cases (r.recovery_id == id)) [
  | inl here ↦ (
    λ _. ground arith,
    All-imp (λ b. r.recovery_id ≢ b.recovery_id) (λ b. b.recovery_id ≡ id → b.payload ≡ x) rows
        (λ b ne eq. absurd (ne ((eq_iff r.recovery_id id).0 here ∙ sym eq))) d.0,
  )
  | inr there ↦
      (λ eq. ground (arith, eq_iff r.recovery_id id), payload_of_id id rows d.1 (ground arith))
]

-- A value that is written to the rows with an id is read back by that id, and by no other.
pub select-change_row :
    (id j : String) (f : Row → Row) (y : OperationRecord) (rows : List Row)
    → ((r : Row) → (f r).recovery_id ≡ r.recovery_id)
    → ((r : Row) → (f r).payload ≡ y)
    → select (λ r. r.recovery_id == j) (map (change_row id f) rows) ≡ (
        if id == j
        then (if is_some (select (λ r. r.recovery_id == id) rows) then some y else none)
        else select (λ r. r.recovery_id == j) rows)
unfolding select
select-change_row id j f y [] k w = ground arith
select-change_row id j f y (r ∷ rows) k w = ground (
  arith,
  select-change_row id j f y rows k w,
  k r,
  w r,
  eq_iff r.recovery_id id,
  eq_iff r.recovery_id j,
  eq_iff (f r).recovery_id j,
  eq_iff id j,
)

-- `S` is known of every row, and with it `f` keeps what `R` compares.
pub All-map_of {ℓ κ} :
    (S : Row → Type κ) (P Q : Row → Type ℓ) (f : Row → Row) (rows : List Row)
    → ((r : Row) → S r → P r → Q (f r))
    → All S rows
    → All P rows
    → All Q (map f rows)
All-map_of S P Q f [] k s h = tt
All-map_of S P Q f (r ∷ rows) k s h = (k r s.0 h.0, All-map_of S P Q f rows k s.1 h.1)

pub AllPairs-map_of {ℓ κ} :
    (S : Row → Type κ) (R : Row → Row → Type ℓ) (f : Row → Row) (rows : List Row)
    → ((a b : Row) → S a → S b → R a b → R (f a) (f b))
    → All S rows
    → AllPairs R rows
    → AllPairs R (map f rows)
AllPairs-map_of S R f [] k s h = tt
AllPairs-map_of S R f (r ∷ rows) k s h = (
  All-map_of S (R r) (R (f r)) f rows (λ b sb. k r b s.0 sb) s.1 h.0,
  AllPairs-map_of S R f rows k s.1 h.1,
)
