-- ===== src/Queue/Drains.antt =====
-- A queue that nothing more is found for comes to its end, with every address completed or failed.
use g_sentinel.Base.{
  ℕ, zero, suc, ◌+◌, ◌*◌, ◌<◌, ◌≤◌, String, Bool, true, false, ◌||◌, none, List, [], ◌∷◌, ◌≡◌, refl,
  arith, any, lower, ◌==◌, eq_iff, eq_refl, length, Bool-cases, inl, inr,
}
use g_sentinel.Queue.{
  QueueState, Worker, checking, skipping, scanning, resting, has, add, next_of, process_next,
  resume, QueueReach,
}
use g_sentinel.Queue.Laws.{IsSerial, resume-IsSerial, QueueReach-IsSerial}

-- How far a worker is from its next address.
abbrev pub rank : List Worker → ℕ
rank [] = 0
rank (checking a ∷ rest) = 3
rank (skipping a ∷ rest) = 2
rank (scanning a ∷ rest) = 2
rank (resting ∷ rest) = 1

-- The events that are left at most.
abbrev pub left_over : QueueState → List Worker → ℕ
left_over q ws = rank ws + 4 * length q.pending

next_of_decreases :
    (q : QueueState) (p : List String) (r : ℕ)
    → 0 < r
    → left_over (next_of q p).0 (next_of q p).1 < r + 4 * length p
next_of_decreases q [] r h = omega arith
next_of_decreases q (a ∷ rest) r h = omega arith

resume_decreases :
    (q : QueueState) (w : Worker) (answer : Bool)
    → left_over (resume q w answer).0 (resume q w answer).1 < left_over q (w ∷ [])
unfolding resume process_next
resume_decreases q (checking a) true = omega arith
resume_decreases q (checking a) false = omega arith
resume_decreases q (scanning a) true = omega arith
resume_decreases q (scanning a) false = omega arith
resume_decreases q (skipping a) answer = next_of_decreases q q.pending 2 (omega arith)
resume_decreases q resting answer = next_of_decreases q q.pending 1 (omega arith)

-- The first worker is resumed up to so many times, the n-th time with the n-th answer.
unfoldable pub drain : ℕ → (ℕ → Bool) → QueueState → List Worker → QueueState × List Worker
drain zero answers q ws = (q, ws)
drain (suc n) answers q [] = (q, [])
drain (suc n) answers q (w ∷ ws) =
    drain n answers (resume q w (answers n)).0 (resume q w (answers n)).1

-- The queue is at its end: it does not run, nothing is pending or in flight, and no worker is left.
abbrev pub IsDrained : QueueState × List Worker → Type 0
IsDrained (q, ws) = (ws ≡ []) × (q.running ≡ false) × (q.in_flight ≡ none) × (q.pending ≡ [])

drain-ends :
    (n : ℕ) (answers : ℕ → Bool) (q : QueueState) (ws : List Worker)
    → left_over q ws ≤ n
    → IsSerial q ws
    → IsDrained (drain n answers q ws)
unfolding drain
drain-ends zero answers q [] le h = (refl, h.0, h.1, h.2)
drain-ends zero answers q (checking a ∷ []) le h = absurd (omega arith)
drain-ends zero answers q (skipping a ∷ []) le h = absurd (omega arith)
drain-ends zero answers q (scanning a ∷ []) le h = absurd (omega arith)
drain-ends zero answers q (resting ∷ []) le h = absurd (omega arith)
drain-ends (suc n) answers q [] le h = (refl, h.0, h.1, h.2)
drain-ends (suc n) answers q (w ∷ []) le h =
    let less = resume_decreases q w (answers n) in
    drain-ends n answers (resume q w (answers n)).0 (resume q w (answers n)).1 (omega arith)
      (resume-IsSerial q w (answers n) h)
drain-ends zero answers q (w ∷ v ∷ rest) le h = cc
drain-ends (suc n) answers q (w ∷ v ∷ rest) le h = cc

-- A worker checks or scans the address.
abbrev holds : List Worker → String → Bool
holds (checking b ∷ rest) a = b == a
holds (scanning b ∷ rest) a = b == a
holds _ a = false

-- The address was scanned, or found to be attested, or its scan failed.
abbrev pub is_settled : QueueState → String → Bool
is_settled q a = has q.completed_set (lower a) || has q.failed_set (lower a)

-- The address is settled, or still to come.
abbrev pub is_accounted : QueueState → List Worker → String → Bool
is_accounted q ws a = is_settled q a || holds ws a || any (λ b. b == a) q.pending

has-cons : (set : List String) (a : String) → has (a ∷ set) a ≡ true
has-cons set a = rw (eq_refl a) refl

has-add : (set : List String) (a : String) → has (add set a) a ≡ true
has-add set a = elim (Bool-cases (has set a)) [
  | inl there ↦ rw (there, there) refl
  | inr new ↦ rw new (has-cons set a)
]

add-keeps : (set : List String) (a b : String) → has set b ≡ true → has (add set a) b ≡ true
add-keeps set a b h = elim (Bool-cases (has set a)) [
  | inl there ↦ rw there h
  | inr new ↦ rw (new, h) (ground arith)
]

next_of-accounted :
    (q : QueueState) (p : List String) (a : String)
    → is_settled q a || any (λ b. b == a) p ≡ true
    → is_accounted (next_of q p).0 (next_of q p).1 a ≡ true
next_of-accounted q [] a h = ground arith
next_of-accounted q (b ∷ rest) a h = ground arith

-- An address that was added, or the same as one, is in the set.
has-add_same :
    (set : List String) (b a : String)
    → has set (lower a) || b == a ≡ true
    → has (add set (lower b)) (lower a) ≡ true
has-add_same set b a h = elim (Bool-cases (b == a)) [
  | inl same ↦ let e = (eq_iff b a).0 same in rw e (has-add set (lower a))
  | inr other ↦ add-keeps set (lower b) (lower a) (ground (arith, other))
]

resume-accounted :
    (q : QueueState) (w : Worker) (answer : Bool) (a : String)
    → is_accounted q (w ∷ []) a ≡ true
    → is_accounted (resume q w answer).0 (resume q w answer).1 a ≡ true
unfolding resume process_next
resume-accounted q (checking b) true a h = ground (arith, has-add_same q.completed_set b a)
resume-accounted q (checking b) false a h = h
resume-accounted q (scanning b) true a h = ground (arith, has-add_same q.completed_set b a)
resume-accounted q (scanning b) false a h = ground (arith, has-add_same q.failed_set b a)
resume-accounted q (skipping b) answer a h = next_of-accounted q q.pending a (ground arith)
resume-accounted q resting answer a h = next_of-accounted q q.pending a (ground arith)

drain-accounted :
    (n : ℕ) (answers : ℕ → Bool) (q : QueueState) (ws : List Worker) (a : String)
    → IsSerial q ws
    → is_accounted q ws a ≡ true
    → is_accounted (drain n answers q ws).0 (drain n answers q ws).1 a ≡ true
unfolding drain
drain-accounted zero answers q ws a s h = h
drain-accounted (suc n) answers q [] a s h = h
drain-accounted (suc n) answers q (w ∷ []) a s h =
    drain-accounted n answers (resume q w (answers n)).0 (resume q w (answers n)).1 a
      (resume-IsSerial q w (answers n) s) (resume-accounted q w (answers n) a h)
drain-accounted (suc n) answers q (w ∷ v ∷ rest) a s h = cc

drained_settled :
    (q : QueueState) (ws : List Worker) (a : String)
    → ws ≡ []
    → q.pending ≡ []
    → is_accounted q ws a ≡ true
    → is_settled q a ≡ true
drained_settled q ws a e p h = ground (arith, rw (e, p) at h)

-- From every state that the queue reaches, whatever the registry and the scans answer, at most as many
-- resumptions as `left_over` bring it to its end when no more addresses are found: no worker is left,
-- it does not run, and nothing is pending or in flight. Each address that was pending, or that the
-- worker checked or scanned, is then completed or failed.
pub QueueReach-drains :
    {q : QueueState} {ws : List Worker} (n : ℕ) (answers : ℕ → Bool)
    → QueueReach q ws
    → left_over q ws ≤ n
    → IsDrained (drain n answers q ws)
      × ((a : String) → is_accounted q ws a ≡ true → is_settled (drain n answers q ws).0 a ≡ true)
QueueReach-drains {q} {ws} n answers reach le =
    let s = QueueReach-IsSerial reach in
    let end = drain-ends n answers q ws le s in
    (
      end,
      λ a h.
          drained_settled (drain n answers q ws).0 (drain n answers q ws).1 a end.0 end.3
            (drain-accounted n answers q ws a s h),
    )
