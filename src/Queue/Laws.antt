-- ===== src/Queue/Laws.antt =====
-- What the queue of scans keeps, in every interleaving of discoveries and workers.
use g_sentinel.Base.{
  String, Bool, true, false, Option, none, some, List, [], ◌∷◌, ◌++◌, ◌≡◌, refl, ◌∙◌, subst, arith,
  or_false, any, lower, ◌==◌, All, AllPairs, Bool-cases, inl, inr,
}
use g_sentinel.Queue.{
  QueueState, Worker, checking, skipping, scanning, resting, push, is_known, enqueue_all, next_of,
  process_next, enqueue_addresses, resume, enqueued, resumed, QueueReach, begin_empty, then_event,
}

-- The address that a worker scans.
abbrev pub flight : Worker → Option String
flight (checking a) = none
flight (skipping a) = none
flight (scanning a) = some a
flight resting = none

-- At most one worker: none and nothing pending while the queue does not run, and one while it runs,
-- with the address in flight the one that it scans.
abbrev pub IsSerial : QueueState → List Worker → Type 0
IsSerial q [] = (q.running ≡ false) × (q.in_flight ≡ none) × (q.pending ≡ [])
IsSerial q (w ∷ []) = (q.running ≡ true) × (q.in_flight ≡ flight w)
IsSerial q (w ∷ v ∷ rest) = true ≡ false

next_of-IsSerial :
    (q : QueueState) (p : List String)
    → q.in_flight ≡ none
    → IsSerial (next_of q p).0 (next_of q p).1
next_of-IsSerial q [] h = (refl, refl, refl)
next_of-IsSerial q (a ∷ rest) h = (refl, h)

process_next-IsSerial :
    (q : QueueState) → q.in_flight ≡ none → IsSerial (process_next q).0 (process_next q).1
unfolding process_next
process_next-IsSerial q h = next_of-IsSerial q q.pending h

pub resume-IsSerial :
    (q : QueueState) (w : Worker) (answer : Bool)
    → IsSerial q (w ∷ [])
    → IsSerial (resume q w answer).0 (resume q w answer).1
unfolding resume
resume-IsSerial q (checking a) true h = (h.0, h.1)
resume-IsSerial q (checking a) false h = (h.0, refl)
resume-IsSerial q (scanning a) true h = (h.0, refl)
resume-IsSerial q (scanning a) false h = (h.0, refl)
resume-IsSerial q (skipping a) answer h = process_next-IsSerial q h.1
resume-IsSerial q resting answer h = process_next-IsSerial q h.1

-- Enqueuing touches the pending addresses alone.
enqueue_all-keeps :
    (q : QueueState) (addresses : List String)
    → ((enqueue_all q addresses).running ≡ q.running)
      × ((enqueue_all q addresses).in_flight ≡ q.in_flight)
unfolding enqueue_all
enqueue_all-keeps q [] = (refl, refl)
enqueue_all-keeps q (a ∷ rest) = elim (Bool-cases (is_known q (lower a))) [
  | inl e ↦ rw (e, enqueue_all) (enqueue_all-keeps q rest)
  | inr e ↦ rw (e, enqueue_all) (enqueue_all-keeps (push q a) rest)
]

enqueue-IsSerial :
    (q : QueueState) (ws : List Worker) (addresses : List String)
    → IsSerial q ws
    → IsSerial (enqueue_addresses q addresses).0 (ws ++ (enqueue_addresses q addresses).1)
unfolding enqueue_addresses
enqueue-IsSerial q [] addresses h =
    let k = enqueue_all-keeps q addresses in
    simp (k.0 ∙ h.0) (process_next-IsSerial (enqueue_all q addresses) (k.1 ∙ h.1))
enqueue-IsSerial q (w ∷ []) addresses h =
    let k = enqueue_all-keeps q addresses in simp (k.0 ∙ h.0) (refl, k.1 ∙ h.1)
enqueue-IsSerial q (w ∷ v ∷ rest) addresses h = h

IsSerial-append_nil : (q : QueueState) (ws : List Worker) → IsSerial q ws → IsSerial q (ws ++ [])
IsSerial-append_nil q [] h = h
IsSerial-append_nil q (w ∷ []) h = h
IsSerial-append_nil q (w ∷ v ∷ rest) h = cc

resumed-IsSerial :
    (q : QueueState) (before after : List Worker) (w : Worker) (answer : Bool)
    → IsSerial q (before ++ w ∷ after)
    → IsSerial (resume q w answer).0 (before ++ (resume q w answer).1 ++ after)
resumed-IsSerial q [] [] w answer h =
    IsSerial-append_nil (resume q w answer).0 (resume q w answer).1 (resume-IsSerial q w answer h)
resumed-IsSerial q [] (v ∷ after) w answer h = cc
resumed-IsSerial q (v ∷ []) after w answer h = cc
resumed-IsSerial q (v ∷ u ∷ before) after w answer h = cc

-- In every interleaving of discoveries with the rest of the scans, at most one call of `processNext`
-- is under way, so at most one address is scanned at a time, and it is the one in flight; a queue that
-- does not run has nothing pending.
pub QueueReach-IsSerial : {q : QueueState} {ws : List Worker} → QueueReach q ws → IsSerial q ws
QueueReach-IsSerial begin_empty = (refl, refl, refl)
QueueReach-IsSerial (then_event reach (enqueued addresses)) =
    enqueue-IsSerial _ _ addresses (QueueReach-IsSerial reach)
QueueReach-IsSerial (then_event {q} reach (resumed before after w answer e)) =
    resumed-IsSerial q before after w answer
      (subst (λ ws. IsSerial q ws) e (QueueReach-IsSerial reach))

-- Two addresses are the same to the queue.
abbrev pub Differ : String → String → Type 0
Differ a b = (lower a == lower b) ≡ false

append-All :
    (P : String → Type 0) (xs : List String) (x : String) → All P xs → P x → All P (xs ++ x ∷ [])
append-All P [] x h p = (p, tt)
append-All P (y ∷ ys) x h p = (h.0, append-All P ys x h.1 p)

append-AllPairs :
    (xs : List String) (x : String)
    → AllPairs Differ xs
    → All (λ y. Differ y x) xs
    → AllPairs Differ (xs ++ x ∷ [])
append-AllPairs [] x h d = (tt, tt)
append-AllPairs (y ∷ ys) x h d = (append-All (Differ y) ys x h.0 d.0, append-AllPairs ys x h.1 d.1)

none-All :
    (xs : List String) (x : String)
    → any (λ a. lower a == lower x) xs ≡ false
    → All (λ y. Differ y x) xs
none-All [] x h = tt
none-All (y ∷ ys) x h = ((or_false h).0, none-All ys x (or_false h).1)

is_known-new :
    (q : QueueState) (x : String)
    → is_known q (lower x) ≡ false
    → any (λ a. lower a == lower x) q.pending ≡ false
unfolding is_known
is_known-new q x h = ground arith

enqueue_all-distinct :
    (q : QueueState) (addresses : List String)
    → AllPairs Differ q.pending
    → AllPairs Differ (enqueue_all q addresses).pending
unfolding enqueue_all
enqueue_all-distinct q [] d = d
enqueue_all-distinct q (a ∷ rest) d = elim (Bool-cases (is_known q (lower a))) [
  | inl e ↦ rw (e, enqueue_all) (enqueue_all-distinct q rest d)
  | inr e ↦
      rw (e, enqueue_all)
        (enqueue_all-distinct (push q a) rest
          (append-AllPairs q.pending a d (none-All q.pending a (is_known-new q a e))))
]

next_of-distinct :
    (q : QueueState) (p : List String) → AllPairs Differ p → AllPairs Differ (next_of q p).0.pending
next_of-distinct q [] d = tt
next_of-distinct q (a ∷ rest) d = d.1

enqueue-distinct :
    (q : QueueState) (addresses : List String)
    → AllPairs Differ q.pending
    → AllPairs Differ (enqueue_addresses q addresses).0.pending
unfolding enqueue_addresses process_next
enqueue-distinct q addresses d =
    let k = enqueue_all-distinct q addresses d in
    elim (Bool-cases (enqueue_all q addresses).running) [
      | inl e ↦ simp e k
      | inr e ↦
          simp e (next_of-distinct (enqueue_all q addresses) (enqueue_all q addresses).pending k)
    ]

resume-distinct :
    (q : QueueState) (w : Worker) (answer : Bool)
    → AllPairs Differ q.pending
    → AllPairs Differ (resume q w answer).0.pending
unfolding resume process_next
resume-distinct q (checking a) true d = d
resume-distinct q (checking a) false d = d
resume-distinct q (scanning a) true d = d
resume-distinct q (scanning a) false d = d
resume-distinct q (skipping a) answer d = next_of-distinct q q.pending d
resume-distinct q resting answer d = next_of-distinct q q.pending d

-- In every interleaving of discoveries with the scans, no two pending addresses are the same up to
-- case.
pub QueueReach-distinct :
    {q : QueueState} {ws : List Worker} → QueueReach q ws → AllPairs Differ q.pending
QueueReach-distinct begin_empty = tt
QueueReach-distinct (then_event {q} reach (enqueued addresses)) =
    enqueue-distinct q addresses (QueueReach-distinct reach)
QueueReach-distinct (then_event {q} reach (resumed before after w answer e)) =
    resume-distinct q w answer (QueueReach-distinct reach)
