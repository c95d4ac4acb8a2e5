-- ===== src/Tests/QueueRun.antt =====
-- Two discoveries around the check of an address, and its scan.
use g_sentinel.Base.{
  arith, Bool, eqb, String, ℕ, ◌≡◌, ◌<◌, ◌+◌, ◌*◌, refl, some, none, List, [], ◌∷◌, true, false,
  length, AllPairs,
}
use g_sentinel.Queue.{
  QueueState, Worker, checking, scanning, resume, enqueue_addresses, initial_queue, QueueReach,
  begin_empty, then_event, enqueued, resumed,
}
use g_sentinel.Queue.Laws.{IsSerial, QueueReach-IsSerial, Differ, QueueReach-distinct}
use g_sentinel.Queue.Drains.{drain, IsDrained, is_accounted, is_settled, QueueReach-drains}

abbrev addresses : List String
addresses = "0xAa" ∷ "0xaA" ∷ "0xB" ∷ []

abbrev scanning_queue : QueueState
scanning_queue = record {
  pending = "0xB" ∷ [];
  completed_set = [];
  failed_set = [];
  in_flight = some "0xAa";
  running = true;
}

scanning_reach : QueueReach scanning_queue (scanning "0xAa" ∷ [])
unfolding enqueue_addresses resume g_sentinel.Queue.enqueue_all g_sentinel.Queue.is_known
    g_sentinel.Base.lower
scanning_reach =
    then_event (then_event begin_empty (enqueued addresses))
      (resumed [] [] (checking "0xAa") false refl)

QueueReach-IsSerial_example : IsSerial scanning_queue (scanning "0xAa" ∷ [])
QueueReach-IsSerial_example = QueueReach-IsSerial scanning_reach

QueueReach-distinct_example : AllPairs Differ scanning_queue.pending
QueueReach-distinct_example = QueueReach-distinct scanning_reach

-- The scan of the first address fails, and the second is attested.
abbrev answers : ℕ → Bool
answers n = eqb n 4

QueueReach-drains_example :
    IsDrained (drain 6 answers scanning_queue (scanning "0xAa" ∷ []))
    × ((a : String)
        → is_accounted scanning_queue (scanning "0xAa" ∷ []) a ≡ true
        → is_settled (drain 6 answers scanning_queue (scanning "0xAa" ∷ [])).0 a ≡ true)
QueueReach-drains_example = QueueReach-drains 6 answers scanning_reach (omega arith)
