-- ===== src/Queue/Examples.antt =====
-- The theorems on the queues at concrete servers, and runs of internal/pkg/redisqueue/client.go.
use animehot.Common.{
  ℕ, bit, ◌≤◌, ◌≡◌, refl, String, Bool, true, false, some, List, [], ◌∷◌, if_pos, arith,
}
use animehot.Queue.Messages.{CrawlRequest, ok, err, task_exists}
use animehot.Queue.Server.{
  ListKey, SetKey, HashKey, Member, Stamp, tasks, processing, pending, processed, task_started, ip,
  number, member_eq,
}
use animehot.Queue.Network.{World, calm, call, Fate}
use animehot.Queue.Memory.{Memory, Text, request, contents, memory_server}
use animehot.Queue.Tasks.{
  push_task, pop_task, ack_task, push_task_script, find_mention, remove_from_pending_set,
}
use animehot.Queue.Janitor.{
  RescueResult, no_rescue, rescue_stuck_tasks, rescue_task, overdue, counted,
}
use animehot.Queue.Recovery.{all_moved, recover_orphaned_tasks}
use animehot.Queue.Dedup.Steps.{Deduped, held, owns}
use animehot.Queue.Dedup.Calls.{Call, Reach, breaches, Reach-held, retried}
use animehot.Queue.Dedup.Operations.{removes, perform, perform-Reach, perform-held}
use animehot.Queue.Retries.{excess, Reach-excess}
use animehot.Queue.Outcomes.{IsPushable, push_task_outcome, pop_task_oldest}
use animehot.Queue.Restart.{recover_orphaned_tasks_all}
use animehot.Queue.RescueLaws.{rescue_stuck_tasks_conserves, rescue_task_outcome, Conserved}
use animehot.Queue.Races.{late_ack_duplicates}

abbrev frieren : CrawlRequest
frieren = record {
  ip_id = 7;
  keyword = "frieren";
  task_id = "a1";
  created_at = 100;
  retry_count = 0;
  pages_on_sale = 5;
  pages_sold = 5;
}

-- A second task of the same IP.
abbrev again : CrawlRequest
again = record frieren { task_id = "a2"; created_at = 200 }

-- Only IP 7 is pending.
abbrev seven : SetKey → Member → Bool
seven pending x = member_eq (ip 7) x
seven processed x = false

abbrev in_lists : List Text → List Text → ListKey → List Text
in_lists waiting running tasks = waiting
in_lists waiting running processing = running
in_lists waiting running _ = []

abbrev started_at : List (String × Stamp) → HashKey → List (String × Stamp)
started_at l task_started = l
started_at l HashKey.result_started = []

abbrev empty : Memory
empty = record { lists = λ k. []; sets = λ k x. false; cards = λ k. 0; entries = λ k. [] }

abbrev waiting : Memory
waiting = record {
  lists = in_lists (request frieren ∷ []) [];
  sets = seven;
  cards = λ k. 1;
  entries = λ k. [];
}

abbrev running : Memory
running = record waiting {
  lists = in_lists [] (request frieren ∷ []);
  entries = started_at (("a1", number 100) ∷ []);
}

waiting-Deduped : Deduped memory_server (contents waiting)
unfolding owns
waiting-Deduped n = ground arith

running-Deduped : Deduped memory_server (contents running)
unfolding owns
running-Deduped n = ground arith

frieren-IsPushable : IsPushable memory_server frieren (request frieren)
frieren-IsPushable = record { has_id = refl; has_ip = refl; encodes = refl }

again-IsPushable : IsPushable memory_server again (request again)
again-IsPushable = record { has_id = refl; has_ip = refl; encodes = refl }

-- The task is taken up, a second one of the IP is refused, and then forced.
Reach-held_example :
    held memory_server 7 (
      contents (
        memory_server.lpush tasks
          (request again)
          (push_task_script memory_server
            (ip 7)
            (request again)
            (memory_server.rpoplpush tasks processing waiting).1).1))
    ≤ 2
unfolding push_task_script
Reach-held_example =
    Reach-held memory_server {s = waiting}
      (Reach.next
        (Reach.next (Reach.next Reach.here Call.pop) (Call.push again (request again) refl))
        (Call.force again (request again) refl))
      7 waiting-Deduped

abbrev faulty : World Memory
faulty = record { store = running; fates = Fate.lost_reply ∷ [] }

perform-Reach_example :
    (h : Reach memory_server running (perform memory_server (removes true "ip:7") faulty).store)
    × ((n : ℕ) → breaches memory_server n h ≤ bit (member_eq (ip 7) (ip n)))
perform-Reach_example = perform-Reach memory_server (removes true "ip:7") faulty

-- The mark is removed by hand, so that one task more is possible.
perform-held_example :
    held memory_server 7 (contents (perform memory_server (removes true "ip:7") faulty).store) ≤ 1
unfolding remove_from_pending_set call
perform-held_example = perform-held memory_server (removes true "ip:7") faulty 7 running-Deduped

Reach-excess_example :
    excess memory_server
      (contents (push_task_script memory_server (ip 7) (request frieren) empty).1)
    ≡ 0
Reach-excess_example =
    Reach-excess memory_server (Reach.next Reach.here (Call.push frieren (request frieren) refl))
      (tt, refl) refl

push_task_outcome_example :
    (push_task memory_server true (some again) (calm waiting)).0 ≡ err task_exists
push_task_outcome_example =
    (push_task_outcome memory_server again (request again) waiting again-IsPushable).0

pop_task_oldest_example : (pop_task memory_server true 130 (calm waiting)).0 ≡ ok frieren
pop_task_oldest_example =
    (pop_task_oldest memory_server waiting 130 [] (request frieren) frieren refl refl refl).0

recover_orphaned_tasks_all_example :
    (recover_orphaned_tasks memory_server 2 true (calm running)).0 ≡ ok (all_moved 1)
recover_orphaned_tasks_all_example =
    (recover_orphaned_tasks_all memory_server running 2 (omega arith)).0

rescue_stuck_tasks_conserves_example :
    (moved : RescueResult) × (s' : Memory) × (rescue_stuck_tasks memory_server true 800 600
        (calm running)
      ≡ (ok moved, calm s'))
    × Conserved memory_server no_rescue running moved s'
rescue_stuck_tasks_conserves_example = rescue_stuck_tasks_conserves memory_server running 800 600

-- After 700 seconds the task is late, and its first retry is queued.
rescue_task_outcome_example :
    (rescue_task memory_server
      (("a1", number 100) ∷ [])
      800
      600
      (request frieren)
      no_rescue
      (calm running)).0
    ≡ ok (record { rescued = 1; dead_letter = 0 })
unfolding overdue counted
rescue_task_outcome_example =
    (rescue_task_outcome memory_server (("a1", number 100) ∷ []) 800 600 (request frieren)
      (request (retried frieren)) frieren no_rescue running refl refl refl (if_pos _ refl 1 0)).0

-- The task waits again after a rescue, and its first crawler acknowledges it late.
late_ack_duplicates_example :
    let acked = (ack_task memory_server true (some frieren) (calm waiting)).1 in
    2 ≤ held memory_server 7 (contents (push_task memory_server true (some again) acked).1.store)
unfolding find_mention owns
late_ack_duplicates_example =
    (late_ack_duplicates memory_server frieren again (request again) waiting refl refl (omega arith)
      again-IsPushable refl).1
