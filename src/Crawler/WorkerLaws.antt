-- ===== src/Crawler/WorkerLaws.antt =====
-- What the workers of internal/crawler/crawl.go leave in the queues.
use animehot.Common.{ℕ, ◌≡◌, refl, ap, ◌∙◌, String, str_eq, Bool, true, false, Option, some}
use animehot.Queue.Messages.{
  CrawlRequest, CrawlResponse, ok, result_is_nil, not_initialized, marshal_failed,
}
use animehot.Queue.Server.{
  Redis, Contents, tasks, processing, results, pending, task_started, ip, pushed, Member,
}
use animehot.Queue.Network.{
  World, calm, call, continue_with, return, Keeps, call-Keeps, >>=-Keeps, guard->>-Keeps,
  required->>=-Keeps, ignore-Keeps,
}
use animehot.Queue.Tasks.{ack_task, ack_task_script, find_mention}
use animehot.Queue.Results.{push_result}
use animehot.Queue.Views.{mentioned, taken_from, cleared, ack_task_script-some}
use animehot.Crawler.Worker.{completed, timed_out, result_of, finish_task, report, acknowledge}

module _ (r : Redis) where
  open r use {Raw, Store, view}

  -- What concerns the tasks: the two lists, the marks of the IPs and the start times.
  pub record HasTasks (c : Contents Raw) (s : Store) : Type 0 where
    pub waiting : (view s).lists tasks ≡ c.lists tasks
    pub running : (view s).lists processing ≡ c.lists processing
    pub marks : (m : Member) → (view s).sets pending m ≡ c.sets pending m
    pub starts : (x : String) → (view s).hashes task_started x ≡ c.hashes task_started x

  push_result-HasTasks :
      (c : Contents Raw) (ready : Bool) (resp : Option CrawlResponse)
      → Keeps (HasTasks c) (push_result r ready resp)
  unfolding push_result
  push_result-HasTasks c ready resp = required->>=-Keeps (HasTasks c) resp result_is_nil _ λ t _.
      guard->>-Keeps (HasTasks c) ready not_initialized _ (
        required->>=-Keeps (HasTasks c) (r.marshal_response t) marshal_failed _ λ raw _.
          call-Keeps (HasTasks c) _ (λ s h. record {
            waiting = ap (λ v. v.lists tasks) (r.lpush_law results raw s) ∙ h.waiting;
            running = ap (λ v. v.lists processing) (r.lpush_law results raw s) ∙ h.running;
            marks = λ m. ap (λ v. v.sets pending m) (r.lpush_law results raw s) ∙ h.marks m;
            starts =
                λ x. ap (λ v. v.hashes task_started x) (r.lpush_law results raw s) ∙ h.starts x;
          }))

  -- Whatever the network does, a task whose time ended stays as it is: it remains in processing with
  -- its start time, for the janitor to find, and its IP remains marked, so that no second task is
  -- pushed for it.
  pub finish_task-timed_out :
      (ready : Bool) (t : CrawlRequest) (now : ℕ) (message : String) (w : World Store)
      → HasTasks (view w.store) (finish_task r ready t now (timed_out message) w).1.store
  unfolding finish_task report acknowledge
  finish_task-timed_out ready t now message w =
      >>=-Keeps (HasTasks (view w.store)) (report r ready (result_of t now (timed_out message)))
        (λ _. return tt)
        (ignore-Keeps (HasTasks (view w.store))
          (push_result r ready (result_of t now (timed_out message)))
          (push_result-HasTasks (view w.store) ready (result_of t now (timed_out message))))
        (λ _ w' p. p) w
        (record { waiting = refl; running = refl; marks = λ m. refl; starts = λ x. refl })

  report-calm :
      (result : CrawlResponse) (text : Raw) (s : Store)
      → r.marshal_response result ≡ some text
      → report r true (some result) (calm s) ≡ (ok tt, calm (r.lpush results text s))
  unfolding report push_result call
  report-calm result text s m = rw m refl

  acknowledge-calm :
      (t : CrawlRequest) (s : Store)
      → str_eq t.task_id "" ≡ false
      → acknowledge r true true t (calm s)
        ≡ (ok tt, calm (ack_task_script r t.task_id (ip t.ip_id) s).1)
  unfolding acknowledge ack_task call
  acknowledge-calm t s n = rw n refl

  -- On a network that does not fail: behind a crawl that came back with a response or an error, the
  -- result waits at the head of the result queue, and the task that stood in processing under its id
  -- is gone, together with its start time and the mark of its IP.
  pub finish_task-completed :
      (t : CrawlRequest) (now : ℕ) (resp : Option CrawlResponse) (e : Option String)
      (result : CrawlResponse) (text raw : Raw) (s : Store)
      → str_eq t.task_id "" ≡ false
      → result_of t now (completed resp e) ≡ some result
      → r.marshal_response result ≡ some text
      → mentioned r processing t.task_id s ≡ some raw
      → let out = finish_task r true t now (completed resp e) (calm s) in
        (out.0 ≡ ok tt)
        × (view out.1.store
            ≡ cleared r t.task_id
                (ip t.ip_id)
                (taken_from r processing raw (pushed results text (view s))))
  unfolding finish_task
  finish_task-completed t now resp e result text raw s n o m f =
      let pushed_store = r.lpush results text s in
      let run : finish_task r true t now (completed resp e) (calm s)
          ≡ (ok tt, calm (ack_task_script r t.task_id (ip t.ip_id) pushed_store).1) =
        ap (λ res. continue_with (report r true res (calm s)) (λ _. acknowledge r true true t)) o
        ∙ ap (λ x. continue_with x (λ _. acknowledge r true true t)) (report-calm result text s m)
        ∙ acknowledge-calm t pushed_store n in
      let found : mentioned r processing t.task_id pushed_store ≡ some raw =
        ap (λ c. find_mention r t.task_id (c.lists processing)) (r.lpush_law results text s) ∙ f in
      (
        ap (λ x. x.0) run,
        ap (λ x. view x.1.store) run
            ∙ ack_task_script-some r t.task_id (ip t.ip_id) pushed_store raw found
            ∙ ap (λ c. cleared r t.task_id (ip t.ip_id) (taken_from r processing raw c))
                (r.lpush_law results text s),
      )
