-- ===== src/Crawler/Examples.antt =====
-- The theorems on the crawler, applied to concrete pages, events and tasks.
use animehot.Common.{
  ℕ, zero, suc, ◌+◌, ◌≡◌, refl, ◌≤◌, Bool, true, false, bit, Option, none, some, List, [], ◌∷◌,
  ◌++◌, length,
}
use animehot.Queue.Messages.{CrawlRequest, CrawlResponse, Item, ItemStatus, ok}
use animehot.Queue.Server.{ListKey, processing, results, ip, pushed, number}
use animehot.Queue.Network.{World, Fate, calm}
use animehot.Queue.Memory.{Memory, Text, request, response, contents, memory_server}
use animehot.Queue.Tasks.{find_mention}
use animehot.Queue.Views.{taken_from, cleared}
use animehot.Crawler.Failures.{ErrorType, classify_error, activates}
use animehot.Crawler.Memory.{Cells, memory_keys}
use animehot.Crawler.Pages.{
  Phase, on_sale_pages, sold_pages, crawl_pages, response_of, context_cancelled, browser_draining,
  browser_missing,
}
use animehot.Crawler.PageLaws.{reported, seen, crawl_pages_lem}
use animehot.Crawler.Throttle.{Throttler}
use animehot.Crawler.Throttle
use animehot.Crawler.Sleeps.{
  Event, blocked, succeeded, pauses, endings, AreModerate, pauses_bounded,
}
use animehot.Crawler.Worker.{completed, timed_out, finish_task}
use animehot.Crawler.WorkerLaws.{HasTasks, finish_task-timed_out, finish_task-completed}
use animehot.Crawler.Proxy.{Service, CrawlConfig}
use animehot.Crawler.Crawl.{Attempt, crawled, failed, do_crawl}
use animehot.Crawler.Totals.{do_crawl_counts}
use animehot.Crawler.Single.{do_crawl_once}

abbrev frieren : CrawlRequest
frieren = record {
  ip_id = 7;
  keyword = "frieren";
  task_id = "a1";
  created_at = 100;
  retry_count = 0;
  pages_on_sale = 3;
  pages_sold = 1;
}

abbrev poster : Item
poster = record {
  source_id = "m2";
  title = "poster";
  price = 40;
  image_url = "";
  item_url = "";
  status = ItemStatus.other;
}

-- The first on-sale page does not load, the second has an item, and the sold pages are empty.
abbrev shop_pages : Phase → ℕ → Option (List Item)
shop_pages on_sale_pages zero = none
shop_pages on_sale_pages (suc n) = some (poster ∷ [])
shop_pages sold_pages n = some []

abbrev never : Phase → ℕ → Bool
never phase page = false

crawl_pages_example :
    crawl_pages shop_pages never false true frieren
    ≡ crawled (
        response_of frieren (record {
          items =
              reported shop_pages never on_sale_pages 3 ++ reported shop_pages never sold_pages 1;
          pages =
              length (seen shop_pages never on_sale_pages 3 0)
              + length (seen shop_pages never sold_pages 1 0);
        }))
crawl_pages_example = crawl_pages_lem shop_pages never false true frieren (λ phase page. refl)

-- Three blocks, a success and a block, on a network that loses a reply.
abbrev storm : List Event
storm =
    blocked true 0 5
    ∷ blocked true 1 6
    ∷ blocked true 2 7
    ∷ blocked true 3 8
    ∷ succeeded true
    ∷ blocked false 4 9
    ∷ []

abbrev quiet_start : World (Throttle.State memory_keys)
quiet_start = record {
  store = (record { consecutive_blocks_count = 0; in_cooldown = false }, λ k. none);
  fates = Fate.delivered ∷ Fate.lost_reply ∷ [];
}

pauses_example :
    (length (pauses memory_keys storm quiet_start) ≤ endings memory_keys storm + bit true)
    × AreModerate memory_keys (pauses memory_keys storm quiet_start)
pauses_example = pauses_bounded memory_keys storm quiet_start

abbrev in_lists : List Text → ListKey → List Text
in_lists running processing = running
in_lists running _ = []

-- The task is in processing.
abbrev running : Memory
running = record {
  lists = in_lists (request frieren ∷ []);
  sets = λ k m. true;
  cards = λ k. 1;
  entries = λ k. ("a1", number 100) ∷ [];
}

finish_task-timed_out_example :
    HasTasks memory_server
      (contents running)
      (finish_task memory_server true frieren 900
        (timed_out "timeout")
        (record { store = running; fates = Fate.lost_reply ∷ [] })).1.store
finish_task-timed_out_example =
    finish_task-timed_out memory_server true frieren 900 "timeout"
      (record { store = running; fates = Fate.lost_reply ∷ [] })

abbrev found : CrawlResponse
found = record {
  ip_id = 7;
  items = poster ∷ [];
  total_found = 1;
  error_message = "";
  task_id = "a1";
  crawled_at = 900;
  pages_crawled = 2;
  retry_count = 0;
}

finish_task-completed_example :
    let out =
      finish_task memory_server true frieren 900 (completed (some found) none) (calm running) in
    (out.0 ≡ ok tt)
    × (contents out.1.store
        ≡ cleared memory_server "a1" (ip 7) (
            taken_from memory_server processing
              (request frieren)
              (pushed results (response found) (contents running))))
unfolding find_mention
finish_task-completed_example =
    finish_task-completed memory_server frieren 900 (some found) none found (response found)
      (request frieren) running refl refl refl refl

abbrev direct : Service
direct = record {
  current_is_proxy = false;
  proxy_cache = false;
  proxy_cache_until = 0;
  force_proxy_once = true;
  task_counter = 0;
  restart_pending = false;
  total_processed = 4;
  total_succeeded = 3;
  total_failed = 1;
}

abbrev switching : CrawlConfig
switching = record {
  redis_ready = true;
  proxy_cooldown_duration = 60;
  proxy_auto_switch = true;
  proxy_failure_threshold = 1;
  max_tasks = 0;
}

-- The first attempt switches to the proxy, and the second finds an item.
abbrev first_attempt : Attempt
first_attempt = record {
  now = 10;
  rotates = true;
  stopped_waiting = false;
  pages = failed context_cancelled;
  healthy = true;
  context_done = true;
}

abbrev second_attempt : Attempt
second_attempt = record first_attempt { pages = crawled found }

do_crawl_example :
    let after =
      (do_crawl memory_keys switching frieren first_attempt second_attempt
        (calm (direct, λ k. none))).1.store.0 in
    (after.total_processed ≡ 5) × (after.total_succeeded + after.total_failed ≤ 5)
do_crawl_example =
    do_crawl_counts memory_keys switching frieren first_attempt second_attempt
      (calm (direct, λ k. none))

abbrev unforced_start : World (Service × Cells)
unforced_start = record {
  store = (record direct { force_proxy_once = false }, λ k. none);
  fates = Fate.delivered ∷ Fate.lost_request ∷ [];
}

-- The context ends while pages load, behind a failure that reaches the threshold.
do_crawl_once_example :
    do_crawl memory_keys switching frieren first_attempt second_attempt unforced_start
    ≡ do_crawl memory_keys switching frieren first_attempt first_attempt unforced_start
do_crawl_once_example =
    do_crawl_once memory_keys switching frieren first_attempt second_attempt first_attempt
      unforced_start refl refl

draining_stays : activates browser_draining ≡ false
draining_stays = refl

missing_stays : activates browser_missing ≡ false
missing_stays = refl

blocked_text : classify_error false "Access Denied" ≡ ErrorType.blocked
blocked_text = refl
