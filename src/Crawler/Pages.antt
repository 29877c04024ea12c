-- ===== src/Crawler/Pages.antt =====
-- `crawlWithFixedPages` of internal/crawler/fixed_pages.go. What `fetchPageContent` finds on a page and
-- whether the context is done before it are parameters; the browser itself, pauses and logging are
-- left out.
use animehot.Common.{
  not, ℕ, zero, suc, ◌%◌, ◌^◌, Bool, true, false, ◌||◌, Option, none, some, List, [], ◌∷◌, ◌++◌,
  map, if◌then◌else◌, ◌==◌, leb, length,
}
use animehot.Queue.Messages.{CrawlRequest, CrawlResponse, Item, ItemStatus}

-- The two rounds of a crawl.
pub data Phase : Type 0 where
  on_sale_pages sold_pages : Phase

abbrev pub status_of : Phase → ItemStatus
status_of on_sale_pages = ItemStatus.on_sale
status_of sold_pages = ItemStatus.sold

-- An int32 as an int, where 0 and the negative numbers stand for 3.
abbrev pub pages_or_three : ℕ → ℕ
pages_or_three n = if (n == 0) || leb (2 ^ 31) n then 3 else n

abbrev pub with_status : ItemStatus → Item → Item
with_status status item = record item { status = status }

-- What has been collected, and the number of pages that loaded.
pub record Collected : Type 0 where
  pub items : List Item
  pub pages : ℕ

abbrev pub nothing_yet : Collected
nothing_yet = record { items = []; pages = 0 }

-- The items of a page that loaded are collected with the status of the round.
abbrev pub collect : Phase → List Item → Collected → Collected
collect phase found c = record {
  items = c.items ++ map (with_status (status_of phase)) found;
  pages = suc c.pages;
}

-- What a crawl reports instead of a response.
pub data CrawlError : Type 0 where
  browser_draining browser_missing context_cancelled : CrawlError
  browser_state_failed proxy_unavailable proxy_unhealthy needs_retry : CrawlError

pub data Crawled : Type 0 where
  crawled : CrawlResponse → Crawled
  failed : CrawlError → Crawled

-- `trackPageStart`: whether a browser is handed out, and whether the crawl may go on. The count of
-- active pages is left out.
abbrev pub track_page_start : Bool → Bool → Bool × Bool
track_page_start draining has_browser =
    if draining then (false, false) else if has_browser then (true, true) else (false, false)

abbrev pub response_of : CrawlRequest → Collected → CrawlResponse
response_of req c = record {
  ip_id = req.ip_id;
  items = c.items;
  total_found = length c.items % 2 ^ 32;
  error_message = "";
  task_id = "";
  crawled_at = 0;
  pages_crawled = c.pages % 2 ^ 32;
  retry_count = 0;
}

module _ (fetch : Phase → ℕ → Option (List Item)) (cancelled : Phase → ℕ → Bool) where
  -- A loop, with the pages that are left; `none` where the context was done.
  unfoldable pub crawl_phase : Phase → ℕ → ℕ → Collected → Option Collected
  crawl_phase phase zero page c = some c
  crawl_phase phase (suc left) page c = elim (cancelled phase page) [
    | true ↦ none
    | false ↦ elim (fetch phase page) [
      | none ↦ crawl_phase phase left (suc page) c
      | some [] ↦ some (collect phase [] c)
      | some (item ∷ items) ↦ crawl_phase phase left (suc page) (collect phase (item ∷ items) c)
    ]
  ]

  unfoldable pub crawl_phases : CrawlRequest → Crawled
  crawl_phases req =
      elim (crawl_phase on_sale_pages (pages_or_three req.pages_on_sale) 0 nothing_yet) [
        | none ↦ failed context_cancelled
        | some c ↦ elim (crawl_phase sold_pages (pages_or_three req.pages_sold) 0 c) [
          | none ↦ failed context_cancelled
          | some c' ↦ crawled (response_of req c')
        ]
      ]

  -- With a browser that is draining or not, and one that is there or not.
  unfoldable pub crawl_pages : Bool → Bool → CrawlRequest → Crawled
  unfolding crawl_phases
  crawl_pages draining has_browser req =
      let (browser, allowed) = track_page_start draining has_browser in
      if not allowed
      then failed browser_draining
      else if not browser
      then failed browser_missing
      else crawl_phases req
