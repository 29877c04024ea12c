-- ===== src/Crawler/PageLaws.antt =====
-- What `crawlWithFixedPages` of internal/crawler/fixed_pages.go returns.
use animehot.Common.{
  ℕ, zero, suc, ◌+◌, ◌≡◌, refl, sym, ap, ◌∙◌, Bool, true, false, not, ◌||◌, if◌then◌else◌, Option,
  none, some, List, [], ◌∷◌, ◌++◌, map, length, arith, Option-cases, inl, inr,
}
use mathlib.Core.List.{map-append, append_assoc, append-nil}
use animehot.Queue.Messages.{CrawlRequest, Item}
use animehot.Crawler.Pages.{
  Phase, on_sale_pages, sold_pages, status_of, pages_or_three, with_status, Collected, nothing_yet,
  collect, crawl_phase, crawl_pages, crawl_phases, response_of, crawled, failed, browser_draining,
}

-- The pages from `page` on, in order.
abbrev pub page_range : ℕ → ℕ → List ℕ
page_range zero page = []
page_range (suc n) page = page ∷ page_range n (suc page)

-- The pages that load, in order.
abbrev pub loaded_pages : List (Option (List Item)) → List (List Item)
loaded_pages [] = []
loaded_pages (none ∷ pages) = loaded_pages pages
loaded_pages (some items ∷ pages) = items ∷ loaded_pages pages

-- Up to the first empty page, which is counted.
abbrev pub until_empty : List (List Item) → List (List Item)
until_empty [] = []
until_empty ([] ∷ pages) = [] ∷ []
until_empty ((item ∷ items) ∷ pages) = (item ∷ items) ∷ until_empty pages

abbrev pub all_items : List (List Item) → List Item
all_items [] = []
all_items (items ∷ pages) = items ++ all_items pages

module _ (fetch : Phase → ℕ → Option (List Item)) (cancelled : Phase → ℕ → Bool) where
  -- The pages whose items a round collects.
  abbrev pub seen : Phase → ℕ → ℕ → List (List Item)
  seen phase n page = until_empty (loaded_pages (map (fetch phase) (page_range n page)))

  abbrev IsPatient : Type 0
  IsPatient = (phase : Phase) (page : ℕ) → cancelled phase page ≡ false

  abbrev after_round : Phase → List (List Item) → Collected → Collected
  after_round phase pages c = record {
    items = c.items ++ map (with_status (status_of phase)) (all_items pages);
    pages = c.pages + length pages;
  }

  abbrev collected : List Item → ℕ → Collected
  collected items pages = record { items = items; pages = pages }

  same_collected : (xs ys : List Item) (m n : ℕ) → xs ≡ ys → m ≡ n → collected xs m ≡ collected ys n
  same_collected xs ys m n e f = ap (λ l. collected l m) e ∙ ap (collected ys) f

  after_round-more :
      (phase : Phase) (found : List Item) (pages : List (List Item)) (c : Collected)
      → after_round phase pages (collect phase found c) ≡ after_round phase (found ∷ pages) c
  after_round-more phase found pages c =
      same_collected _ _ _ _
        (append_assoc c.items (map (with_status (status_of phase)) found)
            (map (with_status (status_of phase)) (all_items pages))
          ∙ ap (◌++◌ c.items)
              (sym (map-append (with_status (status_of phase)) found (all_items pages))))
        (omega arith)

  after_round-nil : (phase : Phase) (c : Collected) → c ≡ after_round phase [] c
  after_round-nil phase c =
      same_collected c.items _ c.pages _ (sym (append-nil c.items)) (omega arith)

  -- What a round does with a page.
  round_step : Phase → ℕ → ℕ → Collected → Option (List Item) → Option Collected
  round_step phase n page c none = crawl_phase fetch cancelled phase n (suc page) c
  round_step phase n page c (some []) = some (collect phase [] c)
  round_step phase n page c (some (item ∷ items)) =
      crawl_phase fetch cancelled phase n (suc page) (collect phase (item ∷ items) c)

  crawl_phase-step :
      (phase : Phase) (n page : ℕ) (c : Collected)
      → IsPatient
      → crawl_phase fetch cancelled phase (suc n) page c
        ≡ round_step phase n page c (fetch phase page)
  unfolding crawl_phase round_step
  crawl_phase-step phase n page c h = elim (Option-cases (fetch phase page)) [
    | inl e ↦ rw (h phase page, e, crawl_phase) refl
    | inr ([], e) ↦ rw (h phase page, e, crawl_phase) refl
    | inr (item ∷ items, e) ↦ rw (h phase page, e, crawl_phase) refl
  ]

  pub crawl_phase-after_round :
      (phase : Phase) (n page : ℕ) (c : Collected)
      → IsPatient
      → crawl_phase fetch cancelled phase n page c ≡ some (after_round phase (seen phase n page) c)
  unfolding crawl_phase round_step
  crawl_phase-after_round phase zero page c h = ap some (after_round-nil phase c)
  crawl_phase-after_round phase (suc n) page c h =
      crawl_phase-step phase n page c h
      ∙ by_page (fetch phase page) (λ c'. crawl_phase-after_round phase n (suc page) c' h)
    where
      by_page :
          (found : Option (List Item))
          → ((c' : Collected)
              → crawl_phase fetch cancelled phase n (suc page) c'
                ≡ some (after_round phase (seen phase n (suc page)) c'))
          → round_step phase n page c found
            ≡ some (
                after_round phase
                  (until_empty (loaded_pages (found ∷ map (fetch phase) (page_range n (suc page)))))
                  c)
      by_page none rest = rest c
      by_page (some []) rest =
          ap some (after_round-nil phase (collect phase [] c) ∙ after_round-more phase [] [] c)
      by_page (some (item ∷ items)) rest =
          rest (collect phase (item ∷ items) c)
          ∙ ap some (after_round-more phase (item ∷ items) (seen phase n (suc page)) c)

  -- The items that a round reports.
  abbrev pub reported : Phase → ℕ → List Item
  reported phase n = map (with_status (status_of phase)) (all_items (seen phase n 0))

  crawl_phases_lem :
      (req : CrawlRequest)
      → IsPatient
      → let on_sale = pages_or_three req.pages_on_sale in
        let sold = pages_or_three req.pages_sold in
        crawl_phases fetch cancelled req
        ≡ crawled (
            response_of req (record {
              items = reported on_sale_pages on_sale ++ reported sold_pages sold;
              pages = length (seen on_sale_pages on_sale 0) + length (seen sold_pages sold 0);
            }))
  unfolding crawl_phases
  crawl_phases_lem req h =
      rw
        (
          crawl_phase-after_round on_sale_pages (pages_or_three req.pages_on_sale) 0 nothing_yet h,
          crawl_phase-after_round sold_pages (pages_or_three req.pages_sold) 0
              (after_round on_sale_pages (seen on_sale_pages (pages_or_three req.pages_on_sale) 0)
                nothing_yet)
              h,
          crawl_phases,
        )
        (ap (λ c. crawled (response_of req c)) (same_collected _ _ _ _ refl (omega arith)))

  -- If the context is not done before the last page, a crawl fails exactly if its browser is draining or
  -- not there. Otherwise it returns a response. It holds the items of the on-sale pages that load, up to
  -- the first empty one, marked as on sale, then those of the sold pages, marked as sold; their number is
  -- that of the pages that were counted. Pages that do not load are passed over, and a crawl none of whose
  -- pages load returns no items.
  pub crawl_pages_lem :
      (draining has_browser : Bool) (req : CrawlRequest)
      → IsPatient
      → let on_sale = pages_or_three req.pages_on_sale in
        let sold = pages_or_three req.pages_sold in
        crawl_pages fetch cancelled draining has_browser req ≡ (
          if draining || not has_browser
          then failed browser_draining
          else crawled (
              response_of req (record {
                items = reported on_sale_pages on_sale ++ reported sold_pages sold;
                pages = length (seen on_sale_pages on_sale 0) + length (seen sold_pages sold 0);
              })))
  unfolding crawl_pages
  crawl_pages_lem true has_browser req h = refl
  crawl_pages_lem false false req h = refl
  crawl_pages_lem false true req h = crawl_phases_lem req h
