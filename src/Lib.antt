-- ===== src/Lib.antt =====
-- Verification of the queueing, state tracking and scheduling core of animehot.
--
-- The program crawls a marketplace for items of intellectual properties (IPs) and tracks how fast
-- they sell. A scheduler (internal/scheduler) keeps the next crawl time of each IP in a Redis sorted
-- set and pushes a crawl task when an IP is due. Crawlers take tasks from the reliable queue
-- (internal/pkg/redisqueue), fetch the pages, push the result and acknowledge the task. An analyzer
-- (internal/analyzer) takes results from the same kind of queue, compares each item with what Redis
-- knows of it, counts the transitions and adjusts the crawl interval of the IP. Janitors of the
-- scheduler put tasks and results back that were taken and not acknowledged in time.
--
-- Which file models what:
--
-- Common holds what the others share: tests on numbers, lists, batches of a slice.
--
-- Queue is internal/pkg/redisqueue/client.go and the messages of proto/crawler.proto.
--   Messages: CrawlRequest, CrawlResponse, Item, the errors and RetryCount.
--   Server: the interface of the Redis server (lists, sets, hashes, JSON), a record of commands with
--     their documented effects on what clients can observe. A text in a set is read as ip: with a
--     number or as another text. Memory fills the interface with a concrete server.
--   Network: the monad of the client. A call works, is lost before the server runs it, or is run and
--     its reply is lost; the fates of the calls are given, so a theorem on all of them covers every
--     failure. A Lua script is one call, since Redis runs a script as a whole.
--   Tasks: PushTask, PushTaskForce, PopTask, AckTask, RemoveFromPendingSet and their Lua scripts.
--   Results: PushResult, PopResult, AckResult, MarkProcessed, IsProcessed.
--   Janitor, ResultJanitor: RescueStuckTasks, RescueStuckResults with rescueScript.
--   Recovery: RecoverOrphanedTasks, RecoverOrphanedResults. The loop runs on fuel: each round moves one
--     entry, so fuel above the number of entries in processing is enough.
--   Upkeep: DeduplicateQueue, QueueDepth, PendingSetSize, GetQueueStats.
--   Pairs: a call on one part of a pair of stores.
--   Views and Dedup (with its children), Retries: the steps that the operations make, seen abstractly
--     as a relation, and the invariants by induction on it. RescueLaws, Outcomes, Restart, Races: what
--     single operations do. Forced pushes, removals of an IP's mark and late acknowledgements, which may
--     break the rule of one task for each IP, are steps too, and the invariants count them.
--     Examples: the theorems applied to concrete stores.
--
-- Tracker is internal/analyzer/state_machine.go.
--   Server: the interface of the Redis server (one hash for each item, with a life that passes). Memory
--     fills it.
--   Transitions: TrackedItemState, StateTransition, determineTransition, SummarizeTransitions.
--   Machine: UpdateItemState, GetItemState, ClearItemState. Batch: ProcessItemsBatch, in pipelines of
--     500 items. Scans: ClearAllItems and GetItemCount, whose SCAN loops run on fuel and return
--     nothing when it ends, since SCAN guarantees no bound on their rounds.
--   Table, Laws, Sequential: the theorems. Examples: their application.
--
-- Interval is internal/analyzer/interval_adjuster.go, with its call in internal/analyzer/pipeline.go.
--   The weight is stored in a column decimal(5,2), which rounds it.
--   Settings: float64 as an interface, NewIntervalAdjuster, determineAdjustment,
--     calculateNewInterval and the two conversions. Adjust: Adjust, GetCurrentWeight and the
--     adjustment of processResult, over an interface of the weight column. Steps, Laws: the theorems.
--     Memory fills the interfaces with fractions and a function.
--
-- Schedule is internal/scheduler/schedule_store.go.
--   Server: the interface of the sorted set, which Memory fills. Operations: Schedule, GetDue,
--     GetNextTime, Remove, Count, GetAll, GetScheduleTime, ScheduleBatch, whose times are in nanoseconds
--     and kept as scores in whole seconds. Laws, Planned, Ids: the theorems.
--
-- Scheduler is internal/scheduler/ip_scheduler.go, over the stores of Queue and Schedule, with a table of
-- IPs for the database.
--   Settings: SchedulerConfig.CalculateInterval, IPMetadata, IPScheduler. Pass: checkAndSchedule with
--     its batches and waitForQueueDrain, whose ticks are the 10 minutes of its deadline by its 5
--     seconds. Requests: AddIP, RemoveIP, UpdateIPWeight, TriggerNow, GetScheduleStatus, GetStats.
--     Startup: Start, Stop, initScheduleTimes. Loops: rounds and ticks of the loops. Jobs: the times of
--     the archiver. Calm, Refresh, Waits, Archiving, Once, Boot, Due, Faults, Queueing, Pushed: the
--     lemmas and theorems. Examples: their application.
--
-- Crawler is internal/crawler, without the browser.
--   Pages: crawlWithFixedPages and the guards of trackPageStart (browser.go), where what a page gives is
--     a parameter. Throttle: AdaptiveThrottler.
--   Failures: classifyError and shouldActivateProxy of detect.go, on ASCII texts.
--   Keys: the interface of Redis for single keys, which Memory fills. Proxy: the proxy cooldown, its
--     cache, ensureBrowserState, the consecutive failures. Crawl: doCrawl; only its first attempt calls
--     it again, so two attempts are all. Worker: the end of a task in StartWorker.
--   PageLaws, Sleeps, Counts, Totals, Single, WorkerLaws: the theorems. Examples: their application.
--
-- Pipeline is internal/analyzer/pipeline.go, in parts.
--   Process: processOne over the queue's operations, with processResult as a parameter. Errors: the
--     start of processResult, which passes over results that report an error.
--   Sales: collectSoldItemsInfo on the transitions of Tracker. Align: alignToSlot. Next: the next
--     schedule time at the end of processResult. The call of the interval adjuster in processResult
--     is adjust_after_crawl of Interval/Adjust. Examples: the theorems applied.
--
-- Limiter is internal/pkg/ratelimit/ratelimit.go: Bucket has tokenBucketLua and Allow, with tokens in
--   thousandths.
--
-- Numbers: counts, prices and times are natural numbers, times in Unix seconds and durations in
-- seconds, or nanoseconds in Interval, Pipeline, Schedule, Scheduler and Crawler, and milliseconds in
-- Limiter.
-- RetryCount and the count of blocks are int32 and are kept as bit patterns with their wrap-around. A
-- difference that may be negative in the source is compared as a sum. The scores of the sorted set are
-- times below 2^53, which float64 keeps exactly.
--
-- Not modelled: logging and Prometheus counters; context deadlines; goroutines that run side by side,
-- whose calls the relations on steps interleave; the jobs of the archiver, the aggregator, the
-- leaderboard cache, the HTTP API, the browser with page parsing, cookies and block detection, the
-- reading of the configuration, and the web front end. Redis, JSON, float64, the database and the
-- pages are parameters.
pub mod Common
pub mod Crawler
pub mod Interval
pub mod Limiter
pub mod Pipeline
pub mod Queue
pub mod Schedule
pub mod Scheduler
pub mod Tracker
