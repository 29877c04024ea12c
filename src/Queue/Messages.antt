-- ===== src/Queue/Messages.antt =====
-- The messages of proto/crawler.proto that the queues carry, and the errors of
-- internal/pkg/redisqueue/client.go. Times are Unix seconds; times and prices are at least 0.
use animehot.Common.{ℕ, ◌+◌, ◌%◌, ◌^◌, String, List, Bool, ◌&&◌, ltb}

pub data ItemStatus : Type 0 where
  on_sale sold other : ItemStatus  -- `other` is any number that the schema does not name

pub record Item : Type 0 where
  pub source_id : String
  pub title : String
  pub price : ℕ
  pub image_url : String
  pub item_url : String
  pub status : ItemStatus

pub record CrawlRequest : Type 0 where
  pub ip_id : ℕ
  pub keyword : String
  pub task_id : String
  pub created_at : ℕ
  pub retry_count : ℕ  -- int32, as its bit pattern
  pub pages_on_sale : ℕ
  pub pages_sold : ℕ

pub record CrawlResponse : Type 0 where
  pub ip_id : ℕ
  pub items : List Item
  pub total_found : ℕ
  pub error_message : String
  pub task_id : String
  pub crawled_at : ℕ
  pub pages_crawled : ℕ
  pub retry_count : ℕ  -- int32, as its bit pattern

-- What an operation of the client reports. `redis_error` is any error of a call over the network.
-- The last four are
-- those of internal/scheduler/ip_scheduler.go and internal/crawler/proxy.go.
pub data Error : Type 0 where
  task_is_nil result_is_nil not_initialized task_id_empty ip_id_empty : Error
  marshal_failed unmarshal_failed redis_error no_task no_result task_exists : Error
  record_not_found ip_without_name already_running : Error
  browser_error : Error

pub data Result (A : Type 0) : Type 0 where
  ok : A → Result A
  err : Error → Result A

abbrev pub max_retries : ℕ
max_retries = 3

-- `RetryCount++` on an int32.
abbrev pub increment : ℕ → ℕ
increment n = (n + 1) % 2 ^ 32

-- `RetryCount > DefaultMaxRetries`, where a bit pattern from 2^31 on is negative.
abbrev pub exceeds_retries : ℕ → Bool
exceeds_retries n = ltb max_retries n && ltb n (2 ^ 31)
