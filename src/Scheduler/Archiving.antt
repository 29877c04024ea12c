-- ===== src/Scheduler/Archiving.antt =====
-- `archiverLoop` of internal/scheduler/ip_scheduler.go: when it runs the archiver's jobs. The clock in
-- JST is an input, as `time` gives it: the day since 1970 stands for year, month and day, so that
-- `sameDay` is the equality of days. Whether a job that is started succeeds is an input too.
use animehot.Common.{
  ℕ, Bool, false, not, ◌&&◌, Option, none, some, List, [], ◌∷◌, ◌==◌, ◌++◌, if◌then◌else◌,
}

pub record JstTime : Type 0 where
  pub day : ℕ
  pub is_monday : Bool
  pub day_of_month : ℕ
  pub hour : ℕ
  pub minute : ℕ

pub data Job : Type 0 where
  daily weekly monthly cleanup : Job

-- `lastDailyArchive` and the others. The zero time, `none`, is in the year 1.
pub record LastRuns : Type 0 where
  pub last_daily_archive : Option ℕ
  pub last_weekly_archive : Option ℕ
  pub last_monthly_archive : Option ℕ
  pub last_cleanup : Option ℕ

abbrev pub never_run : LastRuns
never_run = record {
  last_daily_archive = none;
  last_weekly_archive = none;
  last_monthly_archive = none;
  last_cleanup = none;
}

abbrev pub last_run : Job → LastRuns → Option ℕ
last_run Job.daily l = l.last_daily_archive
last_run Job.weekly l = l.last_weekly_archive
last_run Job.monthly l = l.last_monthly_archive
last_run Job.cleanup l = l.last_cleanup

abbrev pub with_run : Job → ℕ → LastRuns → LastRuns
with_run Job.daily d l = record l { last_daily_archive = some d }
with_run Job.weekly d l = record l { last_weekly_archive = some d }
with_run Job.monthly d l = record l { last_monthly_archive = some d }
with_run Job.cleanup d l = record l { last_cleanup = some d }

unfoldable pub same_day : Option ℕ → ℕ → Bool
same_day none d = false
same_day (some last) d = last == d

-- The minute at which a job is due.
unfoldable pub is_time : Job → JstTime → Bool
is_time Job.daily t = t.hour == 0 && t.minute == 5
is_time Job.weekly t = t.is_monday && (t.hour == 0 && t.minute == 10)
is_time Job.monthly t = t.day_of_month == 1 && (t.hour == 0 && t.minute == 15)
is_time Job.cleanup t = t.hour == 1 && t.minute == 0

-- A job that was started, its day, and whether it succeeded.
pub record Run : Type 0 where
  pub job : Job
  pub day : ℕ
  pub succeeded : Bool

module _ (succeeds : Job → JstTime → Bool) where
  -- One of the four conditionals.
  unfoldable pub try_job : Job → JstTime → LastRuns → List Run × LastRuns
  unfolding same_day is_time
  try_job job t l =
      if is_time job t && not (same_day (last_run job l) t.day)
      then (
        record { job = job; day = t.day; succeeded = succeeds job t } ∷ [],
        if succeeds job t then with_run job t.day l else l,
      )
      else ([], l)

  unfoldable pub archiver_tick : JstTime → LastRuns → List Run × LastRuns
  archiver_tick t l =
      let (r₁, l₁) = try_job Job.daily t l in
      let (r₂, l₂) = try_job Job.weekly t l₁ in
      let (r₃, l₃) = try_job Job.monthly t l₂ in
      let (r₄, l₄) = try_job Job.cleanup t l₃ in (r₁ ++ (r₂ ++ (r₃ ++ r₄)), l₄)

  -- The ticks that the loop meets.
  unfoldable pub archiver_loop : List JstTime → LastRuns → List Run × LastRuns
  archiver_loop [] l = ([], l)
  archiver_loop (t ∷ ts) l =
      let (r, l') = archiver_tick t l in let (rs, l'') = archiver_loop ts l' in (r ++ rs, l'')
