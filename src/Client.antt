-- ===== src/Client.antt =====
-- The configuration job of the Java client: RpiConfig and ConfigSyncJob of
-- rpi-local-client/src/main/java/com/eurekabits.
mod Equality
pub mod Sync
pub mod Refused
pub mod Binding
pub mod Service
pub mod Seen
pub mod Partial
pub mod Posts
pub mod Injection
pub mod Ascii
pub mod Clean
pub mod Rest
pub mod Session
pub mod Exact
pub mod Sockets
pub mod Deadlock
pub mod Crossing
pub mod Stuck
pub mod Steps
pub mod Leaked
pub mod Overlap
use network_analyser_using_r.Base.{
  ℕ, ◌+◌, Bool, true, false, not, ◌==◌, List, [], ◌∷◌, Option, none, some, if◌then◌else◌,
}

-- The `long`s as their 64 bits.
pub record RpiConfig : Type 0 where
  pub capture_task_start_delay : ℕ
  pub capture_task_repeat_interval : ℕ
  pub number_of_packets_to_capture : ℕ

-- `equals`, on the same class or null. One object has equal fields, so the test for it comes to
-- those of the fields.
unfoldable pub equals : RpiConfig → Option RpiConfig → Bool
equals c none = false
equals c (some other) =
    if not (c.capture_task_repeat_interval == other.capture_task_repeat_interval)
    then false
    else if not (c.capture_task_start_delay == other.capture_task_start_delay)
    then false
    else if not (c.number_of_packets_to_capture == other.number_of_packets_to_capture)
    then false
    else true

-- A task that a Timer repeats; the Timer is known by a number.
pub record Task : Type 0 where
  pub timer : ℕ
  pub start_delay : ℕ
  pub repeat_interval : ℕ

-- The job with its Timers: the number of those made, and the tasks of those not cancelled.
pub record SyncJob : Type 0 where
  pub job_run_count : ℕ
  pub cur_rpi_config : Option RpiConfig
  pub timer : Option ℕ
  pub timers_made : ℕ
  pub running : List Task

abbrev pub initial_job : SyncJob
initial_job = record {
  job_run_count = 0;
  cur_rpi_config = none;
  timer = none;
  timers_made = 0;
  running = [];
}

-- What getRpiConfigFromServer does: it throws, returns null, or returns a configuration.
pub data Fetched : Type 0 where
  thrown null_body : Fetched
  got : RpiConfig → Fetched

-- What a run meets: the reply, and whether scheduleAtFixedRate takes a delay and an interval. It
-- throws where it does not.
pub record Run : Type 0 where
  pub fetched : Fetched
  pub schedules : ℕ → ℕ → Bool

unfoldable pub cancel : ℕ → List Task → List Task
cancel t [] = []
cancel t (task ∷ tasks) = let rest = cancel t tasks in if task.timer == t then rest else task ∷ rest

unfoldable pub cancel_timer : SyncJob → SyncJob
unfolding cancel
cancel_timer j = elim j.timer [ none ↦ j | some t ↦ record j { running = cancel t (j.running) } ]

abbrev pub new_timer : SyncJob → SyncJob
new_timer j = record j { timer = some (j.timers_made); timers_made = j.timers_made + 1 }

-- The task of a Timer for a configuration.
abbrev pub task_of : ℕ → RpiConfig → Task
task_of t c = record {
  timer = t;
  start_delay = c.capture_task_start_delay;
  repeat_interval = c.capture_task_repeat_interval;
}

-- The new Timer gets the task, or scheduleAtFixedRate throws and the run ends.
unfoldable pub schedule : Run → RpiConfig → SyncJob → SyncJob
schedule r c j = elim j.timer [
  | none ↦ j
  | some t ↦
      if r.schedules c.capture_task_start_delay c.capture_task_repeat_interval
      then record j { running = task_of t c ∷ j.running }
      else j
]

abbrev pub unchanged : Option RpiConfig → RpiConfig → Bool
unchanged none c = false
unchanged (some cur) c = equals cur (some c)

unfoldable pub synchronise : Run → Fetched → SyncJob → SyncJob
unfolding cancel_timer schedule
synchronise r thrown j = j
synchronise r null_body j = j
synchronise r (got c) j =
    if unchanged (j.cur_rpi_config) c
    then j
    else schedule r c (new_timer (cancel_timer (record j { cur_rpi_config = some c })))

unfoldable pub start : Run → SyncJob → SyncJob
unfolding synchronise
start r j = synchronise r r.fetched (record j { job_run_count = j.job_run_count + 1 })

-- Runs one after the other.
unfoldable pub starts : List Run → SyncJob → SyncJob
unfolding start
starts [] j = j
starts (r ∷ rs) j = starts rs (start r j)
