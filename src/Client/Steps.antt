-- ===== src/Client/Steps.antt =====
-- A run of ConfigSyncJob.start in steps, and two runs that overlap. The scheduler starts a run every
-- 15 seconds, whether or not the one before has ended. A test of a field and the use of it are one
-- step.
use network_analyser_using_r.Base.{◌+◌, Bool, true, false, List, [], ◌∷◌, none, some, if◌then◌else◌}
use network_analyser_using_r.Client.{
  RpiConfig, SyncJob, Run, Fetched, thrown, null_body, got, cancel_timer, new_timer, schedule,
  unchanged,
}

-- Where a run stands; the 5 seconds of sleep are before `clearing`.
pub data Place : Type 0 where
  entering fetching returned : Place
  comparing saving cancelling clearing making scheduling : RpiConfig → Place

abbrev pub after_fetch : Fetched → Place
after_fetch thrown = returned
after_fetch null_body = returned
after_fetch (got c) = comparing c

-- The job while runs overlap, with whether `cancel` was called on the Timer of its field.
pub record SharedJob : Type 0 where
  pub job : SyncJob
  pub cancelled : Bool

-- scheduleAtFixedRate throws on a Timer that another run has cancelled.
abbrev pub schedule_shared : Run → RpiConfig → SharedJob → SharedJob
schedule_shared r c j = if j.cancelled then j else record j { job = schedule r c (j.job) }

unfoldable pub step : Run → Place → SharedJob → Place × SharedJob
step r entering j =
    (fetching, record j { job = record (j.job) { job_run_count = j.job.job_run_count + 1 } })
step r fetching j = (after_fetch r.fetched, j)
step r (comparing c) j = (if unchanged (j.job.cur_rpi_config) c then returned else saving c, j)
step r (saving c) j = (cancelling c, record j { job = record (j.job) { cur_rpi_config = some c } })
step r (cancelling c) j = (clearing c, record { job = cancel_timer (j.job); cancelled = true })
step r (clearing c) j = (making c, record j { job = record (j.job) { timer = none } })
step r (making c) j = (scheduling c, record { job = new_timer (j.job); cancelled = false })
step r (scheduling c) j = (returned, schedule_shared r c j)
step r returned j = (returned, j)

-- Two runs with their places; each turn is a step of the first one, or of the second one.
unfoldable pub interleave :
    Run → Run → List Bool → Place → Place → SharedJob → Place × Place × SharedJob
unfolding step
interleave r q [] a b j = (a, b, j)
interleave r q (true ∷ turns) a b j = let (a', j') = step r a j in interleave r q turns a' b j'
interleave r q (false ∷ turns) a b j = let (b', j') = step q b j in interleave r q turns a b' j'
