-- ===== src/Client/Sync.antt =====
-- ConfigSyncJob.start on a register: the configuration last taken over, and whether it is scheduled.
use network_analyser_using_r.Base.{
  ℕ, ◌+◌, ◌≡◌, refl, ap, ◌∙◌, arith, Bool, true, false, List, [], ◌∷◌, Option, none, some,
  if◌then◌else◌, Bool-cases, Option-cases, inl, inr,
}
use network_analyser_using_r.Client.{
  RpiConfig, SyncJob, Run, Fetched, thrown, null_body, got, cancel, cancel_timer, new_timer,
  task_of, schedule, unchanged, synchronise, start, starts, initial_job,
}

abbrev pub Register : Type 0
Register = Option (RpiConfig × Bool)

abbrev pub config_of : Register → Option RpiConfig
config_of none = none
config_of (some (c, b)) = some c

-- Only a configuration that differs from the last one changes it.
abbrev pub note_fetched : (ℕ → ℕ → Bool) → Fetched → Register → Register
note_fetched schedules thrown v = v
note_fetched schedules null_body v = v
note_fetched schedules (got c) v =
    if unchanged (config_of v) c
    then v
    else some (c, schedules c.capture_task_start_delay c.capture_task_repeat_interval)

abbrev pub note_run : Run → Register → Register
note_run r v = note_fetched r.schedules r.fetched v

unfoldable pub note_runs : List Run → Register → Register
note_runs [] v = v
note_runs (r ∷ rs) v = note_runs rs (note_run r v)

-- No task runs but that of the current Timer, which has the current configuration.
abbrev pub Shows : Register → SyncJob → Type 0
Shows none j = (j.cur_rpi_config ≡ none) × (j.timer ≡ none) × (j.running ≡ [])
Shows (some (c, b)) j =
    (t : ℕ) × (j.cur_rpi_config ≡ some c)
    × (j.timer ≡ some t)
    × (j.running ≡ (if b then task_of t c ∷ [] else []))

cancel-own : (t : ℕ) (c : RpiConfig) (b : Bool) → cancel t (if b then task_of t c ∷ [] else []) ≡ []
unfolding cancel
cancel-own t c true = ground arith
cancel-own t c false = refl

pub Shows-config : (v : Register) (j : SyncJob) → Shows v j → j.cur_rpi_config ≡ config_of v
Shows-config none j (e, f, g) = e
Shows-config (some (c, b)) j (t, e, f, g) = e

-- Nothing runs once the Timer is cancelled.
pub cancel_timer-running :
    (v : Register) (j : SyncJob) (cur : Option RpiConfig)
    → Shows v j
    → (cancel_timer (record j { cur_rpi_config = cur })).running ≡ []
unfolding cancel_timer
cancel_timer-running none j cur (e, f, g) = rw f g
cancel_timer-running (some (c, b)) j cur (t, e, f, g) = rw f (ap (cancel t) g ∙ cancel-own t c b)

schedule-Shows :
    (r : Run) (c : RpiConfig) (j : SyncJob)
    → j.cur_rpi_config ≡ some c
    → j.running ≡ []
    → Shows
        (some (c, r.schedules c.capture_task_start_delay c.capture_task_repeat_interval))
        (schedule r c (new_timer j))
unfolding schedule
schedule-Shows r c j e f =
    elim (Bool-cases (r.schedules c.capture_task_start_delay c.capture_task_repeat_interval)) [
      | inl taken ↦ rw taken (j.timers_made, e, refl, ap (λ ts. task_of j.timers_made c ∷ ts) f)
      | inr refused ↦ rw refused (j.timers_made, e, refl, f)
    ]

pub cancel_timer-config : (j : SyncJob) → (cancel_timer j).cur_rpi_config ≡ j.cur_rpi_config
unfolding cancel_timer
cancel_timer-config j = elim (Option-cases j.timer) [ inl e ↦ rw e refl | inr (t, e) ↦ rw e refl ]

synchronise-Shows :
    (r : Run) (f : Fetched) (v : Register) (j : SyncJob)
    → Shows v j
    → Shows (note_fetched r.schedules f v) (synchronise r f j)
unfolding synchronise
synchronise-Shows r thrown v j h = h
synchronise-Shows r null_body v j h = h
synchronise-Shows r (got c) v j h =
    let e = ap (λ o. unchanged o c) (Shows-config v j h) in
    elim (Bool-cases (unchanged (config_of v) c)) [
      | inl same ↦ rw (e ∙ same, same) h
      | inr new ↦
          rw (e ∙ new, new)
            (schedule-Shows r c (cancel_timer (record j { cur_rpi_config = some c }))
              (cancel_timer-config (record j { cur_rpi_config = some c }))
              (cancel_timer-running v j (some c) h))
    ]

-- Counting a run changes nothing else.
counted-Shows :
    (v : Register) (j : SyncJob) (n : ℕ) → Shows v j → Shows v (record j { job_run_count = n })
counted-Shows none j n h = h
counted-Shows (some (c, b)) j n h = h

pub start-Shows :
    (r : Run) (v : Register) (j : SyncJob) → Shows v j → Shows (note_run r v) (start r j)
unfolding start
start-Shows r v j h =
    synchronise-Shows r r.fetched v (record j { job_run_count = j.job_run_count + 1 })
      (counted-Shows v j (j.job_run_count + 1) h)

pub starts-Shows :
    (rs : List Run) (v : Register) (j : SyncJob) → Shows v j → Shows (note_runs rs v) (starts rs j)
unfolding starts note_runs
starts-Shows [] v j h = h
starts-Shows (r ∷ rs) v j h = starts-Shows rs (note_run r v) (start r j) (start-Shows r v j h)

-- After any runs of the job one after the other, the job shows the register that the fetched
-- configurations give: the last configuration taken over, with whether scheduleAtFixedRate took
-- it. No task runs but one of the current Timer with the delay and the interval of that
-- configuration, and it runs exactly where it was taken.
pub starts-initial_job : (rs : List Run) → Shows (note_runs rs none) (starts rs initial_job)
starts-initial_job rs = starts-Shows rs none initial_job (refl, refl, refl)
