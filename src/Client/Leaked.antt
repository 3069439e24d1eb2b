-- ===== src/Client/Leaked.antt =====
-- Tasks of ConfigSyncJob.java on a Timer other than the current one.
use network_analyser_using_r.Base.{
  ℕ, ◌+◌, ◌<◌, ◌≡◌, ◌≢◌, refl, ap, ◌∙◌, sym, arith, ◌==◌, Bool, true, false, List, [], ◌∷◌, Option,
  none, some, if◌then◌else◌, Bool-cases, inl, inr,
}
use network_analyser_using_r.Client.{
  RpiConfig, Task, SyncJob, Run, Fetched, thrown, null_body, got, cancel, cancel_timer, new_timer,
  task_of, schedule, unchanged, synchronise, start, starts,
}
use mathlib.Core.List.{Memᴰ}
use mathlib.Core.List.Memᴰ.{head, tail}
use mathlib.Core.Option.{some-injective}

-- A task runs whose Timer is not the current one.
pub record IsLeaked (task : Task) (j : SyncJob) : Type 0 where
  pub running : Memᴰ task j.running
  pub old : task.timer < j.timers_made
  pub other : (u : ℕ) → j.timer ≡ some u → u ≢ task.timer

cancel_other :
    (u : ℕ) (task : Task) (tasks : List Task)
    → u ≢ task.timer
    → Memᴰ task tasks
    → Memᴰ task (cancel u tasks)
unfolding cancel
cancel_other u task [] ne m = elim m [ ]
cancel_other u task (t ∷ tasks) ne m = elim (Bool-cases (t.timer == u)) [
  | inl own ↦ rw own (cancel_other u task tasks ne (in_rest own m))
  | inr other ↦ rw other (kept (cancel_other u task tasks ne) m)
]
  where
    in_rest : (t.timer == u) ≡ true → Memᴰ task (t ∷ tasks) → Memᴰ task tasks
    in_rest own (head e) = absurd (ne (sym (ap (λ (k : Task). k.timer) e ∙ ground arith)))
    in_rest own (tail m) = m

    kept :
        (Memᴰ task tasks → Memᴰ task (cancel u tasks))
        → Memᴰ task (t ∷ tasks)
        → Memᴰ task (t ∷ cancel u tasks)
    kept rest (head e) = head e
    kept rest (tail m) = tail (rest m)

-- It stays so, whatever the job does.
cancel_timer-IsLeaked :
    (task : Task) (j : SyncJob) → IsLeaked task j → IsLeaked task (cancel_timer j)
unfolding cancel_timer
cancel_timer-IsLeaked task j l = go j.timer l.other
  where
    go :
        (o : Option ℕ)
        → ((u : ℕ) → o ≡ some u → u ≢ task.timer)
        → IsLeaked task (elim o [ none ↦ j | some u ↦ record j { running = cancel u (j.running) } ])
    go none ne = l
    go (some u) ne = record {
      running = cancel_other u task j.running (ne u refl) l.running;
      old = l.old;
      other = l.other;
    }

new_timer-IsLeaked : (task : Task) (j : SyncJob) → IsLeaked task j → IsLeaked task (new_timer j)
new_timer-IsLeaked task j l = record {
  running = l.running;
  old = omega (arith, l.old);
  other = λ u e same. omega (arith, l.old, some-injective _ _ e, same);
}

schedule-IsLeaked :
    (task : Task) (r : Run) (c : RpiConfig) (j : SyncJob)
    → IsLeaked task j
    → IsLeaked task (schedule r c j)
unfolding schedule
schedule-IsLeaked task r c j l =
    go j.timer (r.schedules c.capture_task_start_delay c.capture_task_repeat_interval)
  where
    go :
        (o : Option ℕ) (taken : Bool)
        → IsLeaked task (elim o [
          | none ↦ j
          | some u ↦ if taken then record j { running = task_of u c ∷ j.running } else j
        ])
    go none taken = l
    go (some u) false = l
    go (some u) true = record { running = tail l.running; old = l.old; other = l.other }

start-IsLeaked : (task : Task) (r : Run) (j : SyncJob) → IsLeaked task j → IsLeaked task (start r j)
unfolding start synchronise
start-IsLeaked task r j l = go r.fetched
  where
    counted : SyncJob
    counted = record j { job_run_count = j.job_run_count + 1 }

    again : (o : Option RpiConfig) → IsLeaked task (record counted { cur_rpi_config = o })
    again o = record { running = l.running; old = l.old; other = l.other }

    go : (f : Fetched) → IsLeaked task (synchronise r f counted)
    go thrown = again j.cur_rpi_config
    go null_body = again j.cur_rpi_config
    go (got c) = elim (Bool-cases (unchanged j.cur_rpi_config c)) [
      | inl same ↦ rw same (again j.cur_rpi_config)
      | inr new ↦ rw new (
          schedule-IsLeaked task r c _
            (new_timer-IsLeaked task _ (cancel_timer-IsLeaked task _ (again (some c)))))
    ]

pub starts-IsLeaked :
    (task : Task) (rs : List Run) (j : SyncJob) → IsLeaked task j → IsLeaked task (starts rs j)
unfolding starts
starts-IsLeaked task [] j l = l
starts-IsLeaked task (r ∷ rs) j l = starts-IsLeaked task rs (start r j) (start-IsLeaked task r j l)
