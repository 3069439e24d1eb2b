-- ===== src/Client/Refused.antt =====
-- Runs of ConfigSyncJob.start that fetch one configuration again and again.
use network_analyser_using_r.Base.{
  ℕ, ◌+◌, ◌≡◌, refl, ap, ◌∙◌, sym, subst, arith, true, false, List, [], ◌∷◌, none, some,
  if◌then◌else◌, length, All,
}
use network_analyser_using_r.Client.{
  RpiConfig, equals, SyncJob, Run, Fetched, thrown, null_body, got, task_of, unchanged, synchronise,
  start, starts, initial_job,
}
use network_analyser_using_r.Client.Equality.{equals_refl}
use network_analyser_using_r.Client.Sync.{
  Shows, note_runs, note_run, starts-initial_job, start-Shows, Shows-config,
}

-- The reply is this configuration, or none.
abbrev pub IsAgain : RpiConfig → Fetched → Type 0
IsAgain c thrown = Unit
IsAgain c null_body = Unit
IsAgain c (got d) = d ≡ c

synchronise_same :
    (r : Run) (f : Fetched) (c : RpiConfig) (j : SyncJob)
    → j.cur_rpi_config ≡ some c
    → IsAgain c f
    → synchronise r f j ≡ j
unfolding synchronise
synchronise_same r thrown c j h a = refl
synchronise_same r null_body c j h a = refl
synchronise_same r (got d) c j h a =
    let e : unchanged j.cur_rpi_config d ≡ true =
      ap (λ o. unchanged o d) h ∙ ap (λ k. equals c (some k)) a ∙ equals_refl c in
    rw e refl

-- Runs that get the current configuration or none change nothing but the count of the runs.
pub starts_same :
    (rs : List Run) (c : RpiConfig) (j : SyncJob)
    → j.cur_rpi_config ≡ some c
    → All (λ r. IsAgain c r.fetched) rs
    → starts rs j ≡ record j { job_run_count = j.job_run_count + length rs }
unfolding starts start
starts_same [] c j h a = ap (λ n. record j { job_run_count = n }) (omega arith)
starts_same (r ∷ rs) c j h a =
    let counted = record j { job_run_count = j.job_run_count + 1 } in
    ap (starts rs) (synchronise_same r r.fetched c counted h a.0)
    ∙ starts_same rs c counted h a.1
    ∙ ap (λ n. record j { job_run_count = n }) (omega arith)

-- After any runs, a run that gets a configuration other than the current one, and then any runs
-- that get the same one or none, leave as the only task that of the current Timer with this
-- configuration, where scheduleAtFixedRate took it in the first of these runs, and else no task
-- at all, whatever it would take later.
pub starts_new :
    (before : List Run) (r : Run) (c : RpiConfig) (rs : List Run)
    → r.fetched ≡ got c
    → unchanged ((starts before initial_job).cur_rpi_config) c ≡ false
    → All (λ q. IsAgain c q.fetched) rs
    → (t : ℕ) × ((starts rs (start r (starts before initial_job))).timer ≡ some t)
      × ((starts rs (start r (starts before initial_job))).running ≡ (
          if r.schedules c.capture_task_start_delay c.capture_task_repeat_interval
          then task_of t c ∷ []
          else []))
starts_new before r c rs f new a =
    let v = note_runs before none in
    let j = starts before initial_job in
    let e : note_run r v
        ≡ some (c, r.schedules c.capture_task_start_delay c.capture_task_repeat_interval) =
      rw (f, sym (ap (λ o. unchanged o c) (Shows-config v j (starts-initial_job before))) ∙ new)
        refl in
    let (t, cur, timer, running) =
      subst (λ u. Shows u (start r j)) e (start-Shows r v j (starts-initial_job before)) in
    let kept = starts_same rs c (start r j) cur a in
    (t, ap (λ (k : SyncJob). k.timer) kept ∙ timer, ap (λ (k : SyncJob). k.running) kept ∙ running)
