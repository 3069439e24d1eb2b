-- ===== src/Client/Overlap.antt =====
-- Two runs of ConfigSyncJob.start that overlap.
use network_analyser_using_r.Base.{
  ℕ, ◌+◌, ◌≡◌, refl, ap, ◌∙◌, arith, Bool, true, false, List, ◌∷◌, none, some, if◌then◌else◌,
  replicate, ◌++◌,
}
use network_analyser_using_r.Client.{
  RpiConfig, SyncJob, Run, got, equals, cancel_timer, new_timer, task_of, schedule, unchanged,
  starts, initial_job,
}
use network_analyser_using_r.Client.Sync.{cancel_timer-config}
use network_analyser_using_r.Client.Leaked.{IsLeaked, starts-IsLeaked}
use network_analyser_using_r.Client.Steps.{
  Place, saving, after_fetch, entering, returned, clearing, interleave, SharedJob,
}
use mathlib.Core.List.Memᴰ.{head, tail}
use mathlib.Core.Option.{some-injective}

-- A run up to its sleep, and after it.
abbrev asleep : RpiConfig → SyncJob → SyncJob
asleep c j =
    cancel_timer (record j { job_run_count = j.job_run_count + 1; cur_rpi_config = some c })

abbrev woken : Run → RpiConfig → SyncJob → SyncJob
woken r c j = schedule r c (new_timer (record j { timer = none }))

abbrev pub shared : Bool → SyncJob → SharedJob
shared cancelled j = record { job = j; cancelled = cancelled }

first_asleep :
    (r q : Run) (turns : List Bool) (c : RpiConfig) (b : Place) (f : Bool) (j : SyncJob)
    → r.fetched ≡ got c
    → unchanged j.cur_rpi_config c ≡ false
    → interleave r q (replicate 5 true ++ turns) entering b (shared f j)
      ≡ interleave r q turns (clearing c) b (shared true (asleep c j))
unfolding interleave
first_asleep r q turns c b f j fetched new =
    let counted = shared f (record j { job_run_count = j.job_run_count + 1 }) in
    ap (λ g. interleave r q (replicate 3 true ++ turns) (after_fetch g) b counted) fetched
    ∙ ap
        (λ same.
          interleave r q (replicate 2 true ++ turns) (if same then returned else saving c) b
            counted)
        new

second_asleep :
    (r q : Run) (turns : List Bool) (d : RpiConfig) (a : Place) (f : Bool) (j : SyncJob)
    → q.fetched ≡ got d
    → unchanged j.cur_rpi_config d ≡ false
    → interleave r q (replicate 5 false ++ turns) a entering (shared f j)
      ≡ interleave r q turns a (clearing d) (shared true (asleep d j))
unfolding interleave
second_asleep r q turns d a f j fetched new =
    let counted = shared f (record j { job_run_count = j.job_run_count + 1 }) in
    ap (λ g. interleave r q (replicate 3 false ++ turns) a (after_fetch g) counted) fetched
    ∙ ap
        (λ same.
          interleave r q (replicate 2 false ++ turns) a (if same then returned else saving d)
            counted)
        new

both_woken :
    (r q : Run) (c d : RpiConfig) (f : Bool) (j : SyncJob)
    → interleave r q (replicate 3 true ++ replicate 3 false) (clearing c) (clearing d) (shared f j)
      ≡ (returned, returned, shared false (woken q d (woken r c j)))
unfolding interleave
both_woken r q c d f j = refl

-- Each run cancels the Timer that it finds, sleeps, and then makes its own.
abbrev pub overlapping : List Bool
overlapping = replicate 5 true ++ (replicate 5 false ++ (replicate 3 true ++ replicate 3 false))

abbrev is_taken : Run → RpiConfig → Bool
is_taken r c = r.schedules c.capture_task_start_delay c.capture_task_repeat_interval

woken_lem :
    (r : Run) (c : RpiConfig) (j : SyncJob)
    → is_taken r c ≡ true
    → woken r c j ≡ record j {
      timer = some (j.timers_made);
      timers_made = j.timers_made + 1;
      running = task_of j.timers_made c ∷ j.running;
    }
unfolding schedule
woken_lem r c j taken = rw taken refl

-- After any runs, where a run gets a new configuration c and a second one another configuration
-- d, and scheduleAtFixedRate takes both, there is an order of their steps in which both end and a
-- task for c runs on a Timer that is not the current one. It still runs, on a Timer that is not
-- the current one, after any later runs that come one after the other.
pub interleave-IsLeaked :
    (before after : List Run) (r q : Run) (c d : RpiConfig)
    → r.fetched ≡ got c
    → q.fetched ≡ got d
    → unchanged ((starts before initial_job).cur_rpi_config) c ≡ false
    → equals c (some d) ≡ false
    → is_taken r c ≡ true
    → is_taken q d ≡ true
    → (t : ℕ) × (j : SyncJob) × (interleave r q overlapping entering entering
          (shared false (starts before initial_job))
        ≡ (returned, returned, shared false j))
      × IsLeaked (task_of t c) (starts after j)
interleave-IsLeaked before after r q c d rf qf new differ rt qt =
    let j = starts before initial_job in
    let j2 = asleep d (asleep c j) in
    let end : SyncJob = woken q d (woken r c j2) in
    (
      j2.timers_made,
      end,
      first_asleep r q _ c entering false j rf new
          ∙ second_asleep r q _ d (clearing c) true (asleep c j) qf (
              ap (λ o. unchanged o d)
                (cancel_timer-config
                  (record j { job_run_count = j.job_run_count + 1; cur_rpi_config = some c }))
              ∙ differ)
          ∙ both_woken r q c d true j2,
      starts-IsLeaked (task_of j2.timers_made c) after end (
          rw (woken_lem q d (woken r c j2) qt, woken_lem r c j2 rt)
            (record {
              running = tail (head refl);
              old = omega arith;
              other = λ u e same. omega (arith, some-injective _ _ e, same);
            })),
    )
