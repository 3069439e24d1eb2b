-- ===== src/Tests/Posting.antt =====
-- The theorems on the Java client, at concrete inputs.
use network_analyser_using_r.Base.{
  codes, ◌≡◌, refl, ap, false, Bool, ℕ, ◌&&◌, ltb, Bytes, List, ◌++◌, [], ◌∷◌, some, none,
  if◌then◌else◌, ◌^◌,
}
use network_analyser_using_r.Json.Value.{and_then}
use network_analyser_using_r.Json.RoundTrip.{read_json}
use network_analyser_using_r.Client.{
  RpiConfig, equals, Run, got, thrown, task_of, start, starts, initial_job,
}
use network_analyser_using_r.Client.Sync.{Shows, note_runs, starts-initial_job}
use network_analyser_using_r.Client.Refused.{starts_new}
use network_analyser_using_r.Client.{SyncJob}
use network_analyser_using_r.Client.Steps.{interleave, entering, returned}
use network_analyser_using_r.Client.Leaked.{IsLeaked}
use network_analyser_using_r.Client.Overlap.{overlapping, shared, interleave-IsLeaked}
use network_analyser_using_r.Client.Sockets
use network_analyser_using_r.Client.Sockets.{
  SocketState, connecting, read, first, second, server, Actor, new_channel,
}
use network_analyser_using_r.Client.Deadlock.{idle, interleave_alone}
use network_analyser_using_r.Client.Binding.{bind_data}
use network_analyser_using_r.Client.Service.{client_capture_command, ObjectMapper, IsObjectMapper}

abbrev pub each_minute : RpiConfig
each_minute = record {
  capture_task_start_delay = 1000;
  capture_task_repeat_interval = 60000;
  number_of_packets_to_capture = 100;
}

-- Without an interval, as where the property is missing.
abbrev no_interval : RpiConfig
no_interval = record each_minute { capture_task_repeat_interval = 0 }

-- A delay that is not negative and an interval above 0 are taken.
abbrev pub takes : ℕ → ℕ → Bool
takes delay interval = ltb delay (2 ^ 63) && (ltb 0 interval && ltb interval (2 ^ 63))

abbrev gets : RpiConfig → Run
gets c = record { fetched = got c; schedules = takes }

abbrev fails : Run
fails = record { fetched = thrown; schedules = takes }

starts-initial_job_example :
    Shows
      (note_runs (gets each_minute ∷ fails ∷ gets no_interval ∷ []) none)
      (starts (gets each_minute ∷ fails ∷ gets no_interval ∷ []) initial_job)
starts-initial_job_example = starts-initial_job (gets each_minute ∷ fails ∷ gets no_interval ∷ [])

starts_new_example :
    (t : ℕ) × ((starts
        (gets no_interval ∷ fails ∷ [])
        (start (gets no_interval) (starts (gets each_minute ∷ []) initial_job))).timer
      ≡ some t)
    × ((starts
          (gets no_interval ∷ fails ∷ [])
          (start (gets no_interval) (starts (gets each_minute ∷ []) initial_job))).running
        ≡ (if takes 1000 0 then task_of t no_interval ∷ [] else []))
unfolding starts equals
starts_new_example =
    starts_new (gets each_minute ∷ []) (gets no_interval) no_interval
      (gets no_interval ∷ fails ∷ []) refl refl (refl, (tt, tt))

abbrev each_hour : RpiConfig
each_hour = record each_minute { capture_task_repeat_interval = 3600000 }

interleave-IsLeaked_example :
    (t : ℕ) × (j : SyncJob) × (interleave
        (gets each_minute)
        (gets each_hour)
        overlapping
        entering
        entering
        (shared false (starts [] initial_job))
      ≡ (returned, returned, shared false j))
    × IsLeaked (task_of t each_minute) (starts (gets each_hour ∷ gets no_interval ∷ []) j)
unfolding starts equals
interleave-IsLeaked_example =
    interleave-IsLeaked [] (gets each_hour ∷ gets no_interval ∷ []) (gets each_minute)
      (gets each_hour) each_minute each_hour refl refl refl refl refl refl

abbrev pub some_mapper : ObjectMapper
some_mapper bytes = and_then (read_json bytes) (λ (v, rest). bind_data v)

pub some_mapper-IsObjectMapper : IsObjectMapper some_mapper
some_mapper-IsObjectMapper = record {
  reads = λ bytes rest v ascii h. ap (λ o. and_then o (λ (u, r). bind_data u)) h;
}

-- A server that answers each command with an empty document.
abbrev empty_answer : ℕ → Bytes → Bytes
empty_answer n command = codes "{\"packets\":[]}"

interleave_alone_example :
    Sockets.interleave empty_answer
      (first ∷ first ∷ first ∷ first ∷ server ∷ first ∷ [])
      connecting
      connecting
      (idle none none none [])
    ≡ some (
      read (codes "{\"packets\":[]}"),
      connecting,
      idle (some 0) (some 0) (some 0) (
          record { sent = client_capture_command; replied = some (codes "{\"packets\":[]}") } ∷ []),
    )
interleave_alone_example = interleave_alone empty_answer none none none [] connecting

-- Both tasks connect, write and wait.
abbrev both_read : List Actor
both_read = first ∷ first ∷ first ∷ second ∷ second ∷ second ∷ []

abbrev both_commands : SocketState
both_commands = record {
  socket = some 1;
  out = some 1;
  input = some 1;
  channels =
      new_channel
      ∷ record { sent = client_capture_command ++ client_capture_command; replied = none }
      ∷ [];
  answered = 0;
}
