-- ===== src/Capture/Runs.antt =====
-- A sequence of callbacks as a sequence of steps of the contract, and what holds along it.
use network_analyser_using_r.Base.{
  ℕ, zero, suc, ◌+◌, ◌*◌, ◌≤◌, ◌≡◌, refl, ap, ◌∙◌, sym, arith, Bytes, List, [], ◌∷◌, ◌++◌, length,
  All,
}
use network_analyser_using_r.Outcome.{ok, bind_inv, ok-injective}
use network_analyser_using_r.State.{Platform, IsPlatform, PacketInfo, Server, max_packet_info_count}
use network_analyser_using_r.State.Slots.{IsServer}
use network_analyser_using_r.Dedup.Spec.{keys, key_of, captured}
use network_analyser_using_r.Dedup.Tally.{length-keys}
use network_analyser_using_r.Dedup.Distinct.{AreDistinct, DistinctAfter-concat, diff_before-le}
use network_analyser_using_r.Ethernet.Total.{IsPacket}
use network_analyser_using_r.Callback.{packet_capture_callback}
use network_analyser_using_r.Callback.Step.{
  Step, Change, full, duplicate, ignored, kept_beacon, kept_other,
}
use network_analyser_using_r.Callback.Correct.{packet_capture_callback-Step}
use network_analyser_using_r.Capture.{run_callbacks}
use mathlib.Core.List.{append-nil, append_assoc}

-- `n` steps lead from one state of the globals to another.
pub data Run : ℕ → Server → Server → Type 0 where
  here : {s : Server} → Run zero s s
  next : {n : ℕ} {s t u : Server} → Step s t → Run n t u → Run (suc n) s u

pub run_callbacks-Run :
    (p : Platform) (fuel : ℕ) (packets : List Bytes) (s s' : Server)
    → IsPlatform p
    → All IsPacket packets
    → IsServer s
    → run_callbacks p fuel packets s ≡ ok s'
    → Run (length packets) s s'
unfolding run_callbacks
run_callbacks-Run p fuel [] s s' documented bytes v h = rw (ok-injective h) here
run_callbacks-Run p fuel (packet ∷ packets) s s' documented bytes v h =
    let (t, called, rest) = bind_inv (packet_capture_callback p fuel packet s) _ h in
    let step = packet_capture_callback-Step p fuel packet s t documented bytes.0 v called in
    next step (run_callbacks-Run p fuel packets t s' documented bytes.1 step.valid rest)

-- What the counters of the globals say after `n` steps from `s`.
pub record IsCounted (n : ℕ) (s s' : Server) : Type 0 where
  pub packets :
      s'.cur_packet_count + s'.dup_packets_discarded
      ≤ s.cur_packet_count + s.dup_packets_discarded + n
  pub grows : s.cur_packet_count ≤ s'.cur_packet_count
  pub diffs :
      s'.packets_same_ssid_diff_bssid ≤ s.packets_same_ssid_diff_bssid + max_packet_info_count * n

Change-IsCounted : (s s' : Server) → IsServer s → Change s s' → IsCounted 1 s s'
Change-IsCounted s s' v (full h e) = rw e (omega arith)
Change-IsCounted s s' v (duplicate k dup below count dups diffs) =
    omega (arith, diff_before-le (keys s) k, length-keys s v, v.within)
Change-IsCounted s s' v (ignored below count dups diffs) = omega arith
Change-IsCounted s s' v (kept_beacon q beacon new below count dups diffs) =
    omega (arith, diff_before-le (keys s) (key_of q), length-keys s v, v.within)
Change-IsCounted s s' v (kept_other q differs below count dups diffs) = omega arith

Change-AreDistinct :
    (s s' : Server) → Change s s' → AreDistinct (captured s) → AreDistinct (captured s')
unfolding keys
Change-AreDistinct s s' (full h e) d = rw e d
Change-AreDistinct s s' (duplicate k dup below count dups diffs) d = rw below d
Change-AreDistinct s s' (ignored below count dups diffs) d = rw below d
Change-AreDistinct s s' (kept_beacon q beacon new below count dups diffs) d =
    rw below (DistinctAfter-concat [] (captured s) q d (λ e. new))
Change-AreDistinct s s' (kept_other q differs below count dups diffs) d =
    rw below (DistinctAfter-concat [] (captured s) q d (λ e. absurd (differs e)))

pub Run-IsServer : {n : ℕ} {s s' : Server} → Run n s s' → IsServer s → IsServer s'
Run-IsServer here v = v
Run-IsServer (next step run) v = Run-IsServer run step.valid

pub Run-output : {n : ℕ} {s s' : Server} → Run n s s' → s'.output_buff ≡ s.output_buff
Run-output here = refl
Run-output (next step run) = Run-output run ∙ step.output

pub Run-IsCounted : {n : ℕ} {s s' : Server} → Run n s s' → IsServer s → IsCounted n s s'
Run-IsCounted here v = omega arith
Run-IsCounted {s} (next {t} step run) v =
    omega (arith, Change-IsCounted s t v step.change, Run-IsCounted run step.valid)

pub Run-AreDistinct :
    {n : ℕ} {s s' : Server} → Run n s s' → AreDistinct (captured s) → AreDistinct (captured s')
Run-AreDistinct here d = d
Run-AreDistinct {s} (next {t} step run) d =
    Run-AreDistinct run (Change-AreDistinct s t step.change d)

Change-extends :
    (s s' : Server) → Change s s' → (more : List PacketInfo) × (captured s' ≡ captured s ++ more)
Change-extends s s' (full h e) = ([], ap captured e ∙ sym (append-nil (captured s)))
Change-extends s s' (duplicate k dup below count dups diffs) =
    ([], below ∙ sym (append-nil (captured s)))
Change-extends s s' (ignored below count dups diffs) = ([], below ∙ sym (append-nil (captured s)))
Change-extends s s' (kept_beacon q beacon new below count dups diffs) = (q ∷ [], below)
Change-extends s s' (kept_other q differs below count dups diffs) = (q ∷ [], below)

-- A slot that is in use is not changed again: later packets stand behind it.
pub Run-extends :
    {n : ℕ} {s s' : Server}
    → Run n s s'
    → (more : List PacketInfo) × (captured s' ≡ captured s ++ more)
Run-extends {s} here = ([], sym (append-nil (captured s)))
Run-extends {s} (next {t} step run) =
    let (one, e) = Change-extends s t step.change in
    let (rest, f) = Run-extends run in
    (one ++ rest, f ∙ ap (λ qs. qs ++ rest) e ∙ append_assoc (captured s) one rest)
