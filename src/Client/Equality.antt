-- ===== src/Client/Equality.antt =====
-- `equals` of RpiConfig.java.
use network_analyser_using_r.Base.{◌≡◌, arith, true, some}
use network_analyser_using_r.Client.{RpiConfig, equals}

RpiConfig-ext :
    (a b : RpiConfig)
    → a.capture_task_start_delay ≡ b.capture_task_start_delay
    → a.capture_task_repeat_interval ≡ b.capture_task_repeat_interval
    → a.number_of_packets_to_capture ≡ b.number_of_packets_to_capture
    → a ≡ b
RpiConfig-ext a b d i n = cc

pub equals-eq : (a b : RpiConfig) → equals a (some b) ≡ true → a ≡ b
unfolding equals
equals-eq a b h = RpiConfig-ext a b (ground arith) (ground arith) (ground arith)

pub equals_refl : (a : RpiConfig) → equals a (some a) ≡ true
unfolding equals
equals_refl a = ground arith
