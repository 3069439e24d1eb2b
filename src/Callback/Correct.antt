-- ===== src/Callback/Correct.antt =====
-- The callback implements its contract, and where it reads or writes out of bounds.
use network_analyser_using_r.Base.{
  ℕ, ◌<◌, ◌≡◌, refl, ◌∙◌, sym, arith, Bytes, false, ltb, ltb→lt, lt→ltb, Bool-cases, ◌⊎◌, inl, inr,
}
use network_analyser_using_r.Outcome.{ok, fault, ok-injective}
use network_analyser_using_r.State.{Platform, IsPlatform, Server, max_packet_info_count}
use network_analyser_using_r.State.Slots.{IsServer}
use network_analyser_using_r.Dedup.Spec.{has_key, keys}
use network_analyser_using_r.Ethernet.Key.{packet_key}
use network_analyser_using_r.Ethernet.Result.{parse_ethernet_duplicate, parse_ethernet_new}
use network_analyser_using_r.Ethernet.Total.{
  IsPacket, IsParsable, other, short, Unreadable, frame-cases, parse_ethernet-fault,
}
use network_analyser_using_r.Callback.{packet_capture_callback}
use network_analyser_using_r.Callback.Step.{Step, full}
use network_analyser_using_r.Callback.Branches.{
  duplicate-Step, beacon-IsKept, beacon-Step, other-Step,
}

-- A fault of parse_ethernet is one of the callback.
packet_capture_callback-fault :
    (p : Platform) (fuel : ℕ) (packet : Bytes) (s : Server)
    → IsPlatform p
    → Unreadable packet
    → IsServer s
    → s.cur_packet_count < max_packet_info_count
    → packet_capture_callback p fuel packet s ≡ fault
unfolding packet_capture_callback
packet_capture_callback-fault p fuel packet s documented bad v room =
    rw (lt→ltb _ _ room, parse_ethernet-fault p packet s documented bad v room)

-- Each call of the callback that returns keeps the invariant and is a step of the contract.
pub packet_capture_callback-Step :
    (p : Platform) (fuel : ℕ) (packet : Bytes) (s s' : Server)
    → IsPlatform p
    → IsPacket packet
    → IsServer s
    → packet_capture_callback p fuel packet s ≡ ok s'
    → Step s s'
packet_capture_callback-Step p fuel packet s s' documented bytes v h =
    elim (Bool-cases (ltb s.cur_packet_count max_packet_info_count)) [
      | inl room ↦ framed (ltb→lt _ _ room) (frame-cases packet bytes)
      | inr no_room ↦
          let same : s ≡ s' = ok-injective (sym (stays no_room) ∙ h) in
          rw (← same) (record { valid = v; output = refl; change = full (ground arith) refl })
    ]
  where
    stays :
        ltb s.cur_packet_count max_packet_info_count ≡ false
        → packet_capture_callback p fuel packet s ≡ ok s
    stays no_room = unfold packet_capture_callback in rw no_room

    framed :
        s.cur_packet_count < max_packet_info_count
        → (IsParsable packet) ⊎ (Unreadable packet)
        → Step s s'
    framed room (inl (other b0 b1 ty differs)) =
        other-Step p fuel packet s s' v room b0 b1 documented ty differs h
    framed room (inl (short len b)) =
        let k = packet_key documented.address_text packet len in
        elim (Bool-cases (has_key (keys s) k)) [
          | inl dup ↦
              duplicate-Step p fuel packet s s' v room k dup
                (parse_ethernet_duplicate p documented packet len b s v room dup) h
          | inr new ↦ beacon-Step p fuel packet s s' v room k _ _ new (
              beacon-IsKept p fuel packet s s' v room documented.address_text k new
                (parse_ethernet_new p documented packet len b s v room new) h)
        ]
    framed room (inr bad) =
        fails (packet_capture_callback-fault p fuel packet s documented bad v room)
      where
        fails : packet_capture_callback p fuel packet s ≡ fault → Step s s'
        fails e = cc
