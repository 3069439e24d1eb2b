-- ===== src/Client/Binding.antt =====
-- The data objects of the Java client, NetworkCaptureData, Packet and Packet_ of
-- rpi-local-client/src/main/java/com/eurekabits, and how their annotations bind the members of a
-- JSON value to them. Members with other names go to additionalProperties, which are left out.
use network_analyser_using_r.Base.{Bytes, List, [], ◌∷◌, Option, none, some, codes, if◌then◌else◌}
use network_analyser_using_r.CString.{same_text}
use network_analyser_using_r.Json.Value.{
  Json, Items, Fields, string, array, object, end_items, item, end_fields, field, and_then,
}

-- A `String` that is not set is null.
pub record PacketMembers : Type 0 where
  pub datarate : Option Bytes
  pub antenna : Option Bytes
  pub channel : Option Bytes
  pub power : Option Bytes
  pub ssid : Option Bytes
  pub src : Option Bytes
  pub dst : Option Bytes
  pub bssid : Option Bytes

pub record Packet : Type 0 where
  pub packet : Option PacketMembers

pub record NetworkCaptureData : Type 0 where
  pub dev_id : Option Bytes
  pub packets : List Packet

abbrev text_of : Json → Option Bytes
text_of (string t) = some t
text_of _ = none

abbrev with_text : Json → (Option Bytes → PacketMembers) → Option PacketMembers
with_text v set = and_then (text_of v) (λ t. some (set (some t)))

unfoldable pub bind_member : Bytes → Json → PacketMembers → Option PacketMembers
bind_member k v m =
    if same_text k (codes "datarate")
    then with_text v (λ t. record m { datarate = t })
    else if same_text k (codes "antenna")
    then with_text v (λ t. record m { antenna = t })
    else if same_text k (codes "channel")
    then with_text v (λ t. record m { channel = t })
    else if same_text k (codes "power")
    then with_text v (λ t. record m { power = t })
    else if same_text k (codes "ssid")
    then with_text v (λ t. record m { ssid = t })
    else if same_text k (codes "src")
    then with_text v (λ t. record m { src = t })
    else if same_text k (codes "dst")
    then with_text v (λ t. record m { dst = t })
    else if same_text k (codes "bssid")
    then with_text v (λ t. record m { bssid = t })
    else some m

unfoldable pub bind_members : Fields → PacketMembers → Option PacketMembers
unfolding bind_member
bind_members end_fields m = some m
bind_members (field k v fs) m = and_then (bind_member k v m) (bind_members fs)

abbrev pub no_members : PacketMembers
no_members = record {
  datarate = none;
  antenna = none;
  channel = none;
  power = none;
  ssid = none;
  src = none;
  dst = none;
  bssid = none;
}

-- The property `packet`.
unfoldable pub bind_inner : Json → Option Packet
unfolding bind_members
bind_inner (object fs) =
    and_then (bind_members fs no_members) (λ m. some (record { packet = some m }))
bind_inner _ = none

unfoldable pub bind_packet_fields : Fields → Packet → Option Packet
unfolding bind_inner
bind_packet_fields end_fields q = some q
bind_packet_fields (field k v fs) q =
    and_then (if same_text k (codes "packet") then bind_inner v else some q) (bind_packet_fields fs)

unfoldable pub bind_packet : Json → Option Packet
unfolding bind_packet_fields
bind_packet (object fs) = bind_packet_fields fs (record { packet = none })
bind_packet _ = none

unfoldable pub bind_packets : Items → Option (List Packet)
unfolding bind_packet
bind_packets end_items = some []
bind_packets (item v vs) =
    let rest = bind_packets vs in
    and_then (bind_packet v) (λ q. and_then rest (λ qs. some (q ∷ qs)))

unfoldable pub bind_list : Json → Option (List Packet)
unfolding bind_packets
bind_list (array vs) = bind_packets vs
bind_list _ = none

unfoldable pub bind_property : Bytes → Json → NetworkCaptureData → Option NetworkCaptureData
unfolding bind_list
bind_property k v d =
    if same_text k (codes "devId")
    then and_then (text_of v) (λ t. some (record d { dev_id = some t }))
    else if same_text k (codes "packets")
    then and_then (bind_list v) (λ qs. some (record d { packets = qs }))
    else some d

unfoldable pub bind_properties : Fields → NetworkCaptureData → Option NetworkCaptureData
unfolding bind_property
bind_properties end_fields d = some d
bind_properties (field k v fs) d = and_then (bind_property k v d) (bind_properties fs)

-- An object with the values of the JSON value, or none where one has another type.
unfoldable pub bind_data : Json → Option NetworkCaptureData
unfolding bind_properties
bind_data (object fs) = bind_properties fs (record { dev_id = none; packets = [] })
bind_data _ = none
