-- ===== src/Client/Service.antt =====
-- RpiServiceImpl.getNetworkInfoFromClient and PacketCaptureTimerTask of
-- rpi-local-client/src/main/java/com/eurekabits.
use network_analyser_using_r.Base.{
  ℕ, ◌-◌, ◌≡◌, Bool, true, ◌&&◌, ltb, Bytes, List, [], ◌∷◌, ◌++◌, Option, none, some, codes, take,
  replicate, length, if◌then◌else◌,
}
use network_analyser_using_r.Json.Value.{Json}
use network_analyser_using_r.Json.RoundTrip.{read_json}
use network_analyser_using_r.Client.Binding.{NetworkCaptureData, bind_data}

abbrev pub rpi_id : Bytes
rpi_id = codes "4062a43b-7e77-42c7-a694-f35a264a18db"

abbrev pub max_network_input_buffer_size : ℕ
max_network_input_buffer_size = 8192

abbrev pub client_capture_command : Bytes
client_capture_command = codes "capture"

-- ObjectMapper.readValue for NetworkCaptureData: none where it throws.
abbrev pub ObjectMapper : Type 0
ObjectMapper = Bytes → Option NetworkCaptureData

abbrev pub is_ascii : Bytes → Bool
is_ascii [] = true
is_ascii (c ∷ cs) = ltb c 128 && is_ascii cs

-- It binds the first JSON value of the bytes, whatever follows.
pub record IsObjectMapper (mapper : ObjectMapper) : Type 0 where
  pub reads :
      (bytes rest : Bytes) (v : Json)
      → is_ascii bytes ≡ true
      → read_json bytes ≡ some (v, rest)
      → mapper bytes ≡ bind_data v

-- What the calls for one capture do: getLocalHost gave an address, the socket connects and takes
-- the command, and `read` fills in bytes, none at the end of the stream, or throws.
pub record Remote : Type 0 where
  pub host : Bool
  pub connects : Bytes → Bool
  pub read : Option Bytes

-- The array that `read` filled in from the start.
unfoldable pub capture_data_bytes : Bytes → Bytes
capture_data_bytes bytes =
    take max_network_input_buffer_size bytes
    ++ replicate (max_network_input_buffer_size - length bytes) 0

module _ (mapper : ObjectMapper) (r : Remote) where
  -- `data` before the id is set: null where nothing is read or an IOException was caught.
  unfoldable pub read_data : Option Bytes → Option NetworkCaptureData
  unfolding capture_data_bytes
  read_data none = none
  read_data (some bytes) = if ltb 0 (length bytes) then mapper (capture_data_bytes bytes) else none

  abbrev pub set_dev_id : Option NetworkCaptureData → Option NetworkCaptureData
  set_dev_id none = none
  set_dev_id (some d) = some (record d { dev_id = some rpi_id })

  -- None where a NullPointerException is thrown: without an address, and by setDevId on null.
  unfoldable pub get_network_info_from_client : Option NetworkCaptureData
  unfolding read_data
  get_network_info_from_client =
      if r.host
      then set_dev_id (if r.connects client_capture_command then read_data r.read else none)
      else none

  -- What is handed to postCapturedDataToServer: nothing where the capture throws.
  unfoldable pub capture_and_send_network_data : List NetworkCaptureData
  unfolding get_network_info_from_client
  capture_and_send_network_data = elim get_network_info_from_client [ none ↦ [] | some d ↦ d ∷ [] ]
