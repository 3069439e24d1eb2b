-- ===== src/Client/Rest.antt =====
-- The REST calls of RpiServiceImpl in rpi-local-client/src/main/java/com/eurekabits.
use network_analyser_using_r.Base.{ℕ, Bool, Bytes, ◌++◌, List, [], ◌∷◌, Option, none, some, codes}
use network_analyser_using_r.Client.{RpiConfig, Run, Fetched, thrown, null_body, got}
use network_analyser_using_r.Client.Binding.{NetworkCaptureData}
use network_analyser_using_r.Client.Service.{
  ObjectMapper, Remote, rpi_id, capture_and_send_network_data,
}
use mathlib.Core.List.{map}

pub data HttpMethod : Type 0 where
  get post : HttpMethod

-- What RestTemplate.exchange is called with; the body is the object that it turns to JSON.
pub record HttpRequest : Type 0 where
  pub method : HttpMethod
  pub url : Bytes
  pub headers : List (Bytes × Bytes)
  pub body : Option NetworkCaptureData

-- A call for the configuration throws, or gives a response with a body or none.
pub data Exchanged : Type 0 where
  failed : Exchanged
  replied : Option RpiConfig → Exchanged

abbrev pub body_of : Exchanged → Fetched
body_of failed = thrown
body_of (replied none) = null_body
body_of (replied (some c)) = got c

-- `encode` is the encoder of java.util.Base64.
module _ (encode : Bytes → Bytes) where
  unfoldable pub create_headers : Bytes → Bytes → List (Bytes × Bytes)
  create_headers username password =
      (codes "Authorization", codes "Basic " ++ encode (username ++ (b':' ∷ password)))
      ∷ (codes "Content-Type", codes "application/json")
      ∷ (codes "Accept", codes "application/json")
      ∷ []

  unfoldable pub config_request : HttpRequest
  config_request = record {
    method = get;
    url = codes "http://na.eurekabits.com/api/v1/na/config?id=" ++ rpi_id;
    headers = create_headers (codes "richa123") (codes "password");
    body = none;
  }

  unfoldable pub get_rpi_config_from_server : (HttpRequest → Exchanged) → Fetched
  get_rpi_config_from_server exchange = body_of (exchange config_request)

  unfoldable pub post_captured_data_to_server : NetworkCaptureData → HttpRequest
  post_captured_data_to_server d = record {
    method = post;
    url = codes "http://na.eurekabits.com/api/v1/na/network-capture";
    headers = create_headers (codes "richa123") (codes "password");
    body = some d;
  }

  -- The requests of one run of PacketCaptureTimerTask, which catches what a failed capture throws.
  abbrev pub run : ObjectMapper → Remote → List HttpRequest
  run mapper r = map post_captured_data_to_server (capture_and_send_network_data mapper r)

  -- A run of the configuration job with the reply of the service.
  abbrev pub sync_run : (HttpRequest → Exchanged) → (ℕ → ℕ → Bool) → Run
  sync_run exchange schedules = record {
    fetched = get_rpi_config_from_server exchange;
    schedules = schedules;
  }
