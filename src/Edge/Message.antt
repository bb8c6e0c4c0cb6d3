-- ===== src/Edge/Message.antt =====
-- The messages that crates/coldbore-edge/src/uplink.rs and uplink_stream.rs make of a frame. serde_json's
-- `to_vec` is a parameter.
use cold_bore.Base.{ℕ, ◌/◌, String, List}
use cold_bore.Proto.Frame.{Frame, message_id, routing_key}
use cold_bore.Proto.Topology.{frames_exchange}

-- What `basic_publish` is given: exchange, routing key, the properties that are set, and the payload.
pub record Message : Type 0 where
  pub exchange : String
  pub key : String
  pub content_type : String
  pub id : String
  pub timestamp : ℕ
  pub delivery_mode : ℕ
  pub payload : List ℕ

-- A message of the stream client.
pub record StreamMessage : Type 0 where
  pub body : List ℕ
  pub publishing_id : ℕ

module _ (to_vec : Frame → List ℕ) where
  -- `start_publish`; the timestamp is in seconds, and mode 2 is persistent.
  unfoldable pub start_publish : Frame → Message
  start_publish frame = record {
    exchange = frames_exchange;
    key = routing_key frame;
    content_type = "application/json";
    id = message_id frame;
    timestamp = frame.t_ms / 1000;
    delivery_mode = 2;
    payload = to_vec frame;
  }

  -- `build_message`
  unfoldable pub build_message : Frame → ℕ → StreamMessage
  build_message frame publishing_id = record { body = to_vec frame; publishing_id = publishing_id }
