-- ===== src/Protocol/Dispatch.antt =====
-- src/pinaivu-protocol/src/mesh/inference_proto.rs and topics.rs: the job that the coordinator
-- sends to the winner, the reply, and the gossip topics.
use coordinator.Base.{ℕ, Text, Option}
use coordinator.Protocol.Types.{RequestId, SessionId}
use coordinator.Protocol.Token.{DispatchToken}

pub record InferenceDispatch : Type 0 where
  pub dispatch_token : DispatchToken
  pub session_key : Text
  pub new_user_message : Text
  pub memwal_context : Option Text

pub record InferenceReply : Type 0 where
  pub request_id : RequestId
  pub session_id : SessionId
  pub content : Text
  pub input_tokens : ℕ
  pub output_tokens : ℕ
  pub latency_ms : ℕ
  pub error : Option Text

-- The topics that carry something for the coordinator, and all others.
pub data Topic : Type 0 where
  bids announce inference_any reputation : Topic
