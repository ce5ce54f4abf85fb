-- ===== src/Wire/Types.antt =====
-- The messages of Envoy's ext_proc protocol, as far as the program reads and writes them.
use envoy_mcp_openapi_proces.Common.{ℕ, Bool, List, Option, Bytes}

-- `corev3.HeaderValue`
pub record HeaderValue : Type 0 where
  pub key : Bytes
  pub raw_value : Bytes

pub data AppendAction : Type 0 where
  append_if_exists_or_add add_if_absent overwrite_if_exists_or_add overwrite_if_exists :
      AppendAction

-- `corev3.HeaderValueOption`
pub record HeaderValueOption : Type 0 where
  pub header : HeaderValue
  pub append_action : AppendAction

pub record HeaderMutation : Type 0 where
  pub set_headers : List HeaderValueOption
  pub remove_headers : List Bytes

-- `extProcPb.StreamedBodyResponse`
pub record StreamedBody : Type 0 where
  pub body : Bytes
  pub end_of_stream : Bool

pub data BodyMutation : Type 0 where
  whole : Bytes → BodyMutation
  streamed : StreamedBody → BodyMutation

pub data ResponseStatus : Type 0 where
  continue continue_and_replace : ResponseStatus

pub record CommonResponse : Type 0 where
  pub status : ResponseStatus
  pub header_mutation : Option HeaderMutation
  pub body_mutation : Option BodyMutation

pub record ImmediateResponse : Type 0 where
  pub status : ℕ
  pub headers : Option HeaderMutation
  pub body : Bytes

-- `extProcPb.ProcessingResponse`, by the member of its oneof.
pub data ProcessingResponse : Type 0 where
  request_headers response_headers : CommonResponse → ProcessingResponse
  request_body response_body : CommonResponse → ProcessingResponse
  request_trailers response_trailers : ProcessingResponse
  immediate : ImmediateResponse → ProcessingResponse

pub record StreamedMutation : Type 0 where
  pub headers : ProcessingResponse
  pub body : Bytes

pub record MessageFactory : Type 0 where
  pub wrap_headers : CommonResponse → ProcessingResponse
  pub wrap_body : CommonResponse → ProcessingResponse
  pub trailer : ProcessingResponse
