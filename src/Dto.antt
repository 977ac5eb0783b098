-- ===== src/Dto.antt =====
-- src/dto/DTOs.hpp: the messages between the server and the peers, with their numeric codes and the
-- type of payload that each code selects. A nullable field is an `Option`.
pub mod Laws
use helicopter.Base.{ℕ, ◌≡◌, Bool, true, false, Option, none, some, List, Str, String}
use helicopter.Word.{Int64}

pub data MessageCodes : Type 0 where
  outgoing_hello outgoing_ping incoming_pong outgoing_error outgoing_new_host : MessageCodes
  outgoing_message incoming_broadcast incoming_direct_message : MessageCodes
  incoming_synchronized_event outgoing_synchronized_event : MessageCodes
  outgoing_host_client_joined outgoing_host_client_left : MessageCodes
  incoming_host_kick_clients outgoing_client_kicked incoming_client_message : MessageCodes

-- The number of a code, as it travels.
unfoldable pub code_value : MessageCodes → ℕ
code_value outgoing_hello = 0
code_value outgoing_ping = 1
code_value incoming_pong = 2
code_value outgoing_error = 3
code_value outgoing_new_host = 4
code_value outgoing_message = 5
code_value incoming_broadcast = 6
code_value incoming_direct_message = 7
code_value incoming_synchronized_event = 8
code_value outgoing_synchronized_event = 9
code_value outgoing_host_client_joined = 101
code_value outgoing_host_client_left = 102
code_value incoming_host_kick_clients = 200
code_value outgoing_client_kicked = 300
code_value incoming_client_message = 400

pub data ErrorCodes : Type 0 where
  bad_request game_not_found session_not_found : ErrorCodes
  operation_not_permitted bad_message invalid_state : ErrorCodes

pub record ErrorDto : Type 0 where
  pub code : ErrorCodes
  pub message : Str

pub record HelloMessageDto : Type 0 where
  pub peer_id : Int64
  pub is_host : Bool

-- An id in the list may be null, and so may the list.
pub record DirectMessageDto : Type 0 where
  pub peer_ids : Option (List (Option Int64))
  pub text : Str

pub record OutgoingMessageDto : Type 0 where
  pub peer_id : Int64
  pub text : Str

pub record OutgoingSynchronizedMessageDto : Type 0 where
  pub event_id : Int64
  pub peer_id : Int64
  pub text : Str

-- The values that the `oatpp::Any` of a message holds; a null one is `none` in the message.
pub data Payload : Type 0 where
  hello : HelloMessageDto → Payload
  int64 : Int64 → Payload
  error : ErrorDto → Payload
  message : OutgoingMessageDto → Payload
  text : String → Payload
  direct : DirectMessageDto → Payload
  event : OutgoingSynchronizedMessageDto → Payload
  ids : List (Option Int64) → Payload

pub record MessageDto : Type 0 where
  pub code : Option MessageCodes
  pub ocid : Str
  pub payload : Option Payload

-- `MessageDto::createShared(code, payload)`, with no correlation id.
abbrev pub make_message : MessageCodes → Payload → MessageDto
make_message c p = record { code = some c; ocid = none; payload = some p }

-- The types that the selector returns.
pub data PayloadType : Type 0 where
  void_type hello_type int64_type error_type message_type string_type : PayloadType
  direct_type event_type ids_type : PayloadType

-- The switch of `DTO_FIELD_TYPE_SELECTOR(payload)`; `none` is the exception "not implemented".
unfoldable pub select_code : MessageCodes → Option PayloadType
select_code outgoing_hello = some hello_type
select_code outgoing_ping = some int64_type
select_code incoming_pong = some int64_type
select_code outgoing_error = some error_type
select_code outgoing_message = some message_type
select_code incoming_broadcast = some string_type
select_code incoming_direct_message = some direct_type
select_code incoming_synchronized_event = some string_type
select_code outgoing_synchronized_event = some event_type
select_code outgoing_host_client_joined = some int64_type
select_code outgoing_host_client_left = some int64_type
select_code incoming_host_kick_clients = some ids_type
select_code outgoing_client_kicked = some string_type
select_code incoming_client_message = some string_type
select_code outgoing_new_host = none

unfoldable pub payload_type : MessageDto → Option PayloadType
unfolding select_code
payload_type m = elim m.code [ none ↦ some void_type | some c ↦ select_code c ]
