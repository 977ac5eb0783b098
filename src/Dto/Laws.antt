-- ===== src/Dto/Laws.antt =====
-- What the codes of src/dto/DTOs.hpp promise: distinct numbers, and payloads of the selected type.
use helicopter.Base.{ℕ, ◌≡◌, refl, sym, ap, ◌∙◌, some, ◌==◌, if◌then◌else◌}
use helicopter.Dto.{MessageCodes, code_value, Payload, PayloadType, MessageDto, payload_type}

-- The code with a given number.
decode : ℕ → MessageCodes
decode n =
    if n == 0
    then MessageCodes.outgoing_hello
    else if n == 1
    then MessageCodes.outgoing_ping
    else if n == 2
    then MessageCodes.incoming_pong
    else if n == 3
    then MessageCodes.outgoing_error
    else if n == 5
    then MessageCodes.outgoing_message
    else if n == 6
    then MessageCodes.incoming_broadcast
    else if n == 7
    then MessageCodes.incoming_direct_message
    else if n == 8
    then MessageCodes.incoming_synchronized_event
    else if n == 9
    then MessageCodes.outgoing_synchronized_event
    else if n == 101
    then MessageCodes.outgoing_host_client_joined
    else if n == 102
    then MessageCodes.outgoing_host_client_left
    else if n == 200
    then MessageCodes.incoming_host_kick_clients
    else if n == 300
    then MessageCodes.outgoing_client_kicked
    else if n == 400
    then MessageCodes.incoming_client_message
    else MessageCodes.outgoing_new_host

decode-code_value : (c : MessageCodes) → decode (code_value c) ≡ c
unfolding decode code_value
decode-code_value MessageCodes.outgoing_hello = refl
decode-code_value _ = refl

-- No two codes travel as the same number.
pub code_value-injective : (c d : MessageCodes) → code_value c ≡ code_value d → c ≡ d
code_value-injective c d e = sym (decode-code_value c) ∙ ap decode e ∙ decode-code_value d

-- The type of a payload that is there.
unfoldable pub type_of : Payload → PayloadType
type_of (Payload.hello m) = PayloadType.hello_type
type_of (Payload.int64 n) = PayloadType.int64_type
type_of (Payload.error e) = PayloadType.error_type
type_of (Payload.message m) = PayloadType.message_type
type_of (Payload.text t) = PayloadType.string_type
type_of (Payload.direct d) = PayloadType.direct_type
type_of (Payload.event e) = PayloadType.event_type
type_of (Payload.ids l) = PayloadType.ids_type

-- The payload is null or of the type that the selector gives, as in every message that the mapper
-- reads.
abbrev pub IsTyped : MessageDto → Type 0
IsTyped m = (p : Payload) → m.payload ≡ some p → payload_type m ≡ some (type_of p)
