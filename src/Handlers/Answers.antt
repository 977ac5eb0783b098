-- ===== src/Handlers/Answers.antt =====
-- What the answer of a handler or of `readMessage` in src/game/Peer.cpp does on the peer's socket.
use helicopter.Base.{ℕ, ◌≡◌, refl, Bool, none, some, Option, List, [], ◌∷◌, String, if◌then◌else◌}
use helicopter.Dto.{MessageDto, Payload, ErrorCodes, outgoing_error}
use helicopter.Peer.{
  Peer, Starter, SocketCall, text_frame, close_frame, starter_calls, send_error_async,
}
use helicopter.Handlers.{Result, ok, fault}

-- The calls of the coroutine that is answered, if no call fails.
unfoldable pub answer_calls : Result (Option Starter) → List SocketCall
answer_calls (fault e) = []
answer_calls (ok none) = []
answer_calls (ok (some s)) = starter_calls s

-- The message of an error with its code and its text.
abbrev pub error_message : ErrorCodes → String → MessageDto
error_message c text = record {
  code = some outgoing_error;
  ocid = none;
  payload = some (Payload.error (record { code = c; message = some text }));
}

-- An error is sent to the socket of its peer, and a fatal one closes it.
pub send_error_async-calls :
    (c : ErrorCodes) (text : String) (fatal : Bool) (p : Peer) {socket : ℕ}
    → p.socket ≡ some socket
    → answer_calls (ok (send_error_async (record { code = c; message = some text }) fatal p))
      ≡ text_frame (error_message c text) ∷ (if fatal then close_frame ∷ [] else [])
unfolding answer_calls send_error_async starter_calls
send_error_async-calls c text fatal p there = rw (there, send_error_async) refl
