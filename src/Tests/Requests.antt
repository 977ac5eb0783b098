-- ===== src/Tests/Requests.antt =====
-- Requests of peers at concrete inputs.
use helicopter.Base.{
  ℕ, ◌≡◌, refl, true, none, some, List, [], ◌∷◌, arith, nat_eq, str_eq_inst, length, ◌≤◌, ◌==◌,
  false,
}
use helicopter.Dto.{
  MessageDto, Payload, make_message, incoming_pong, incoming_host_kick_clients, payload_type,
}
use helicopter.Dto.Laws.{IsTyped, type_of}
use helicopter.Heap.{Heap}
use helicopter.Session.{make_session, report_peer_pong}
use helicopter.Peer.{Peer, check_pings_rules}
use helicopter.Handlers.{ok, handle_pong, handle_message}
use mathlib.Core.List.{flatten}
use helicopter.Handlers.Answers.{answer_calls, error_message}
use helicopter.Dto.{bad_message}
use helicopter.Peer.{text_frame, close_frame}
use helicopter.Handlers.Pong.{handle_pong_lem}
use helicopter.Handlers.Typed.{is_ok, handle_message-is_ok}
use helicopter.Reading.{Mapper, parsed, read_message}
use helicopter.Reading.Frames.{read_frames, gather, whole, read_message-gather, read_message-gap}
use helicopter.Session.BestPing.{Event, ping, pong, run, step, IsBest, run-IsBest}
use helicopter.Tests.{config, session, server}

abbrev kick_two : MessageDto
kick_two = make_message incoming_host_kick_clients (Payload.ids (some 2 ∷ some 0 ∷ []))

kick_two-IsTyped : IsTyped kick_two
unfolding payload_type type_of
kick_two-IsTyped p e = ground arith

handle_message-is_ok_example : is_ok (handle_message 7 1 (some kick_two) server).0 ≡ true
handle_message-is_ok_example = handle_message-is_ok 7 1 kick_two server kick_two-IsTyped

-- A mapper that reads every text as the kick.
abbrev pub mapper : Mapper
mapper = record {
  read_from_string = λ text. parsed (some kick_two);
  size_error_text = λ n. "too long";
}

read_message-gather_example :
    let text = gather 8 [] ((1 ∷ 2 ∷ []) ∷ (3 ∷ []) ∷ []) in
    (read_message mapper 7 1 [] (read_frames mapper 7 1 ((1 ∷ 2 ∷ []) ∷ (3 ∷ []) ∷ []) server)
      ≡ whole mapper 7 1 text server)
    × (length text ≤ 8)
read_message-gather_example =
    read_message-gather mapper 7 1 ((1 ∷ 2 ∷ []) ∷ (3 ∷ []) ∷ []) server (ground arith) refl

abbrev large : List ℕ
large = 1 ∷ 2 ∷ 3 ∷ 4 ∷ 5 ∷ 6 ∷ 7 ∷ 8 ∷ []

read_message-gap_example :
    let k = read_frames mapper 7 1 ((1 ∷ 2 ∷ []) ∷ []) server in
    let (reply, l) = read_message mapper 7 1 large k in
    (answer_calls reply
      ≡ text_frame (error_message bad_message (mapper.size_error_text 8)) ∷ close_frame ∷ [])
    × (l ≡ k)
    × (read_message mapper 7 1 [] (read_frames mapper 7 1 ((3 ∷ []) ∷ []) l)
        ≡ whole mapper 7 1 (1 ∷ 2 ∷ 3 ∷ []) server)
unfolding flatten
read_message-gap_example =
    read_message-gap mapper 7 1 ((1 ∷ 2 ∷ []) ∷ []) ((3 ∷ []) ∷ []) large server (ground arith)
      (ground arith) refl (omega arith) (omega arith) refl

abbrev history : List Event
history = ping 100 ∷ pong 130 1 100 ∷ pong 110 2 100 ∷ pong 115 1 99 ∷ []

run-IsBest_example :
    IsBest
      (run history (make_session (some "s") config, [])).0
      (run history (make_session (some "s") config, [])).1
unfolding run step report_peer_pong
run-IsBest_example = run-IsBest (some "s") config history (ground arith)

-- The session of three was pinged at 100.
abbrev waiting : Heap
waiting = record server { sessions = λ s. record session { ping_current_timestamp = 100 } }

abbrev pong_100 : MessageDto
pong_100 = make_message incoming_pong (Payload.int64 100)

handle_pong_lem_example :
    let k = (handle_pong 130 1 pong_100 waiting).1 in
    let check = λ (p : Peer). (check_pings_rules 100 config p).0 in
    ((handle_pong 130 1 pong_100 waiting).0 ≡ ok none)
    × ((q : ℕ) → (q == 1) ≡ false → k.peers q ≡ waiting.peers q)
    × ((k.peers 1).failed_pings ≡ 0)
    × ((check (k.peers 1)).socket ≡ some 11)
handle_pong_lem_example = handle_pong_lem 130 100 1 pong_100 waiting refl (omega arith)
