-- ===== src/Runner/Servers.antt =====
-- Which configurations src/Runner.cpp accepts, and where the two APIs are then served.
use helicopter.Base.{
  ℕ, ◌≡◌, ◌≢◌, Bool, true, false, ◌&&◌, ◌||◌, Option, none, some, List, [], ◌∷◌, Str, arith,
  if◌then◌else◌, beq_str_iff,
}
use helicopter.Runner.{
  TlsConfigDto, ServerConfigDto, ConfigDto, Attempt, done, runtime_error, null_access, Controller,
  host_controller, client_controller, ConnectionProvider, openssl, tcp, ApiServer, is_same_address,
  make_runner,
}

abbrev is_some {ℓ} : {A : Type ℓ} → Option A → Bool
is_some none = false
is_some (some a) = true

abbrev has_tls_files : Option TlsConfigDto → Bool
has_tls_files none = true
has_tls_files (some t) = is_some t.pk_file && is_some t.chain_file

abbrev has_address : ServerConfigDto → Bool
has_address c = is_some c.host && is_some c.port

-- What a configuration needs: both addresses, and the files of each server that speaks TLS, where the
-- client's server counts only if it is a server of its own.
abbrev pub is_complete : ConfigDto → Bool
is_complete c = elim c.host_api_server [
  | none ↦ false
  | some host ↦ elim c.client_api_server [
    | none ↦ false
    | some client ↦
        has_address host
        && has_tls_files host.tls
        && has_address client
        && (is_same_address client host || has_tls_files client.tls)
  ]
]

abbrev pub is_done {ℓ} : {A : Type ℓ} → Attempt A → Bool
is_done (done a) = true
is_done (runtime_error e) = false
is_done null_access = false

-- The construction of the servers succeeds exactly for a complete configuration; and one that is not
-- complete is refused by an error, never by an access through a null pointer.
pub make_runner-is_complete :
    (c : ConfigDto) → (is_done (make_runner c) ≡ is_complete c) × (make_runner c ≢ null_access)
unfolding make_runner
make_runner-is_complete c = ground arith

-- The host, the port and whether the server speaks TLS.
abbrev pub Endpoint : Type 0
Endpoint = Str × Option ℕ × Bool

abbrev endpoint : ConnectionProvider → Endpoint
endpoint (openssl key chain host port) = (host, some port, true)
endpoint (tcp host port) = (host, some port, false)

abbrev beq_controller : Controller → Controller → Bool
beq_controller host_controller host_controller = true
beq_controller client_controller client_controller = true
beq_controller _ _ = false

abbrev has_controller : Controller → List Controller → Bool
has_controller k [] = false
has_controller k (j ∷ js) = beq_controller k j || has_controller k js

-- Where a controller can be reached.
pub endpoints : Controller → List ApiServer → List Endpoint
endpoints k [] = []
endpoints k (s ∷ ss) =
    if has_controller k s.router then endpoint s.provider ∷ endpoints k ss else endpoints k ss

-- Each API is served at its configured address and nowhere else, the host's with the host's choice of
-- TLS; the client's has its own choice too if its address is another, and else shares the host's.
pub make_runner-endpoints :
    (c : ConfigDto) (host client : ServerConfigDto) (servers : List ApiServer)
    → c.host_api_server ≡ some host
    → c.client_api_server ≡ some client
    → make_runner c ≡ done servers
    → (endpoints host_controller servers ≡ (host.host, host.port, is_some host.tls) ∷ [])
      × (endpoints client_controller servers
          ≡ (
            client.host,
            client.port,
            if is_same_address client host then is_some host.tls else is_some client.tls,
          )
            ∷ [])
unfolding make_runner endpoints
make_runner-endpoints c host client servers h k made =
    ground (arith, beq_str_iff client.host host.host)
