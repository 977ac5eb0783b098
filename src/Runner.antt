-- ===== src/Runner.antt =====
-- src/Runner.hpp, src/Runner.cpp and src/config/Config.hpp: the check of the server configuration, and
-- the HTTP servers with their controllers that the program makes of it. Threads and the connections
-- themselves are the oatpp library's.
pub mod Servers
use helicopter.Base.{
  ℕ, ◌==◌, Bool, true, false, ◌&&◌, Option, none, some, List, [], ◌∷◌, ◌++◌, Str, String, beq_str,
  if◌then◌else◌,
}
use Prim.Native.String.{◌++◌ as str_append}

pub record TlsConfigDto : Type 0 where
  pub pk_file : Str
  pub chain_file : Str

pub record ServerConfigDto : Type 0 where
  pub host : Str
  pub port : Option ℕ
  pub tls : Option TlsConfigDto

pub record ConfigDto : Type 0 where
  pub host_api_server : Option ServerConfigDto
  pub client_api_server : Option ServerConfigDto
  pub games_config_file : Str

-- A `runtime_error` is caught by nobody; `null_access` is an access through a null pointer.
pub data Attempt {ℓ} (A : Type ℓ) : Type ℓ where
  done : A → Attempt A
  runtime_error : String → Attempt A
  null_access : Attempt A

infixl 5 ◌>>=◌ ◌>>◌
abbrev pub ◌>>=◌ {ℓ κ} : {A : Type ℓ} {B : Type κ} → Attempt A → (A → Attempt B) → Attempt B
done a >>= f = f a
runtime_error e >>= f = runtime_error e
null_access >>= f = null_access

abbrev pub ◌>>◌ {ℓ} : {B : Type ℓ} → Attempt (Unit {0}) → Attempt B → Attempt B
m >> k = m >>= λ _. k

abbrev pub missing_value : String → Attempt (Unit {0})
missing_value name =
    runtime_error (str_append "Error: Missing config value - '" (str_append name "'"))

abbrev pub require {ℓ} : {A : Type ℓ} → Option A → String → Attempt (Unit {0})
require none name = missing_value name
require (some a) name = done tt

-- An access `p->...`.
abbrev pub deref {ℓ} : {A : Type ℓ} → Option A → Attempt A
deref none = null_access
deref (some a) = done a

unfoldable pub assert_tls : Option TlsConfigDto → String → Attempt (Unit {0})
assert_tls none name = done tt
assert_tls (some t) name = do
  require t.pk_file (str_append name ".tls.pkFile")
  require t.chain_file (str_append name ".tls.chainFile")

unfoldable pub assert_server_config : Option ServerConfigDto → String → Bool → Attempt (Unit {0})
unfolding assert_tls
assert_server_config none name check_tls = missing_value name
assert_server_config (some c) name check_tls = do
  require c.host (str_append name ".host")
  require c.port (str_append name ".port")
  if check_tls then assert_tls c.tls name else done tt

pub data Controller : Type 0 where
  host_controller client_controller : Controller

-- The provider of an `APIServer`: over TLS with the two files, or plain.
pub data ConnectionProvider : Type 0 where
  openssl : String → String → Str → ℕ → ConnectionProvider
  tcp : Str → ℕ → ConnectionProvider

pub record ApiServer : Type 0 where
  pub provider : ConnectionProvider
  pub router : List Controller

unfoldable pub make_provider : ServerConfigDto → Attempt ConnectionProvider
make_provider c = elim c.tls [
  | none ↦ do port ← deref c.port; done (tcp c.host port)
  | some t ↦ do
    key ← deref t.pk_file
    chain ← deref t.chain_file
    port ← deref c.port
    done (openssl key chain c.host port)
]

-- The constructor, and `addController` for the one controller that follows it.
unfoldable pub make_api_server : ServerConfigDto → Controller → Attempt ApiServer
unfolding make_provider
make_api_server c k = do
  provider ← make_provider c
  done (record { provider = provider; router = k ∷ [] })

abbrev pub beq_port : Option ℕ → Option ℕ → Bool
beq_port none none = true
beq_port none (some b) = false
beq_port (some a) none = false
beq_port (some a) (some b) = a == b

abbrev pub is_same_address : ServerConfigDto → ServerConfigDto → Bool
is_same_address a b = beq_str a.host b.host && beq_port a.port b.port

-- The second half of `Runner::Runner`, from the comparison of the addresses on.
unfoldable pub add_client_server :
    ServerConfigDto → ServerConfigDto → ApiServer → Attempt (List ApiServer)
unfolding assert_server_config make_api_server
add_client_server client host server =
    if is_same_address client host
    then done (record server { router = server.router ++ client_controller ∷ [] } ∷ [])
    else (do
      assert_server_config (some client) "clientAPIServer" true
      second ← make_api_server client client_controller
      done (server ∷ second ∷ []))

-- `Runner::Runner`: the list `m_servers`.
unfoldable pub make_runner : ConfigDto → Attempt (List ApiServer)
unfolding assert_server_config make_api_server add_client_server
make_runner c = do
  assert_server_config c.host_api_server "hostAPIServer" true
  host ← deref c.host_api_server
  server ← make_api_server host host_controller
  assert_server_config c.client_api_server "clientAPIServer" false
  client ← deref c.client_api_server
  add_client_server client host server

-- What is done with the thread of a server: it runs the server, and is waited for.
pub data ThreadCall : Type 0 where
  run_server join_server : ApiServer → ThreadCall

unfoldable pub start : List ApiServer → List ThreadCall
start [] = []
start (s ∷ ss) = run_server s ∷ start ss

unfoldable pub join : List ApiServer → List ThreadCall
join [] = []
join (s ∷ ss) = join_server s ∷ join ss
