-- ===== src/App/Components.antt =====
-- The components of src/AppComponent.hpp, and who asks for which: src/App.cpp, Registry.hpp, Peer.hpp and
-- Game.hpp of src/game/, and src/controller/. The environment that holds them is the oatpp library's.
use helicopter.Base.{◌≡◌, ◌≢◌, Bool, false, Option, none, some, List, ◌++◌, Str, String}
use helicopter.Config.{Games}
use helicopter.Heap.{Heap}
use helicopter.Runner.{
  ConfigDto, Attempt, done, runtime_error, ◌>>=◌, ThreadCall, make_runner, start, join,
}
use helicopter.App.{app_config, game_config, start_server}

-- `Constants::COMPONENT_REST_API`, `COMPONENT_WS_API`
abbrev pub component_rest_api : Str
component_rest_api = some "REST_API"

abbrev pub component_ws_api : Str
component_ws_api = some "WS_API"

-- The types under which components are registered.
pub data ComponentType : Type 0 where
  config_dto games_config executor http_router object_mapper registry connection_handler :
      ComponentType

-- The components. A mapper writes null fields or leaves them out; the registry holds the four components
-- that it asks for; the handler of websockets has an executor and a listener.
pub data Service : Type 0 where
  configuration : ConfigDto → Service
  games : Games → Service
  async_executor router : Service
  json_mapper : Bool → Service
  sessions_registry : Service → Service → Service → Service → Service
  socket_handler : Service → Service → Service

-- `oatpp::base::Environment`: a component that is new under its type and qualifier is found under them;
-- a component of another type does not come in between, nor, where both are qualified, one of another
-- qualifier.
pub record Environment : Type 1 where
  pub State : Type 0
  pub fresh : State
  pub register : ComponentType → Str → Service → State → State
  pub get : ComponentType → Str → State → Option Service
  pub error_text : String
  pub get_fresh : (t : ComponentType) (q : Str) → get t q fresh ≡ none
  pub get_new :
      (t : ComponentType) (q : Str) (c : Service) (e : State)
      → get t q e ≡ none
      → get t q (register t q c e) ≡ some c
  pub get_other_type :
      (t u : ComponentType) (q r : Str) (c : Service) (e : State)
      → t ≢ u
      → get t q (register u r c e) ≡ get t q e
  pub get_other_qualifier :
      (t : ComponentType) (a b : String) (c : Service) (e : State)
      → a ≢ b
      → get t (some a) (register t (some b) c e) ≡ get t (some a) e

-- The games with which the server behind a handler of websockets starts.
unfoldable pub server_of : Service → Option Heap
server_of (socket_handler x (sessions_registry c (games g) y m)) = some (start_server g)
server_of _ = none

module _ (env : Environment) where
  open env use {State, fresh, register, get, error_text}

  -- `OATPP_COMPONENT`, which throws where there is none.
  unfoldable pub get_component : ComponentType → Str → State → Attempt Service
  get_component t q e = elim (get t q e) [ none ↦ runtime_error error_text | some c ↦ done c ]

  -- `Registry::Registry`, by its fields.
  unfoldable pub make_registry : State → Attempt Service
  unfolding get_component
  make_registry e = do
    config ← get_component ComponentType.config_dto none e
    configs ← get_component ComponentType.games_config none e
    x ← get_component ComponentType.executor none e
    mapper ← get_component ComponentType.object_mapper component_ws_api e
    done (sessions_registry config configs x mapper)

  unfoldable pub make_socket_handler : State → Attempt Service
  unfolding get_component
  make_socket_handler e = do
    x ← get_component ComponentType.executor none e
    listener ← get_component ComponentType.registry none e
    done (socket_handler x listener)

  -- What does not ask for others, in the order of the class.
  unfoldable pub plain_components : State
  plain_components = register ComponentType.object_mapper component_ws_api (json_mapper false) (
      register ComponentType.object_mapper component_rest_api (json_mapper false) (
        register ComponentType.http_router none router (
          register ComponentType.executor none async_executor (
            register ComponentType.games_config none (games game_config)
              (register ComponentType.config_dto none (configuration app_config) fresh)))))

  -- `AppComponent::AppComponent`
  unfoldable pub make_components : Attempt State
  unfolding plain_components make_registry make_socket_handler
  make_components = do
    sessions ← make_registry plain_components
    let e = register ComponentType.registry none sessions plain_components
    handler ← make_socket_handler e
    done (register ComponentType.connection_handler component_ws_api handler e)

  -- The fields of a `Game`, of a `Peer` and of either controller.
  unfoldable pub game_components : State → Attempt Service
  unfolding get_component
  game_components e = get_component ComponentType.executor none e

  unfoldable pub peer_components : State → Attempt (Service × Service)
  unfolding get_component
  peer_components e = do
    x ← get_component ComponentType.executor none e
    mapper ← get_component ComponentType.object_mapper component_ws_api e
    done (x, mapper)

  unfoldable pub controller_components : State → Attempt (Service × Service)
  unfolding get_component
  controller_components e = do
    handler ← get_component ComponentType.connection_handler component_ws_api e
    mapper ← get_component ComponentType.object_mapper component_rest_api e
    done (handler, mapper)

  -- What is registered as a `ConfigDto` is one: there is no other case.
  unfoldable pub config_of : Service → Attempt ConfigDto
  config_of (configuration c) = done c
  config_of _ = runtime_error error_text

  -- `run` of src/App.cpp with the components that it gets.
  unfoldable pub run_with : Attempt (List ThreadCall)
  unfolding make_components get_component config_of make_runner start join
  run_with = do
    e ← make_components
    found ← get_component ComponentType.config_dto none e
    config ← config_of found
    x ← get_component ComponentType.executor none e
    servers ← make_runner config
    done (start servers ++ join servers)
