-- ===== src/App/Wiring.antt =====
-- Every component that the program of src/App.cpp asks for is there.
use helicopter.Base.{
  ℕ, ◌≡◌, refl, sym, ap, ◌∙◌, Bool, true, false, Option, none, some, List, [], ◌∷◌, Str, beq_str,
  beq_str_iff, ◌==◌, ==_iff, Bool-cases, inl, inr, arith, ◌&&◌, if◌then◌else◌,
}
use mathlib.Core.Path.{subst}
use helicopter.App.{app_config, game_config, start_server, run}
use helicopter.Runner.{done}
use helicopter.App.Components.{
  ComponentType, Service, configuration, games, async_executor, router, json_mapper,
  sessions_registry, socket_handler, component_rest_api, component_ws_api, Environment, server_of,
  get_component, make_registry, make_socket_handler, plain_components, make_components,
  game_components, peer_components, controller_components, config_of, run_with,
}

-- Types by number.
abbrev pub type_code : ComponentType → ℕ
type_code ComponentType.config_dto = 0
type_code ComponentType.games_config = 1
type_code ComponentType.executor = 2
type_code ComponentType.http_router = 3
type_code ComponentType.object_mapper = 4
type_code ComponentType.registry = 5
type_code ComponentType.connection_handler = 6

-- A component with its type and its qualifier.
abbrev pub Entry : Type 0
Entry = ComponentType × Str × Service

type_at : ℕ → ComponentType
type_at n =
    if n == 0
    then ComponentType.config_dto
    else if n == 1
    then ComponentType.games_config
    else if n == 2
    then ComponentType.executor
    else if n == 3
    then ComponentType.http_router
    else if n == 4
    then ComponentType.object_mapper
    else if n == 5
    then ComponentType.registry
    else ComponentType.connection_handler

type_at-type_code : (t : ComponentType) → type_at (type_code t) ≡ t
unfolding type_at
type_at-type_code ComponentType.config_dto = refl
type_at-type_code ComponentType.games_config = refl
type_at-type_code ComponentType.executor = refl
type_at-type_code ComponentType.http_router = refl
type_at-type_code ComponentType.object_mapper = refl
type_at-type_code ComponentType.registry = refl
type_at-type_code ComponentType.connection_handler = refl

pub same_type : (t u : ComponentType) → (type_code t == type_code u) ≡ true → t ≡ u
same_type t u e = sym (type_at-type_code t) ∙ ap type_at ((==_iff _ _).0 e) ∙ type_at-type_code u

abbrev differ : Str → Str → Bool
differ (some a) (some b) = if beq_str (some a) (some b) then false else true
differ none r = false
differ (some a) none = false

-- The second key is not in the way of a look-up under the first.
abbrev is_apart : ComponentType → Str → ComponentType → Str → Bool
is_apart t q u r = if type_code t == type_code u then differ q r else true

abbrev is_same : ComponentType → Str → ComponentType → Str → Bool
is_same t q u r = type_code t == type_code u && beq_str q r

abbrev is_free : ComponentType → Str → List Entry → Bool
is_free t q [] = true
is_free t q ((u, r, c) ∷ es) = is_apart t q u r && is_free t q es

-- One entry at most is under the key, and nothing else is in the way.
abbrev is_clear : ComponentType → Str → List Entry → Bool
is_clear t q [] = true
is_clear t q ((u, r, c) ∷ es) =
    let rest = is_clear t q es in
    if is_apart t q u r then rest else (is_same t q u r && is_free t q es)

abbrev find_entry : ComponentType → Str → List Entry → Option Service
find_entry t q [] = none
find_entry t q ((u, r, c) ∷ es) =
    let rest = find_entry t q es in if is_apart t q u r then rest else some c

module _ (env : Environment) where
  open env use {
    State, fresh, register, get, get_fresh, get_new, get_other_type, get_other_qualifier,
  }

  -- The environment with these entries, the latest first.
  abbrev holding : List Entry → State
  holding [] = fresh
  holding ((t, q, c) ∷ es) = register t q c (holding es)

  get-register_differ :
      (t : ComponentType) (q r : Str) (c : Service) (e : State)
      → differ q r ≡ true
      → get t q (register t r c e) ≡ get t q e
  get-register_differ t (some a) (some b) c e d =
      get_other_qualifier t a b c e
        (λ same. ground (arith, d, (beq_str_iff (some a) (some b)).1 (ap some same)))
  get-register_differ t none r c e d = absurd (cc d)
  get-register_differ t (some a) none c e d = absurd (cc d)

  get-register_apart :
      (t u : ComponentType) (q r : Str) (c : Service) (e : State)
      → is_apart t q u r ≡ true
      → get t q (register u r c e) ≡ get t q e
  get-register_apart t u q r c e apart = elim (Bool-cases (type_code t == type_code u)) [
    | inl same ↦
        subst (λ (v : ComponentType). get t q (register v r c e) ≡ get t q e) (same_type t u same)
          (get-register_differ t q r c e (rw same at apart))
    | inr other ↦
        get_other_type t u q r c e
          (λ same. ground (arith, other, (==_iff _ _).1 (ap type_code same)))
  ]

  get-register_same :
      (t u : ComponentType) (q r : Str) (c : Service) (e : State)
      → is_same t q u r ≡ true
      → get t q e ≡ none
      → get t q (register u r c e) ≡ some c
  get-register_same t u q r c e same new =
      subst (λ (v : ComponentType). get t q (register v r c e) ≡ some c)
        (same_type t u (ground (arith, same)))
        (subst (λ (v : Str). get t q (register t v c e) ≡ some c)
          ((beq_str_iff q r).0 (ground (arith, same))) (get_new t q c e new))

  get-free :
      (t : ComponentType) (q : Str) (es : List Entry)
      → is_free t q es ≡ true
      → get t q (holding es) ≡ none
  get-free t q [] free = get_fresh t q
  get-free t q ((u, r, c) ∷ es) free =
      get-register_apart t u q r c (holding es) (ground (arith, free))
      ∙ get-free t q es (ground (arith, free))

  get-holding :
      (t : ComponentType) (q : Str) (es : List Entry)
      → is_clear t q es ≡ true
      → get t q (holding es) ≡ find_entry t q es
  get-holding t q [] clear = get_fresh t q
  get-holding t q ((u, r, c) ∷ es) clear = elim (Bool-cases (is_apart t q u r)) [
    | inl apart ↦
        get-register_apart t u q r c (holding es) apart
        ∙ rw apart (get-holding t q es (rw apart at clear))
    | inr own ↦ rw own (
        get-register_same t u q r c (holding es) (ground (arith, clear, own))
          (get-free t q es (ground (arith, clear, own))))
  ]

abbrev the_registry : Service
the_registry =
    sessions_registry (configuration app_config) (games game_config) async_executor
      (json_mapper false)

abbrev the_handler : Service
the_handler = socket_handler async_executor the_registry

abbrev plain_entries : List Entry
plain_entries =
    (ComponentType.object_mapper, component_ws_api, json_mapper false)
    ∷ (ComponentType.object_mapper, component_rest_api, json_mapper false)
    ∷ (ComponentType.http_router, none, router)
    ∷ (ComponentType.executor, none, async_executor)
    ∷ (ComponentType.games_config, none, games game_config)
    ∷ (ComponentType.config_dto, none, configuration app_config)
    ∷ []

abbrev with_registry : List Entry
with_registry = (ComponentType.registry, none, the_registry) ∷ plain_entries

abbrev app_entries : List Entry
app_entries = (ComponentType.connection_handler, component_ws_api, the_handler) ∷ with_registry

module _ (env : Environment) where
  open env use {State}

  get_component-holding :
      (t : ComponentType) (q : Str) (es : List Entry) {c : Service}
      → is_clear t q es ≡ true
      → find_entry t q es ≡ some c
      → get_component env t q (holding env es) ≡ done c
  unfolding get_component
  get_component-holding t q es clear there =
      rw (get-holding env t q es clear ∙ there, get_component) refl

  make_registry-plain : make_registry env (holding env plain_entries) ≡ done the_registry
  unfolding make_registry
  make_registry-plain =
      rw
        (
          get_component-holding ComponentType.config_dto none plain_entries refl refl,
          get_component-holding ComponentType.games_config none plain_entries refl refl,
          get_component-holding ComponentType.executor none plain_entries refl refl,
          get_component-holding ComponentType.object_mapper component_ws_api plain_entries refl
              refl,
        )
        refl

  make_socket_handler-registry :
      make_socket_handler env (holding env with_registry) ≡ done the_handler
  unfolding make_socket_handler
  make_socket_handler-registry =
      rw
        (
          get_component-holding ComponentType.executor none with_registry refl refl,
          get_component-holding ComponentType.registry none with_registry refl refl,
        )
        refl

  make_components-eq : make_components env ≡ done (holding env app_entries)
  unfolding make_components plain_components
  make_components-eq = rw (make_registry-plain, make_socket_handler-registry) refl

  -- The constructor of the components finds what it asks for, in its order; after it games, peers and
  -- both controllers find theirs: the one executor, mappers that leave null fields out, and a handler of
  -- websockets whose listener is the registry, so that its server starts with the one game `snake`. With
  -- these components `main` runs the servers of the configuration that the program starts with.
  pub make_components-wired :
      (e : State) × (handler : Service) × (make_components env ≡ done e)
      × (game_components env e ≡ done async_executor)
      × (peer_components env e ≡ done (async_executor, json_mapper false))
      × (controller_components env e ≡ done (handler, json_mapper false))
      × (server_of handler ≡ some (start_server game_config))
      × (run_with env ≡ run)
  unfolding game_components peer_components controller_components server_of run_with config_of run
  make_components-wired =
      let executor = get_component-holding ComponentType.executor none app_entries refl refl in
      let config = get_component-holding ComponentType.config_dto none app_entries refl refl in
      let socket_mapper =
        get_component-holding ComponentType.object_mapper component_ws_api app_entries refl refl in
      let api_mapper =
        get_component-holding ComponentType.object_mapper component_rest_api app_entries refl
          refl in
      let handler =
        get_component-holding ComponentType.connection_handler component_ws_api app_entries refl
          refl in
      (
        holding env app_entries,
        the_handler,
        make_components-eq,
        executor,
        rw (executor, socket_mapper) refl,
        rw (handler, api_mapper) refl,
        refl,
        rw (make_components-eq, config, executor) refl,
      )
