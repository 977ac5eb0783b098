-- ===== src/Tests/Wiring.antt =====
-- An environment that is a list of what was registered.
use helicopter.Base.{
  ◌≡◌, ◌≢◌, refl, false, Option, none, some, List, [], ◌∷◌, Str, String, beq_str, beq_str_iff, ◌==◌,
  ◌&&◌, if◌then◌else◌, arith, beq_refl, str_eq_inst,
}
use helicopter.App.{game_config, start_server, run}
use helicopter.Runner.{done}
use helicopter.App.Components.{
  ComponentType, Service, async_executor, json_mapper, Environment, server_of, make_components,
  game_components, peer_components, controller_components, run_with,
}
use helicopter.App.Wiring.{type_code, same_type, Entry, make_components-wired}

abbrev find_exact : ComponentType → Str → List Entry → Option Service
find_exact t q [] = none
find_exact t q ((u, r, c) ∷ es) =
    let rest = find_exact t q es in
    if type_code t == type_code u && beq_str q r then some c else rest

find_exact-new :
    (t : ComponentType) (q : Str) (c : Service) (es : List Entry)
    → find_exact t q ((t, q, c) ∷ es) ≡ some c
find_exact-new t q c es = ground (arith, beq_refl q)

find_exact-type :
    (t u : ComponentType) (q r : Str) (c : Service) (es : List Entry)
    → t ≢ u
    → find_exact t q ((u, r, c) ∷ es) ≡ find_exact t q es
find_exact-type t u q r c es other = ground (arith, other, same_type t u)

find_exact-qualifier :
    (t : ComponentType) (a b : String) (c : Service) (es : List Entry)
    → a ≢ b
    → find_exact t (some a) ((t, some b, c) ∷ es) ≡ find_exact t (some a) es
find_exact-qualifier t a b c es other = ground (arith, other, beq_str_iff (some a) (some b))

abbrev listed : Environment
listed = record {
  State = List Entry;
  fresh = [];
  register = λ t q c es. (t, q, c) ∷ es;
  get = find_exact;
  error_text = "component not found";
  get_fresh = λ t q. refl;
  get_new = λ t q c es new. find_exact-new t q c es;
  get_other_type = find_exact-type;
  get_other_qualifier = find_exact-qualifier;
}

make_components-wired_example :
    (e : List Entry) × (handler : Service) × (make_components listed ≡ done e)
    × (game_components listed e ≡ done async_executor)
    × (peer_components listed e ≡ done (async_executor, json_mapper false))
    × (controller_components listed e ≡ done (handler, json_mapper false))
    × (server_of handler ≡ some (start_server game_config))
    × (run_with listed ≡ run)
make_components-wired_example = make_components-wired listed
