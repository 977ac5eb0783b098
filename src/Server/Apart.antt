-- ===== src/Server/Apart.antt =====
-- Outside of one session of src/game/: other sessions and their peers, the registry and the games.
pub mod Frames
use mathlib.Core.Path.{subst}
use helicopter.Base.{
  ℕ, ◌+◌, ◌^◌, ◌≤◌, ◌<◌, ◌==◌, ◌≡◌, ◌≢◌, refl, sym, ap, ◌∙◌, Bool, true, false, some, List, [], ◌∷◌,
  ◌++◌, map, All, inl, inr, Bool-cases, ==_iff, arith, nat_eq, Str, for_each, length, if◌then◌else◌,
}
use mathlib.Core.List.{append-nil}
use helicopter.Word.{Int64}
use helicopter.Dict.{Dict, find, values}
use helicopter.Config.{Games, GameConfigDto}
use helicopter.Dto.{MessageDto}
use helicopter.App.{start_server}
use helicopter.Peer.{Peer, Effect, kick, record_pong}
use helicopter.Session.{Session, report_peer_pong}
use helicopter.Heap.{
  Heap, ServerEffect, of_peer, start_pinger, start_socket_error, invalidate_unbound, on_peer,
  queue_to, queued, session_of,
}
use helicopter.Heap.Loops.{IsFrame, IsFrame-refl, on_peer-peers, on_peer-IsFrame}
use helicopter.Members.{set_session, get_all_peers, broadcast_synchronized_event}
use helicopter.Members.Joining.{Named}
use helicopter.Handlers.{relayed, retrieve_string, handle_synchronized_event}
use helicopter.Reading.{Mapper, set_buffer, read_message}
use helicopter.Server.{Reach}
use helicopter.Server.Core.{IsCore, queue_to-IsCore, on_peer-IsCore, record_pong-IsKind}
use helicopter.Server.Invariant.{IsGood}
use helicopter.Server.Messages.{IsCore-IsFrameRule, set_buffer-IsCore}
use helicopter.Server.Methods.{server-IsGood}
use helicopter.Server.Rules.{IsReadRule, IsWithin, for_each_kept}
use helicopter.Server.Receives.{Result-cases}
use helicopter.Server.Reads.{read_message_within, reset-IsWithin}

-- What was handed to the executor for peer `q` or done to its socket, in order.
unfoldable pub effects_of : ℕ → List ServerEffect → List Effect
effects_of q [] = []
effects_of q (of_peer r e ∷ fx) = let rest = effects_of q fx in if r == q then e ∷ rest else rest
effects_of q (start_pinger g ∷ fx) = effects_of q fx
effects_of q (start_socket_error s m b ∷ fx) = effects_of q fx
effects_of q (invalidate_unbound s ∷ fx) = effects_of q fx

-- Outside the session `s` nothing is different.
pub record IsApart (s : ℕ) (h k : Heap) : Type 0 where
  pub stay : (q : ℕ) → (k.peers q).game_session ≡ (h.peers q).game_session
  pub peers : (q : ℕ) → (h.peers q).game_session ≢ s → k.peers q ≡ h.peers q
  pub effects :
      (q : ℕ) → (h.peers q).game_session ≢ s → effects_of q k.effects ≡ effects_of q h.effects
  pub sessions : (t : ℕ) → t ≢ s → k.sessions t ≡ h.sessions t
  pub rest : IsFrame h (record k { sessions = h.sessions })

pub effects_of-append :
    (q : ℕ) (a b : List ServerEffect) → effects_of q (a ++ b) ≡ effects_of q a ++ effects_of q b
unfolding effects_of
effects_of-append q [] b = refl
effects_of-append q (of_peer r e ∷ a) b = ground (arith, effects_of-append q a b)
effects_of-append q (start_pinger g ∷ a) b = effects_of-append q a b
effects_of-append q (start_socket_error s m c ∷ a) b = effects_of-append q a b
effects_of-append q (invalidate_unbound s ∷ a) b = effects_of-append q a b

pub effects_of-other :
    (q r : ℕ) (fx : List Effect) → (r == q) ≡ false → effects_of q (map (of_peer r) fx) ≡ []
unfolding effects_of
effects_of-other q r [] other = refl
effects_of-other q r (e ∷ fx) other = rw other (effects_of-other q r fx other)

pub on_peer-effects_of :
    (f : GameConfigDto → Peer → Peer × List Effect) (r q : ℕ) (h : Heap)
    → (r == q) ≡ false
    → effects_of q (on_peer f r h).effects ≡ effects_of q h.effects
unfolding on_peer
on_peer-effects_of f r q h other =
    effects_of-append q h.effects _ ∙ rw (effects_of-other q r _ other) (append-nil _)

outsider :
    {s : ℕ} (r q : ℕ) (h : Heap)
    → (h.peers r).game_session ≡ s
    → (h.peers q).game_session ≢ s
    → (r == q) ≡ false
outsider {s} r q h own other = elim (Bool-cases (r == q)) [
  | inl same ↦
      absurd (other (subst (λ (x : ℕ). (h.peers x).game_session ≡ s) ((==_iff r q).0 same) own))
  | inr apart ↦ apart
]

-- Sessions apart.
abbrev IsRest : Heap → Heap → Type 0
IsRest h k = IsFrame h (record k { sessions = h.sessions })

IsFrame-IsRest : {h k : Heap} → IsFrame h k → IsRest h k
IsFrame-IsRest {h} {k} f = record {
  sessions = refl;
  games = f.games;
  listeners = f.listeners;
  games_by_id = f.games_by_id;
  configs = f.configs;
  next_peer = f.next_peer;
  next_session = f.next_session;
  next_game = f.next_game;
}

module _ (s : ℕ) where
  abbrev pub InSession : Heap → ℕ → Type 0
  InSession h r = (h.peers r).game_session ≡ s

  pub IsApart-refl : (h : Heap) → IsApart s h h
  IsApart-refl h = record {
    stay = λ q. refl;
    peers = λ q other. refl;
    effects = λ q other. refl;
    sessions = λ t other. refl;
    rest = IsFrame-refl h;
  }

  pub IsApart-trans : {h k l : Heap} → IsApart s h k → IsApart s k l → IsApart s h l
  IsApart-trans {h} {k} {l} a b = record {
    stay = λ q. b.stay q ∙ a.stay q;
    peers = λ q other. b.peers q (λ e. other (sym (a.stay q) ∙ e)) ∙ a.peers q other;
    effects = λ q other. b.effects q (λ e. other (sym (a.stay q) ∙ e)) ∙ a.effects q other;
    sessions = λ t other. b.sessions t other ∙ a.sessions t other;
    rest = record {
      sessions = refl;
      games = b.rest.games ∙ a.rest.games;
      listeners = b.rest.listeners ∙ a.rest.listeners;
      games_by_id = b.rest.games_by_id ∙ a.rest.games_by_id;
      configs = b.rest.configs ∙ a.rest.configs;
      next_peer = b.rest.next_peer ∙ a.rest.next_peer;
      next_session = b.rest.next_session ∙ a.rest.next_session;
      next_game = b.rest.next_game ∙ a.rest.next_game;
    };
  }

  pub on_peer-IsApart :
      (f : GameConfigDto → Peer → Peer × List Effect) (r : ℕ) (h : Heap)
      → IsCore h (on_peer f r h)
      → InSession h r
      → IsApart s h (on_peer f r h)
  on_peer-IsApart f r h core own = record {
    stay = core.game_session;
    peers = λ q other. on_peer-peers f r q h ∙ rw (outsider r q h own other) refl;
    effects = λ q other. on_peer-effects_of f r q h (outsider r q h own other);
    sessions = λ t other. ap (λ (ss : ℕ → Session). ss t) (on_peer-IsFrame f r h).sessions;
    rest = IsFrame-IsRest (on_peer-IsFrame f r h);
  }

  pub set_session-IsApart :
      (t : ℕ) (v : Session) (h : Heap) → t ≡ s → IsApart s h (set_session t v h)
  set_session-IsApart t v h own = record {
    stay = λ q. refl;
    peers = λ q other. refl;
    effects = λ q other. refl;
    sessions = λ u other. ground (arith, own, other);
    rest = IsFrame-refl h;
  }

  pub queue_to-IsApart :
      (m : MessageDto) (r : ℕ) (h : Heap) → InSession h r → IsApart s h (queue_to r m h)
  unfolding queue_to
  queue_to-IsApart m r h own = on_peer-IsApart (queued m) r h (queue_to-IsCore m r h) own

  pub set_buffer-IsApart :
      (me : ℕ) (bytes : List ℕ) (h : Heap)
      → length bytes ≤ (session_of h me).config.max_message_size_bytes
      → InSession h me
      → IsApart s h (set_buffer me bytes h)
  set_buffer-IsApart me bytes h fits own = record {
    stay = (set_buffer-IsCore me bytes h fits).game_session;
    peers = λ q other. (let apart = outsider me q h own other in ground (arith, apart));
    effects = λ q other. refl;
    sessions = λ t other. refl;
    rest = IsFrame-IsRest (record {
      sessions = refl;
      games = refl;
      listeners = refl;
      games_by_id = refl;
      configs = refl;
      next_peer = refl;
      next_session = refl;
      next_game = refl;
    });
  }
