-- ===== src/CameraProxy/Manager.antt =====
-- The sessions of internal/cameraproxy/manager.go: Start under the lock, the timers, a server that
-- ends, and Close. A session and its server have a number that no other has. `stop` and Close take
-- sessions out of the map under the lock and close the servers after it: the step on the map and the
-- call that closes a server are two operations.
use dronservice_updates.Prelude.{
  ℕ, ◌+◌, ℤ, positive_or, String, Bool, true, false, ◌&&◌, Option, none, some, List, [], ◌∷◌, ◌==◌,
  if◌then◌else◌, minutes, lookup, insert, delete, without,
}
use dronservice_updates.CameraProxy.Target.{
  Target, Url, Error, closed, listen_failed, Surroundings, Plan, refuse, go_direct, go_proxy, plan,
}

pub record Session : Type 0 where
  pub server : ℕ
  pub address : String
  pub target : Url
  pub expires_at : ℕ

-- `servers` are the servers that listen, `closing` those that left the map and whose Close or
-- Shutdown has still to run, `next` is the number of the next session.
pub record Manager : Type 0 where
  pub allow_loopback : Bool
  pub ttl : ℕ
  pub sessions : List (String × Session)
  pub closed : Bool
  pub servers : List ℕ
  pub closing : List ℕ
  pub next : ℕ

pub data Answer : Type 0 where
  failed : Error → Answer
  direct : Url → Answer
  proxy : String → ℕ → Answer

unfoldable pub new_manager : Bool → ℤ → Manager
new_manager allow_loopback ttl = record {
  allow_loopback = allow_loopback;
  ttl = positive_or ttl (minutes 15);
  sessions = [];
  closed = false;
  servers = [];
  closing = [];
  next = 0;
}

unfoldable pub same_url : Url → Url → Bool
same_url a b = a.ip == b.ip && a.port == b.port

-- A session of the same target gets a new expiry and a new timer.
unfoldable pub renew : String → Session → ℕ → Manager → Answer × Manager
unfolding insert
renew id s now m = (
  proxy s.address (now + m.ttl),
  record m { sessions = insert id (record s { expires_at = now + m.ttl }) m.sessions },
)

-- A session of another target is deleted and its server closed.
unfoldable pub discard : String → Session → Manager → Manager
unfolding delete without
discard id s m = record m { sessions = delete id m.sessions; servers = without s.server m.servers }

unfoldable pub new_session : Url → String → ℕ → Manager → Session
new_session url address now m = record {
  server = m.next;
  address = address;
  target = url;
  expires_at = now + m.ttl;
}

-- The part from net.Listen; `listener` is the address that it listens on, or an error.
unfoldable pub serve : String → Url → Option String → ℕ → Manager → Answer × Manager
unfolding insert new_session
serve id url none now m = (failed listen_failed, m)
serve id url (some address) now m = (
  proxy address (now + m.ttl),
  record m {
    sessions = insert id (new_session url address now m) m.sessions;
    servers = m.next ∷ m.servers;
    next = m.next + 1;
  },
)

unfoldable pub start_session :
    String → Url → Option String → ℕ → Manager → Option Session → Answer × Manager
unfolding renew discard serve
start_session id url listener now m none = serve id url listener now m
start_session id url listener now m (some s) =
    if same_url s.target url then renew id s now m else serve id url listener now (discard id s m)

-- Start under the lock.
unfoldable pub start_proxy : String → Url → Option String → ℕ → Manager → Answer × Manager
unfolding start_session lookup
start_proxy id url listener now m =
    if m.closed
    then (failed closed, m)
    else start_session id url listener now m (lookup id m.sessions)

unfoldable pub start_plan : Target → Option String → ℕ → Manager → Plan → Answer × Manager
unfolding start_proxy
start_plan t listener now m (refuse e) = (failed e, m)
start_plan t listener now m (go_direct url) = (direct url, m)
start_plan t listener now m (go_proxy url) = start_proxy t.id url listener now m

unfoldable pub start : Surroundings → Target → Option String → ℕ → Manager → Answer × Manager
unfolding start_plan plan
start o t listener now m = start_plan t listener now m (plan o m.allow_loopback t)

-- The session is deleted under the lock; its server is still to be closed.
unfoldable pub release : String → Session → Manager → Manager
unfolding delete
release id s m = record m { sessions = delete id m.sessions; closing = s.server ∷ m.closing }

unfoldable pub stop_found : String → ℕ → ℕ → Manager → Option Session → Manager
unfolding release
stop_found id server expires_at m none = m
stop_found id server expires_at m (some s) =
    if s.server == server && s.expires_at == expires_at then release id s m else m

-- The callback of a timer, up to the unlock: the session that it was set for, and the expiry at that
-- time.
unfoldable pub stop : String → ℕ → ℕ → Manager → Manager
unfolding stop_found lookup
stop id server expires_at m = stop_found id server expires_at m (lookup id m.sessions)

unfoldable pub remove_found : String → ℕ → Manager → Option Session → Manager
unfolding delete
remove_found id server m none = m
remove_found id server m (some s) =
    if s.server == server then record m { sessions = delete id m.sessions } else m

unfoldable pub remove : String → ℕ → Manager → Manager
unfolding remove_found lookup
remove id server m = remove_found id server m (lookup id m.sessions)

-- Serve returns, so the server no longer listens; its remove comes later.
unfoldable pub server_ends : ℕ → Manager → Manager
unfolding without
server_ends server m = record m { servers = without server m.servers }

unfoldable pub collect : List (String × Session) → List ℕ → List ℕ
collect [] servers = servers
collect ((id, s) ∷ rest) servers = s.server ∷ collect rest servers

-- Close, up to the unlock.
unfoldable pub close : Manager → Manager
unfolding collect
close m = record m { closed = true; sessions = []; closing = collect m.sessions m.closing }

-- The call after the unlock: Close of a server in `stop`, one Shutdown of the loop in Close. The
-- server no longer listens, with or without an error.
unfoldable pub server_closes : ℕ → Manager → Manager
unfolding without
server_closes k m = record m { servers = without k m.servers; closing = without k m.closing }
