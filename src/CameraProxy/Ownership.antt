-- ===== src/CameraProxy/Ownership.antt =====
-- Every server that listens belongs to a session of the map or is about to be closed, in every history
-- of the methods of internal/cameraproxy/manager.go.
use dronservice_updates.Prelude.{
  ℕ, ℤ, String, Bool, true, false, ◌&&◌, Option, none, some, [], ◌∷◌, ◌==◌, ◌≡◌, refl, ap, All, Any,
  arith, if_ind, inl, inr, Bool-cases, lookup, delete, without, without-All, lookup-delete,
  lookup-insert,
}
use dronservice_updates.CameraProxy.Target.{
  Target, Url, Surroundings, Plan, refuse, go_direct, go_proxy,
}
use dronservice_updates.CameraProxy.Manager.{
  Session, Manager, Answer, new_manager, renew, discard, serve, new_session, start_session,
  start_proxy, start_plan, start, stop_found, stop, release, remove_found, remove, server_ends,
  collect, close, server_closes, same_url,
}
use dronservice_updates.CameraProxy.Held.{
  All-elsewhere, Held, All-mono, delete-Owned, renew-Owned, insert-Owned, none-Held, collect_rest,
  collect-Owned, without-Any, Owned-or,
}

pub record IsOwned (m : Manager) : Type 0 where
  pub owners : All (Held m.sessions m.closing) m.servers
  pub emptied : m.closed ≡ true → m.sessions ≡ []
  pub ended : m.closed ≡ true → m.closing ≡ [] → m.servers ≡ []

-- What a manager is with its servers held: if it is closed, it has no session.
all-Held :
    (m : Manager)
    → All (Held m.sessions m.closing) m.servers
    → (m.closed ≡ true → m.sessions ≡ [])
    → IsOwned m
all-Held m h e = record {
  owners = h;
  emptied = e;
  ended = λ shut done. none-Held m.sessions m.closing m.servers (e shut) done h;
}

renew-IsOwned :
    (id : String) (s : Session) (now : ℕ) (m : Manager)
    → lookup id m.sessions ≡ some s
    → m.closed ≡ false
    → IsOwned m
    → IsOwned (renew id s now m).1
unfolding renew
renew-IsOwned id s now m found live v =
    all-Held _
      (All-mono _ _ m.servers
        (λ k. Owned-or m.sessions _ m.closing k (renew-Owned id m.sessions s _ k found refl))
        v.owners)
      (λ e. cc (e, live))

discard-IsOwned :
    (id : String) (s : Session) (m : Manager)
    → lookup id m.sessions ≡ some s
    → m.closed ≡ false
    → IsOwned m
    → IsOwned (discard id s m)
unfolding discard
discard-IsOwned id s m found live v =
    all-Held _
      (without-All _ _ s.server m.servers
        (λ k other. Owned-or m.sessions _ m.closing k (delete-Owned id m.sessions s k found other))
        v.owners)
      (λ e. cc (e, live))

-- A server that is to be closed has no session, or one that is not the deleted one.
released :
    (id : String) (s : Session) (m : Manager) (k : ℕ)
    → lookup id m.sessions ≡ some s
    → Held m.sessions m.closing k
    → Held (delete id m.sessions) (s.server ∷ m.closing) k
released id s m k found (inr c) = inr (inr c)
released id s m k found (inl o) = elim (Bool-cases (k == s.server)) [
  | inl same ↦ inr (inl (ground (arith, same)))
  | inr other ↦ inl (delete-Owned id m.sessions s k found other o)
]

release-IsOwned :
    (id : String) (s : Session) (m : Manager)
    → lookup id m.sessions ≡ some s
    → m.closed ≡ false
    → IsOwned m
    → IsOwned (release id s m)
unfolding release
release-IsOwned id s m found live v =
    all-Held _ (All-mono _ _ m.servers (λ k. released id s m k found) v.owners) (λ e. cc (e, live))

serve-IsOwned :
    (id : String) (url : Url) (listener : Option String) (now : ℕ) (m : Manager)
    → lookup id m.sessions ≡ none
    → m.closed ≡ false
    → IsOwned m
    → IsOwned (serve id url listener now m).1
unfolding serve
serve-IsOwned id url none now m absent live v = v
serve-IsOwned id url (some address) now m absent live v =
    all-Held _
      (
        inl (
          id,
          new_session url address now m,
          lookup-insert id _ m.sessions,
          unfold new_session in refl,
        ),
        All-mono _ _ m.servers
            (λ k. Owned-or m.sessions _ m.closing k (insert-Owned id m.sessions _ k absent))
            v.owners,
      )
      (λ e. cc (e, live))

start_session-IsOwned :
    (id : String) (url : Url) (listener : Option String) (now : ℕ) (m : Manager)
    (o : Option Session)
    → lookup id m.sessions ≡ o
    → m.closed ≡ false
    → IsOwned m
    → IsOwned (start_session id url listener now m o).1
unfolding start_session
start_session-IsOwned id url listener now m none e live v =
    serve-IsOwned id url listener now m e live v
start_session-IsOwned id url listener now m (some s) e live v =
    if_ind (λ (r : Answer × Manager). IsOwned r.1) (same_url s.target url) _ _
      (λ _. renew-IsOwned id s now m e live v)
      (λ _.
        serve-IsOwned id url listener now (discard id s m)
          (unfold discard in lookup-delete id m.sessions) (unfold discard in live)
          (discard-IsOwned id s m e live v))

start_plan-IsOwned :
    (t : Target) (listener : Option String) (now : ℕ) (m : Manager) (p : Plan)
    → IsOwned m
    → IsOwned (start_plan t listener now m p).1
unfolding start_plan start_proxy
start_plan-IsOwned t listener now m (refuse e) v = v
start_plan-IsOwned t listener now m (go_direct url) v = v
start_plan-IsOwned t listener now m (go_proxy url) v =
    if_ind (λ (r : Answer × Manager). IsOwned r.1) m.closed _ _ (λ _. v)
      (λ live. start_session-IsOwned t.id url listener now m _ refl live v)

open_while :
    (m : Manager) (id : String) (s : Session)
    → IsOwned m
    → lookup id m.sessions ≡ some s
    → m.closed ≡ false
unfolding lookup
open_while m id s v found = elim (Bool-cases m.closed) [
  | inl shut ↦ cc (found, ap (lookup id) (v.emptied shut))
  | inr live ↦ live
]

stop_found-IsOwned :
    (id : String) (server expires_at : ℕ) (m : Manager) (o : Option Session)
    → lookup id m.sessions ≡ o
    → IsOwned m
    → IsOwned (stop_found id server expires_at m o)
unfolding stop_found
stop_found-IsOwned id server expires_at m none e v = v
stop_found-IsOwned id server expires_at m (some s) e v =
    if_ind IsOwned (s.server == server && s.expires_at == expires_at) _ _
      (λ _. release-IsOwned id s m e (open_while m id s v e) v) (λ _. v)

server_ends-IsOwned : (server : ℕ) (m : Manager) → IsOwned m → IsOwned (server_ends server m)
unfolding server_ends
server_ends-IsOwned server m v =
    all-Held _ (without-All _ _ server m.servers (λ k _ h. h) v.owners) v.emptied

remove_found-IsOwned :
    (id : String) (server : ℕ) (m : Manager) (o : Option Session)
    → lookup id m.sessions ≡ o
    → ¬ Any (λ n. n ≡ server) m.servers
    → IsOwned m
    → IsOwned (remove_found id server m o)
unfolding remove_found
remove_found-IsOwned id server m none e gone v = v
remove_found-IsOwned id server m (some s) e gone v =
    if_ind IsOwned (s.server == server) _ _
      (λ same.
        all-Held _
          (All-elsewhere _ _ server m.servers gone
            (λ k other.
              Owned-or m.sessions _ m.closing k
                (delete-Owned id m.sessions s k e (ground (arith, same, other))))
            v.owners)
          (λ shut. cc (shut, open_while m id s v e)))
      (λ _. v)

close-IsOwned : (m : Manager) → IsOwned m → IsOwned (close m)
unfolding close
close-IsOwned m v = all-Held _ (All-mono _ _ m.servers (λ k. collected k) v.owners) (λ _. refl)
  where
    collected : (k : ℕ) → Held m.sessions m.closing k → Held [] (collect m.sessions m.closing) k
    collected k (inl o) = inr (collect-Owned m.sessions m.closing k o)
    collected k (inr c) = inr (collect_rest m.sessions m.closing k c)

server_closes-IsOwned : (k : ℕ) (m : Manager) → IsOwned m → IsOwned (server_closes k m)
unfolding server_closes
server_closes-IsOwned k m v =
    all-Held _ (without-All _ _ k m.servers (λ j other. left j other) v.owners) v.emptied
  where
    left :
        (j : ℕ)
        → (j == k) ≡ false
        → Held m.sessions m.closing j
        → Held m.sessions (without k m.closing) j
    left j other (inl o) = inl o
    left j other (inr c) = inr (without-Any k j m.closing other c)

-- A step of the manager: a call of Start with any surroundings, the callback of any timer, late ones
-- included, a server that ends and at any time after it its remove, Close, or the Close or Shutdown of a server that left the map, at any
-- time after it did.
pub data Step (m : Manager) : Manager → Type 0 where
  starts :
      (o : Surroundings) (t : Target) (listener : Option String) (now : ℕ)
      → Step m (start o t listener now m).1
  fires : (id : String) (server expires_at : ℕ) → Step m (stop id server expires_at m)
  ends : (server : ℕ) → Step m (server_ends server m)
  removes :
      (id : String) (server : ℕ) → ¬ Any (λ n. n ≡ server) m.servers → Step m (remove id server m)
  closes : Step m (close m)
  shuts : (k : ℕ) → Any (λ n. n ≡ k) m.closing → Step m (server_closes k m)

pub data Reach (m : Manager) : Manager → Type 0 where
  here : Reach m m
  next : {n k : Manager} → Reach m n → Step n k → Reach m k

Step-IsOwned : {m n : Manager} → Step m n → IsOwned m → IsOwned n
unfolding start stop remove
Step-IsOwned {m} (starts o t listener now) v = start_plan-IsOwned t listener now m _ v
Step-IsOwned {m} (fires id server expires_at) v = stop_found-IsOwned id server expires_at m _ refl v
Step-IsOwned {m} (ends server) v = server_ends-IsOwned server m v
Step-IsOwned {m} (removes id server gone) v = remove_found-IsOwned id server m _ refl gone v
Step-IsOwned {m} closes v = close-IsOwned m v
Step-IsOwned {m} (shuts k h) v = server_closes-IsOwned k m v

-- In every history of a camera proxy manager that starts empty (starts in any surroundings,
-- callbacks of any timers, late ones included, servers that end and their removes at any later
-- time, a close, and the Close or Shutdown of a server that left the map at any later time), each
-- server that listens belongs to a session of the map or is one whose Close or Shutdown has still
-- to run; a closed manager has no session, and no server once no such call is left.
pub Reach-IsOwned :
    (allow_loopback : Bool) (ttl : ℤ) {m : Manager}
    → Reach (new_manager allow_loopback ttl) m
    → IsOwned m
Reach-IsOwned allow_loopback ttl here =
    unfold new_manager in record { owners = tt; emptied = λ e. refl; ended = λ e f. refl }
Reach-IsOwned allow_loopback ttl (next r s) = Step-IsOwned s (Reach-IsOwned allow_loopback ttl r)
