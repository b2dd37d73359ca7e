-- ===== src/CameraProxy/Renewal.antt =====
-- What a started proxy leaves in the map, and that the timers set before do not end it.
use dronservice_updates.Prelude.{
  ℕ, ◌+◌, String, Option, none, some, ◌≡◌, ◌≢◌, refl, sym, ap, ◌∙◌, arith, if_ind, lookup,
  lookup-insert,
}
use dronservice_updates.CameraProxy.Target.{
  Target, Url, Surroundings, Plan, refuse, go_direct, go_proxy, plan,
}
use dronservice_updates.CameraProxy.Manager.{
  Session, Manager, Answer, proxy, renew, discard, serve, new_session, discard, start_session,
  start_proxy, start_plan, start, stop_found, stop, same_url,
}

-- The map holds a session with the address and the expiry of the answer, which is one time to live
-- away, and a timer that was set for another expiry does nothing to it.
abbrev pub Holds : String → ℕ → ℕ → String → ℕ → Manager → Type 0
Holds id now ttl address expires_at m =
    (s : Session) × (lookup id m.sessions ≡ some s)
    × (s.address ≡ address)
    × (s.expires_at ≡ expires_at)
    × (expires_at ≡ now + ttl)
    × ((server expiry : ℕ) → expiry ≢ expires_at → stop id server expiry m ≡ m)

stop_stale :
    (id : String) (s : Session) (m : Manager) (server expiry : ℕ)
    → lookup id m.sessions ≡ some s
    → expiry ≢ s.expires_at
    → stop id server expiry m ≡ m
unfolding stop stop_found
stop_stale id s m server expiry e other = rw (e, stop, stop_found) (ground arith)

module _ (id : String) (now : ℕ) (m : Manager) (address : String) (expires_at : ℕ) where
  abbrev Proxied : Answer × Manager → Type 0
  Proxied r = r.0 ≡ proxy address expires_at → Holds id now m.ttl address expires_at r.1

  held :
      (s : Session) (n : Manager)
      → lookup id n.sessions ≡ some s
      → s.expires_at ≡ now + m.ttl
      → proxy s.address (now + m.ttl) ≡ proxy address expires_at
      → Holds id now m.ttl address expires_at n
  held s n found due e =
      let due' : s.expires_at ≡ expires_at = cc (e, due) in
      (
        s,
        found,
        cc e,
        due',
        sym due' ∙ due,
        λ server expiry other. stop_stale id s n server expiry found (λ same. other (same ∙ due')),
      )

  renew-Proxied : (s : Session) → Proxied (renew id s now m)
  unfolding renew
  renew-Proxied s e =
      held (record s { expires_at = now + m.ttl }) _ (lookup-insert id _ m.sessions) refl e

  serve-Proxied :
      (url : Url) (listener : Option String) (n : Manager)
      → n.ttl ≡ m.ttl
      → Proxied (serve id url listener now n)
  unfolding serve new_session
  serve-Proxied url none n k e = cc e
  serve-Proxied url (some here) n k e =
      held (new_session url here now n) _ (lookup-insert id _ n.sessions) (ap (λ d. now + d) k)
        (ap (λ d. proxy here (now + d)) (sym k) ∙ e)

  start_session-Proxied :
      (url : Url) (listener : Option String) (o : Option Session)
      → Proxied (start_session id url listener now m o)
  unfolding start_session discard
  start_session-Proxied url listener none = serve-Proxied url listener m refl
  start_session-Proxied url listener (some s) =
      if_ind Proxied (same_url s.target url) _ _ (λ _. renew-Proxied s)
        (λ _. serve-Proxied url listener (discard id s m) refl)

  start_proxy-Proxied :
      (url : Url) (listener : Option String) → Proxied (start_proxy id url listener now m)
  unfolding start_proxy
  start_proxy-Proxied url listener =
      if_ind Proxied m.closed _ _ (λ _ e. cc e)
        (λ _. start_session-Proxied url listener (lookup id m.sessions))

start_plan-Proxied :
    (t : Target) (listener : Option String) (now : ℕ) (m : Manager) (address : String)
    (expires_at : ℕ) (p : Plan)
    → Proxied t.id now m address expires_at (start_plan t listener now m p)
unfolding start_plan
start_plan-Proxied t listener now m address expires_at (refuse e) = λ k. cc k
start_plan-Proxied t listener now m address expires_at (go_direct url) = λ k. cc k
start_plan-Proxied t listener now m address expires_at (go_proxy url) =
    start_proxy-Proxied t.id now m address expires_at url listener

-- If Start answers with a proxy, the map holds a session of the camera with the address and the
-- expiry of the answer, one time to live after the call, and a timer that was set for another
-- expiry, before a renewal or for a session that was replaced, changes nothing.
pub start-Holds :
    (o : Surroundings) (t : Target) (listener : Option String) (now : ℕ) (m : Manager)
    (address : String) (expires_at : ℕ)
    → (start o t listener now m).0 ≡ proxy address expires_at
    → Holds t.id now m.ttl address expires_at (start o t listener now m).1
unfolding start
start-Holds o t listener now m address expires_at =
    start_plan-Proxied t listener now m address expires_at (plan o m.allow_loopback t)
