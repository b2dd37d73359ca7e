-- ===== src/CameraProxy/Tests.antt =====
-- A camera at 10.0.0.2 behind the device, and a client in another network.
use dronservice_updates.Prelude.{
  ℕ, ◌+◌, ◌*◌, ◌^◌, pos, String, str_eq, false, Option, none, some, [], ◌∷◌, if◌then◌else◌, ◌≡◌,
  refl, sym, subst, Any, inl, lookup, insert, trim_space,
}
use dronservice_updates.CameraProxy.Target.{
  Ip, v4, Target, Surroundings, plan, target_ip, valid_ip, is_target, is_loopback, is_multicast,
  is_direct, share_network, in_network, among, routed, connected,
}
use dronservice_updates.CameraProxy.Manager.{
  Manager, proxy, new_manager, start, start_plan, start_proxy, start_session, serve, close, stop,
  stop_found, release, collect, server_closes, new_session,
}
use dronservice_updates.CameraProxy.Ownership.{
  IsOwned, Reach, here, next, starts, closes, shuts, Reach-IsOwned,
}
use dronservice_updates.CameraProxy.Renewal.{Holds, start-Holds}

abbrev camera_ip : ℕ
camera_ip = 10 * 2 ^ 24 + 2

abbrev parse : String → Option Ip
parse s =
    if str_eq s "10.0.0.2"
    then some (v4 camera_ip)
    else if str_eq s "192.168.1.7"
    then some (v4 (192 * 2 ^ 24 + 168 * 2 ^ 16 + 256 + 7))
    else none

abbrev device : Surroundings
device = record {
  parse_ip = parse;
  local_networks = some (record { address = camera_ip + 3; prefix = 24 } ∷ []);
  route = λ a. some (camera_ip + 3, "eth0");
  route_error = "";
  connect_error = none;
}

abbrev camera : Target
camera = record { id = "cam"; address = " 10.0.0.2"; client_address = "192.168.1.7"; http_port = 0 }

abbrev empty : Manager
empty = new_manager false (pos 60)

proxied : (start device camera (some "[::]:40000") 100 empty).0 ≡ proxy "[::]:40000" 160
unfolding start start_plan plan target_ip valid_ip is_target is_loopback is_multicast among
    is_direct share_network in_network routed connected trim_space start_proxy start_session serve
    lookup new_manager
proxied = refl

start-Holds_example :
    Holds "cam" 100 empty.ttl "[::]:40000" 160 (start device camera (some "[::]:40000") 100 empty).1
start-Holds_example =
    start-Holds device camera (some "[::]:40000") 100 empty "[::]:40000" 160 proxied

abbrev started : Manager
started = (start device camera (some "[::]:40000") 100 empty).1

-- After Close has unlocked, the server of the session still listens, and its Shutdown is to come.
still_listens :
    ((close started).servers ≡ 0 ∷ [])
    × ((close started).closing ≡ 0 ∷ [])
    × ((close started).sessions ≡ [])
unfolding close collect start start_plan plan target_ip valid_ip is_target is_loopback is_multicast
    among is_direct share_network in_network routed connected trim_space start_proxy start_session
    serve new_session lookup insert new_manager
still_listens = (refl, refl, refl)

-- The callback of the timer takes the session out of the map, and its server is still to be closed.
expired : (stop "cam" 0 160 started).closing ≡ 0 ∷ []
unfolding stop stop_found release start start_plan plan target_ip valid_ip is_target is_loopback
    is_multicast among is_direct share_network in_network routed connected trim_space start_proxy
    start_session serve new_session lookup insert new_manager
expired = refl

history : Reach empty (server_closes 0 (close started))
history =
    next (next (next here (starts device camera (some "[::]:40000") 100)) closes)
      (shuts 0 (subst (Any (λ n. n ≡ 0)) (sym still_listens.1) (inl refl)))

Reach-IsOwned_example : IsOwned (server_closes 0 (close started))
Reach-IsOwned_example = Reach-IsOwned false (pos 60) history
