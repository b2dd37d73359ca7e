-- ===== src/CameraProxy/Checks.antt =====
-- What has been checked of a target before internal/cameraproxy/manager.go gives access to it.
use dronservice_updates.Prelude.{ℕ, String, Bool, true, Option, none, some, List, ◌≡◌, trim_space}
use dronservice_updates.CameraProxy.Target.{
  v4, Target, Network, Surroundings, Plan, refuse, go_direct, go_proxy, is_target, share_network,
}

-- Direct access: a target by IPv4 that is allowed, in one network with the client. A proxy: such a
-- target with a route to it and a connection that could be made.
abbrev pub Checked : Surroundings → Bool → Target → Plan → Type 0
Checked o allow_loopback t (refuse e) = Unit {0}
Checked o allow_loopback t (go_direct url) =
    (is_target allow_loopback t.id url.ip ≡ true)
    × (networks : List Network) × (client : ℕ) × (o.local_networks ≡ some networks)
    × (o.parse_ip (trim_space t.client_address) ≡ some (v4 client))
    × (share_network networks url.ip client ≡ true)
Checked o allow_loopback t (go_proxy url) =
    (is_target allow_loopback t.id url.ip ≡ true)
    × (via : ℕ × String) × (o.route url.ip ≡ some via)
    × (o.connect_error ≡ none)
