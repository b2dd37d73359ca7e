-- ===== src/CameraProxy/Target.antt =====
-- What Start of internal/cameraproxy/manager.go checks before it takes the lock: the target, the
-- networks of the device, the route and a connection.
use dronservice_updates.Prelude.{
  ℕ, ◌+◌, ◌-◌, ◌/◌, ◌^◌, String, codes, trim_space, str_eq, Bool, true, false, not, ◌&&◌, ◌||◌,
  Option, none, some, List, [], ◌∷◌, map, leb, ◌==◌, if◌then◌else◌, after_prefix,
}

-- What net.ParseIP reads: an IPv4 address (also in its form of 16 bytes), or another.
pub data Ip : Type 0 where
  v4 : ℕ → Ip
  v6 : Ip

pub record Target : Type 0 where
  pub id : String
  pub address : String
  pub client_address : String
  pub http_port : ℕ  -- uint16

-- `http://ip:port`
pub record Url : Type 0 where
  pub ip : ℕ
  pub port : ℕ

-- An IPv4 network by an address in it and the length of its prefix.
pub record Network : Type 0 where
  pub address : ℕ
  pub prefix : ℕ

pub record Diagnostic : Type 0 where
  pub pi_ips : List ℕ
  pub camera_ip : ℕ
  pub interface : String
  pub route : Option ℕ  -- `via` an address, or `unavailable`
  pub connect_error : String

pub data Error : Type 0 where
  invalid_target networks_failed closed listen_failed : Error
  connectivity : Diagnostic → Error

-- What the outside answers before the lock: net.ParseIP, the networks, the route (a local address and
-- its interface) or the text of an error, and the text of the error of a connection.
pub record Surroundings : Type 0 where
  pub parse_ip : String → Option Ip
  pub local_networks : Option (List Network)
  pub route : ℕ → Option (ℕ × String)
  pub route_error : String
  pub connect_error : Option String

-- 127.0.0.0/8
unfoldable pub is_loopback : ℕ → Bool
is_loopback a = a / 2 ^ 24 == 127

-- 224.0.0.0/4
unfoldable pub is_multicast : ℕ → Bool
is_multicast a = a / 2 ^ 28 == 14

-- The condition for ErrInvalidTarget, negated.
unfoldable pub is_target : Bool → String → ℕ → Bool
unfolding is_loopback is_multicast
is_target allow_loopback id a =
    not (str_eq id "")
    && (allow_loopback || not (is_loopback a))
    && not (a == 0)
    && not (is_multicast a)

unfoldable pub valid_ip : Bool → String → Option Ip → Option ℕ
unfolding is_target
valid_ip allow_loopback id (some (v4 a)) = if is_target allow_loopback id a then some a else none
valid_ip allow_loopback id _ = none

unfoldable pub target_ip : Surroundings → Bool → Target → Option ℕ
unfolding valid_ip
target_ip o allow_loopback t = valid_ip allow_loopback t.id (o.parse_ip (trim_space t.address))

unfoldable pub target_url : Target → ℕ → Url
target_url t a = record { ip = a; port = (if t.http_port == 0 then 80 else t.http_port) }

-- IPNet.Contains
unfoldable pub in_network : Network → ℕ → Bool
in_network n a = a / 2 ^ (32 - n.prefix) == n.address / 2 ^ (32 - n.prefix)

-- The loop over the networks: whether one of them has both addresses.
unfoldable pub share_network : List Network → ℕ → ℕ → Bool
unfolding in_network
share_network [] a b = false
share_network (n ∷ ns) a b = in_network n a && in_network n b || share_network ns a b

unfoldable pub is_direct : List Network → ℕ → Option Ip → Bool
unfolding share_network
is_direct networks a (some (v4 client)) = share_network networks a client
is_direct networks a _ = false

-- strings.ToLower on ASCII
lower : List ℕ → List ℕ
lower [] = []
lower (c ∷ s) = (if leb b'A' c && leb c b'Z' then c + 32 else c) ∷ lower s

starts_with : List ℕ → List ℕ → Bool
starts_with p s = elim (after_prefix p s) [ none ↦ false | some rest ↦ true ]

-- strings.Contains
contains_text : List ℕ → List ℕ → Bool
unfolding starts_with
contains_text p [] = starts_with p []
contains_text p (c ∷ s) = starts_with p (c ∷ s) || contains_text p s

first_known : List ℕ → List String → String
unfolding contains_text
first_known message [] = "TCP connection failed"
first_known message (known ∷ others) =
    if contains_text (codes known) message then known else first_known message others

-- safeNetworkError of an error with that text
unfoldable pub safe_network_error : String → String
unfolding first_known lower
safe_network_error message = first_known (lower (codes message)) (
    "no route to host" ∷ "network is unreachable" ∷ "connection refused" ∷ "i/o timeout"
    ∷ "operation timed out" ∷ [])

-- What the part before the lock comes to: an error, direct access, or a proxy to a URL.
pub data Plan : Type 0 where
  refuse : Error → Plan
  go_direct : Url → Plan
  go_proxy : Url → Plan

unfoldable pub connected : Diagnostic → Url → Option String → Plan
unfolding safe_network_error
connected d url (some message) =
    refuse (connectivity (record d { connect_error = safe_network_error message }))
connected d url none = go_proxy url

unfoldable pub routed : Surroundings → Diagnostic → Url → Option (ℕ × String) → Plan
unfolding connected safe_network_error
routed o d url none =
    refuse (connectivity (record d { connect_error = safe_network_error o.route_error }))
routed o d url (some (local, interface)) =
    connected (record d { route = some local; interface = interface }) url o.connect_error

unfoldable pub no_route : List Network → ℕ → Diagnostic
no_route networks a = record {
  pi_ips = map (λ n. n.address) networks;
  camera_ip = a;
  interface = "";
  route = none;
  connect_error = "";
}

unfoldable pub among : Surroundings → Target → ℕ → Option (List Network) → Plan
unfolding routed is_direct target_url no_route
among o t a none = refuse networks_failed
among o t a (some networks) =
    if is_direct networks a (o.parse_ip (trim_space t.client_address))
    then go_direct (target_url t a)
    else routed o (no_route networks a) (target_url t a) (o.route a)

-- Start up to the lock.
unfoldable pub plan : Surroundings → Bool → Target → Plan
unfolding among target_ip
plan o allow_loopback t = elim (target_ip o allow_loopback t) [
  | none ↦ refuse invalid_target
  | some a ↦ among o t a o.local_networks
]
