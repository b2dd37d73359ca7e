-- ===== src/CameraNetwork/Request.antt =====
-- Requests of internal/cameranetwork/network.go and the checks of the helper.
use dronservice_updates.Prelude.{
  ℕ, ◌-◌, ◌/◌, ◌%◌, ◌^◌, ℤ, pos, negsuc, String, str_eq, codes, trim_space, all_codes, is_letter,
  is_digit, Bool, false, not, ◌&&◌, ◌||◌, Option, none, some, List, [], ◌∷◌, length, leb, ◌==◌,
  if◌then◌else◌,
}
use dronservice_updates.CameraNetwork.Address.{network_of, broadcast_of}

pub record Request : Type 0 where
  pub id : String
  pub operation : String
  pub interface : String
  pub address : String
  pub prefix : ℤ
  pub camera_ip : String
  pub camera_mac : String
  pub ttl_seconds : ℤ

-- What the system and Go's libraries say of a text: the IPv4 address that net.ParseIP reads, the
-- bytes that net.ParseMAC reads, and the flags of an interface (loopback, up), if there is one.
pub record System : Type 0 where
  pub parse_ip : String → Option ℕ
  pub parse_mac : String → Option (List ℕ)
  pub interface_flags : String → Option (Bool × Bool)

pub data Error : Type 0 where
  invalid_request no_interface interface_down outside_subnet : Error

abbrev pub is_interface_code : ℕ → Bool
is_interface_code c = is_letter c || is_digit c || c == b'_' || c == b'.' || c == b'-'

-- `^[A-Za-z0-9_.-]{1,15}$`
unfoldable pub valid_interface : String → Bool
unfolding all_codes
valid_interface v =
    leb 1 (length (codes v)) && leb (length (codes v)) 15 && all_codes is_interface_code (codes v)

abbrev pub is_id_code : ℕ → Bool
is_id_code c = is_letter c || is_digit c || c == b'_' || c == b'-'

-- `^[A-Za-z0-9_-]{1,64}$`
unfoldable pub valid_id : String → Bool
unfolding all_codes
valid_id v = leb 1 (length (codes v)) && leb (length (codes v)) 64 && all_codes is_id_code (codes v)

-- 10.0.0.0/8, 172.16.0.0/12 and 192.168.0.0/16
unfoldable pub is_private : ℕ → Bool
is_private a = a / 2 ^ 24 == 10 || a / 2 ^ 20 == 2753 || a / 2 ^ 16 == 49320

-- 127.0.0.0/8, 224.0.0.0/4 and 169.254.0.0/16
unfoldable pub is_special : ℕ → Bool
is_special a = a / 2 ^ 24 == 127 || a / 2 ^ 28 == 14 || a / 2 ^ 16 == 43518

-- Between two numbers, for an int.
unfoldable pub is_between : ℕ → ℕ → ℤ → Bool
is_between least most (pos n) = leb least n && leb n most
is_between least most (negsuc n) = false

abbrev pub magnitude : ℤ → ℕ
magnitude (pos n) = n
magnitude (negsuc n) = 0

-- The number of addresses of a network with a prefix.
abbrev pub size_of : ℕ → ℕ
size_of prefix = 2 ^ (32 - prefix)

-- validateSystemInterface: `none` is no error.
unfoldable pub validate_flags : Option (Bool × Bool) → Option Error
validate_flags none = some no_interface
validate_flags (some (loopback, up)) = if loopback || not up then some interface_down else none

unfoldable pub validate_system_interface : System → String → Option Error
unfolding validate_flags
validate_system_interface s name = validate_flags (s.interface_flags name)

-- `e == nil && mac[0]&1 == 0`; net.ParseMAC reads six bytes at least.
unfoldable pub unicast : Option (List ℕ) → Bool
unicast none = false
unicast (some []) = false
unicast (some (b ∷ rest)) = b % 2 == 0

-- The part of the first condition that is not about addresses, negated.
unfoldable pub well_formed : System → (String → Bool) → Request → Bool
unfolding valid_id valid_interface unicast is_between
well_formed s allowed r =
    valid_id r.id
    && allowed r.interface
    && valid_interface r.interface
    && (str_eq r.operation "add" || str_eq r.operation "remove")
    && is_between 1 30 r.prefix
    && unicast (s.parse_mac r.camera_mac)
    && is_between 30 3600 r.ttl_seconds

-- The last condition, negated: an address of the camera's network, other than the camera's, the
-- network's and the broadcast address.
unfoldable pub in_subnet : ℕ → ℕ → ℕ → Bool
unfolding network_of broadcast_of
in_subnet size camera a =
    network_of size a == network_of size camera
    && not (a == camera)
    && not (a == network_of size camera)
    && not (a == broadcast_of size camera)

unfoldable pub validate_addresses :
    System → (String → Bool) → Request → Option ℕ → Option ℕ → Option Error
unfolding well_formed is_private is_special validate_system_interface in_subnet
validate_addresses s allowed r (some a) (some camera) =
    if not (well_formed s allowed r) || not (is_private a) || is_special a
    then some invalid_request
    else elim (validate_system_interface s r.interface) [
      | some e ↦ some e
      | none ↦
          if in_subnet (size_of (magnitude r.prefix)) camera a then none else some outside_subnet
    ]
validate_addresses s allowed r _ _ = some invalid_request

-- Helper.validate: `none` is no error.
unfoldable pub validate : System → (String → Bool) → Request → Option Error
unfolding validate_addresses
validate s allowed r =
    validate_addresses s allowed r (s.parse_ip r.address) (s.parse_ip r.camera_ip)

-- ParseAllowedInterfaces: whether the map has a name, for the trimmed parts of strings.Split.
unfoldable pub in_allowed : List String → String → Bool
unfolding valid_interface trim_space
in_allowed [] name = false
in_allowed (part ∷ rest) name =
    valid_interface (trim_space part) && str_eq (trim_space part) name || in_allowed rest name
