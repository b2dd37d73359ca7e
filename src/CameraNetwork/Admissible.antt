-- ===== src/CameraNetwork/Admissible.antt =====
-- Which requests validate of internal/cameranetwork/network.go lets pass, said without its tests: in
-- the characters and the ranges of numbers that the texts and addresses have.
use native.Mathlib.Nat.{one-le-pow}
use dronservice_updates.Prelude.{
  ℕ, ◌-◌, ◌%◌, ◌^◌, ◌<◌, ℤ, pos, String, str_eq, Bool, true, false, ◌||◌, none, some, List, ◌∷◌,
  ◌≡◌, refl, sym, subst, ◌⊎◌, ◌↔◌, and_true, arith,
}
use dronservice_updates.CameraNetwork.Request.{
  Request, System, valid_id, valid_interface, well_formed, is_between, unicast,
  validate_system_interface, in_subnet, size_of, magnitude, validate,
}
use dronservice_updates.CameraNetwork.Subnet.{InNetwork, in_subnet_iff}
use dronservice_updates.CameraNetwork.Checked.{IsChecked, validate-IsChecked, private-ordinary}
use dronservice_updates.CameraNetwork.Ranges.{
  In, IdCode, InterfaceCode, IsName, PrivateAddress, id_iff, interface_iff, private_iff,
  between_iff, unicast_iff, flags_iff, operation_iff,
}

pub record IsAdmissible (s : System) (allowed : String → Bool) (r : Request) : Type 0 where
  pub address : ℕ
  pub camera : ℕ
  pub prefix : ℕ
  pub ttl : ℕ
  pub mac_first : ℕ
  pub mac_rest : List ℕ
  pub id : IsName IdCode 64 r.id
  pub interface : IsName InterfaceCode 15 r.interface
  pub configured : allowed r.interface ≡ true
  pub operation : (r.operation ≡ "add") ⊎ (r.operation ≡ "remove")
  pub prefix_is : r.prefix ≡ pos prefix
  pub prefix_in : In 1 30 prefix
  pub ttl_is : r.ttl_seconds ≡ pos ttl
  pub ttl_in : In 30 3600 ttl
  pub mac : s.parse_mac r.camera_mac ≡ some (mac_first ∷ mac_rest)
  pub unicast_mac : mac_first % 2 ≡ 0
  pub read : s.parse_ip r.address ≡ some address
  pub camera_read : s.parse_ip r.camera_ip ≡ some camera
  pub private : PrivateAddress address
  pub up : s.interface_flags r.interface ≡ some (false, true)
  pub within : InNetwork (2 ^ (32 - prefix)) camera address

formed_iff :
    (s : System) (allowed : String → Bool) (r : Request)
    → well_formed s allowed r ≡ true
    → (valid_id r.id ≡ true)
      × (allowed r.interface ≡ true)
      × (valid_interface r.interface ≡ true)
      × ((str_eq r.operation "add" || str_eq r.operation "remove") ≡ true)
      × (is_between 1 30 r.prefix ≡ true)
      × (unicast (s.parse_mac r.camera_mac) ≡ true)
      × (is_between 30 3600 r.ttl_seconds ≡ true)
unfolding well_formed
formed_iff s allowed r h =
    let (f, ttl) = and_true _ _ h in
    let (e, mac) = and_true _ _ f in
    let (d, prefix) = and_true _ _ e in
    let (c, operation) = and_true _ _ d in
    let (b, interface) = and_true _ _ c in
    let (id, configured) = and_true _ _ b in
    (id, configured, interface, operation, prefix, mac, ttl)

positive_size : (prefix : ℕ) → 0 < 2 ^ (32 - prefix)
positive_size prefix = one-le-pow (32 - prefix) 2 (omega arith)

checked-IsAdmissible :
    (s : System) (allowed : String → Bool) (r : Request) (a camera : ℕ)
    → IsChecked s allowed r a camera
    → IsAdmissible s allowed r
unfolding validate_system_interface
checked-IsAdmissible s allowed r a camera c =
    let (id, configured, interface, operation, p, m, t) = formed_iff s allowed r c.formed in
    let (prefix, prefix_is, prefix_in) = (between_iff 1 30 r.prefix).0 p in
    let (ttl, ttl_is, ttl_in) = (between_iff 30 3600 r.ttl_seconds).0 t in
    let (first, rest, mac, even) = (unicast_iff (s.parse_mac r.camera_mac)).0 m in
    record {
      address = a;
      camera = camera;
      prefix = prefix;
      ttl = ttl;
      mac_first = first;
      mac_rest = rest;
      id = (id_iff r.id).0 id;
      interface = (interface_iff r.interface).0 interface;
      configured = configured;
      operation = (operation_iff r.operation).0 operation;
      prefix_is = prefix_is;
      prefix_in = prefix_in;
      ttl_is = ttl_is;
      ttl_in = ttl_in;
      mac = mac;
      unicast_mac = even;
      read = c.read;
      camera_read = c.camera_read;
      private = (private_iff a).0 c.private;
      up = (flags_iff (s.interface_flags r.interface)).0 c.up;
      within =
          (in_subnet_iff (2 ^ (32 - prefix)) camera a (positive_size prefix)).0 (
            subst (λ (p : ℤ). in_subnet (size_of (magnitude p)) camera a ≡ true) prefix_is
              c.within);
    }

admissible-IsChecked :
    (s : System) (allowed : String → Bool) (r : Request) (q : IsAdmissible s allowed r)
    → IsChecked s allowed r q.address q.camera
unfolding validate_system_interface well_formed
admissible-IsChecked s allowed r q =
    let private = (private_iff q.address).1 q.private in
    record {
      read = q.read;
      camera_read = q.camera_read;
      formed =
          rw
            (
              (id_iff r.id).1 q.id,
              q.configured,
              (interface_iff r.interface).1 q.interface,
              (operation_iff r.operation).1 q.operation,
              (between_iff 1 30 r.prefix).1 (q.prefix, q.prefix_is, q.prefix_in),
              (unicast_iff (s.parse_mac r.camera_mac)).1
                  (q.mac_first, q.mac_rest, q.mac, q.unicast_mac),
              (between_iff 30 3600 r.ttl_seconds).1 (q.ttl, q.ttl_is, q.ttl_in),
            )
            refl;
      private = private;
      ordinary = private-ordinary q.address private;
      up = (flags_iff (s.interface_flags r.interface)).1 q.up;
      within =
          subst (λ (p : ℤ). in_subnet (size_of (magnitude p)) q.camera q.address ≡ true)
            (sym q.prefix_is)
            ((in_subnet_iff (2 ^ (32 - q.prefix)) q.camera q.address (positive_size q.prefix)).1
              q.within);
    }

-- Validate of the helper reports no error exactly if the ID is 1 to 64 letters, digits, `_` or `-`,
-- the interface is an allowed one of 1 to 15 of these characters or `.` that is up and no loopback,
-- the operation is add or remove, the prefix is from 1 to 30, the lifetime from 30 to 3600, the MAC
-- address is one with an even first byte, and the address is in one of the three private ranges and
-- in the network of the camera, where it is not the address of the camera, the first or the last.
pub validate-IsAdmissible :
    (s : System) (allowed : String → Bool) (r : Request)
    → (validate s allowed r ≡ none) ↔ IsAdmissible s allowed r
validate-IsAdmissible s allowed r = (
  λ e.
      let (a, camera, c) = (validate-IsChecked s allowed r).0 e in
      checked-IsAdmissible s allowed r a camera c,
  λ q. (validate-IsChecked s allowed r).1 (q.address, q.camera, admissible-IsChecked s allowed r q),
)
