-- ===== src/CameraNetwork/Handshake.antt =====
-- The client and the helper of internal/cameranetwork/network.go together.
use mathlib.Core.Option.{some-injective}
use native.Mathlib.Nat.{one-le-pow}
use dronservice_updates.Prelude.{
  ℕ, ◌+◌, ◌-◌, ◌<◌, pos, String, str_eq, str_eq_iff, Bool, true, false, not, ◌&&◌, ◌||◌, Option,
  none, some, List, ◌∷◌, ltb, ◌≡◌, ◌≢◌, refl, sym, ◌∙◌, subst, ◌⊎◌, inl, inr, if_ind, arith,
  not-false, and_true, ltb→lt,
}
use dronservice_updates.CameraNetwork.Address.{
  network_of, broadcast_of, is_used, select_address, max_candidates,
}
use dronservice_updates.CameraNetwork.Selection.{Finds, select_address_lem}
use dronservice_updates.CameraNetwork.Request.{
  Request, System, Error, well_formed, is_private, validate_system_interface, in_subnet, size_of,
  validate, is_between, valid_id, valid_interface, unicast,
}
use dronservice_updates.CameraNetwork.Subnet.{same_network}
use dronservice_updates.CameraNetwork.Checked.{validate-IsChecked, private-ordinary}
use dronservice_updates.CameraNetwork.Helper.{
  Status, Disk, Outside, holds, done, ready, same_lease, same_prefix, process,
}
use dronservice_updates.CameraNetwork.Leases.{process-Granted}
use dronservice_updates.CameraNetwork.Ledger.{IsLedger, process-IsLedger, lookup-IsOwn}
use dronservice_updates.CameraNetwork.Client.{
  Failure, Lease, Wish, Side, mask_prefix, clamp_ttl, whole_seconds, with_address, with_interface,
  with_prefix, with_addresses, make_request, answer, wait, lease_of, has_bytes,
}

broadcast_lem : (size camera : ℕ) → broadcast_of size camera ≡ network_of size camera + (size - 1)
unfolding broadcast_of
broadcast_lem size camera = refl

free_of_camera :
    (size camera : ℕ) (gateway : Option ℕ) (assigned : List ℕ) (a : ℕ)
    → is_used size camera gateway assigned a ≡ false
    → camera ≢ a
unfolding is_used
free_of_camera size camera gateway assigned a h e = ground (arith, h, e)

-- An address that selectAddress finds is one of the camera's network that validate lets pass.
found-in_subnet :
    (size camera a : ℕ) (gateway : Option ℕ) (assigned : List ℕ)
    → 0 < size
    → select_address size camera gateway assigned ≡ some a
    → in_subnet size camera a ≡ true
unfolding in_subnet
found-in_subnet size camera a gateway assigned positive e =
    let found : Finds (is_used size camera gateway assigned) (network_of size camera + 1)
        max_candidates (broadcast_of size camera - 1) (some a) =
      subst (Finds _ _ _ _) e (select_address_lem size camera gateway assigned) in
    let whole = broadcast_lem size camera in
    let same =
      same_network size camera a positive (omega (arith, found.0))
        (omega (arith, found.0, found.1, whole, positive)) in
    let other = free_of_camera size camera gateway assigned a found.3 in
    ground (arith, same, other, found.0, found.1, whole, positive)

clamp_between : (t : ℕ) → is_between 30 3600 (pos (clamp_ttl t)) ≡ true
unfolding is_between clamp_ttl
clamp_between t = ground arith

prefix_between : (p : ℕ) → (ltb p 1 || ltb 30 p) ≡ false → is_between 1 30 (pos p) ≡ true
unfolding is_between
prefix_between p h = ground (arith, h)

module _ (s : System) (c : Side) (w : Wish) (allowed : String → Bool)
    (prints : (a : ℕ) → s.parse_ip (c.print_ip a) ≡ some a)
    (configured : allowed w.interface ≡ true) (named : valid_id c.id ≡ true)
    (single : unicast (s.parse_mac w.mac) ≡ true) where
  abbrev Passes : Failure ⊎ Request → Type 0
  Passes (inl e) = Unit {0}
  Passes (inr r) =
      (a : ℕ) → s.parse_ip r.address ≡ some a → is_private a ≡ true → validate s allowed r ≡ none

  with_address-Passes :
      (camera prefix : ℕ) (o : Option ℕ)
      → (ltb prefix 1 || ltb 30 prefix) ≡ false
      → valid_interface w.interface ≡ true
      → validate_system_interface s w.interface ≡ none
      → select_address (size_of prefix) camera (s.parse_ip w.gateway) c.local_ipv4 ≡ o
      → Passes (with_address c w camera prefix o)
  unfolding with_address
  with_address-Passes camera prefix none p i u e = tt
  with_address-Passes camera prefix (some a) p i u e = λ b read private.
      let same : a ≡ b = some-injective a b (sym (prints a) ∙ read) in
      (validate-IsChecked s allowed _).1 (
        b,
        camera,
        record {
          read = read;
          camera_read = prints camera;
          formed =
              unfold well_formed in
              rw
                (
                  named,
                  configured,
                  i,
                  single,
                  clamp_between (whole_seconds w.ttl),
                  prefix_between prefix p,
                )
                refl;
          private = private;
          ordinary = private-ordinary b private;
          up = u;
          within =
              subst (λ k. in_subnet (size_of prefix) camera k ≡ true) same
                (found-in_subnet (size_of prefix) camera a _ c.local_ipv4
                  (one-le-pow (32 - prefix) 2 (omega arith)) e);
        },
      )

  with_interface-Passes :
      (camera prefix : ℕ) (o : Option Error)
      → (ltb prefix 1 || ltb 30 prefix) ≡ false
      → valid_interface w.interface ≡ true
      → validate_system_interface s w.interface ≡ o
      → Passes (with_interface s c w camera prefix o)
  unfolding with_interface
  with_interface-Passes camera prefix (some e) p i u = tt
  with_interface-Passes camera prefix none p i u =
      if_ind Passes (not (has_bytes (s.parse_mac w.mac))) _ _ (λ _. tt)
        (λ _. with_address-Passes camera prefix _ p i u refl)

  with_prefix-Passes : (camera : ℕ) (o : Option ℕ) → Passes (with_prefix s c w camera o)
  unfolding with_prefix
  with_prefix-Passes camera none = tt
  with_prefix-Passes camera (some prefix) =
      if_ind Passes (ltb prefix 1 || ltb 30 prefix) _ _ (λ _. tt)
        (λ p.
          if_ind Passes (not (valid_interface w.interface)) _ _ (λ _. tt)
            (λ i.
              with_interface-Passes camera prefix (validate_system_interface s w.interface) p
                (not-false _ i) refl))

  with_addresses-Passes : (o m : Option ℕ) → Passes (with_addresses s c w o m)
  unfolding with_addresses
  with_addresses-Passes none m = tt
  with_addresses-Passes (some camera) none = tt
  with_addresses-Passes (some camera) (some mask) = with_prefix-Passes camera (mask_prefix 33 mask)

  -- If printed addresses are read back, the interface is configured, the ID is well formed and the
  -- MAC address is no group address, then a request of Ensure whose address is private passes the
  -- checks of the helper.
  pub make_request-validate :
      (r : Request) (a : ℕ)
      → make_request s c w ≡ inr r
      → s.parse_ip r.address ≡ some a
      → is_private a ≡ true
      → validate s allowed r ≡ none
  unfolding make_request
  make_request-validate r a e =
      subst
        (λ x.
          Passes x
          → s.parse_ip r.address ≡ some a
          → is_private a ≡ true
          → validate s allowed r ≡ none)
        (sym e) (λ passes. passes a)
        (with_addresses-Passes (s.parse_ip w.camera_ip) (s.parse_ip w.mask))

-- If Process succeeds for a request, and the leases in the file had their own IDs and were ready,
-- then a client that reads the status next returns a lease of the address and the interface of the
-- request, which has not expired.
pub handshake :
    (s : System) (allowed : String → Bool) (o : Outside) (d : Disk) (r : Request) (end : Failure)
    (after : List (Option Status))
    → o.request ≡ holds r
    → IsLedger d.leases
    → (process s allowed o d).0 ≡ done
    → (lease : Lease) × (wait r.id end ((process s allowed o d).1.status ∷ after) ≡ inr lease)
      × (lease.address ≡ r.address)
      × (lease.interface ≡ r.interface)
      × (o.now < lease.expires_at)
unfolding wait answer lease_of same_lease
handshake s allowed o d r end after e ledger finished =
    let (status, held, shown, same, live) = process-Granted s allowed o d r e finished in
    let (own, is_ready) = lookup-IsOwn r.id _ status (process-IsLedger s allowed o d ledger) held in
    let (places, prefixes) =
      and_true (str_eq status.interface r.interface && str_eq status.address r.address)
        (same_prefix status.prefix r.prefix) same in
    let (interfaces, addresses) = and_true _ _ places in
    (
      lease_of status,
      rw
          (
            shown,
            wait,
            (str_eq_iff status.id r.id).1 own,
            answer,
            (str_eq_iff status.state ready).1 is_ready,
          )
          refl,
      (str_eq_iff status.address r.address).0 addresses,
      (str_eq_iff status.interface r.interface).0 interfaces,
      ltb→lt _ _ live,
    )
