-- ===== src/CameraNetwork/Checked.antt =====
-- What a request has that validate of internal/cameranetwork/network.go lets pass.
use dronservice_updates.Prelude.{
  ℕ, ◌<◌, ℤ, pos, negsuc, String, Bool, true, false, not, ◌||◌, Option, none, some, ◌≡◌, refl,
  if_ind, and_true, arith, inl, inr, Option-cases, not-false, ◌↔◌,
}
use dronservice_updates.CameraNetwork.Request.{
  Request, System, Error, well_formed, is_private, is_special, validate_system_interface, in_subnet,
  size_of, magnitude, validate_addresses, validate, is_between,
}

pub record IsChecked (s : System) (allowed : String → Bool) (r : Request) (a camera : ℕ)
    : Type 0 where
  pub read : s.parse_ip r.address ≡ some a
  pub camera_read : s.parse_ip r.camera_ip ≡ some camera
  pub formed : well_formed s allowed r ≡ true
  pub private : is_private a ≡ true
  pub ordinary : is_special a ≡ false
  pub up : validate_system_interface s r.interface ≡ none
  pub within : in_subnet (size_of (magnitude r.prefix)) camera a ≡ true

or_false : (a b : Bool) → (a || b) ≡ false → (a ≡ false) × (b ≡ false)
or_false true b h = cc
or_false false b h = (refl, h)

addresses-IsChecked :
    (s : System) (allowed : String → Bool) (r : Request) (o p : Option ℕ)
    → s.parse_ip r.address ≡ o
    → s.parse_ip r.camera_ip ≡ p
    → validate_addresses s allowed r o p ≡ none
    → (a : ℕ) × (camera : ℕ) × IsChecked s allowed r a camera
unfolding validate_addresses
addresses-IsChecked s allowed r none p e k h = cc h
addresses-IsChecked s allowed r (some a) none e k h = cc h
addresses-IsChecked s allowed r (some a) (some camera) e k h =
    (if_ind Q (not (well_formed s allowed r) || not (is_private a) || is_special a) _ _
        (λ _ h. cc h)
        (λ fine. elim (Option-cases (validate_system_interface s r.interface)) [
          | inr (x, down) ↦ rw down (λ h. cc h)
          | inl up ↦ rw up (
              if_ind Q (in_subnet (size_of (magnitude r.prefix)) camera a) _ _
                (λ within _.
                  let (b, ordinary) = or_false _ (is_special a) fine in
                  let (formed, private) = or_false _ (not (is_private a)) b in
                  (
                    a,
                    camera,
                    record {
                      read = e;
                      camera_read = k;
                      formed = not-false _ formed;
                      private = not-false _ private;
                      ordinary = ordinary;
                      up = up;
                      within = within;
                    },
                  ))
                (λ _ h. cc h))
        ]))
      h
  where
    Q : Option Error → Type 0
    Q o = o ≡ none → (a : ℕ) × (camera : ℕ) × IsChecked s allowed r a camera

-- Validate of the helper reports no error exactly if the two addresses are read, the other fields
-- are well formed, the address is private and not special, the interface is up and no loopback, and
-- the address is one of the network of the camera, but not the address of the camera, the network
-- or the broadcast.
pub validate-IsChecked :
    (s : System) (allowed : String → Bool) (r : Request)
    → (validate s allowed r ≡ none) ↔ ((a : ℕ) × (camera : ℕ) × IsChecked s allowed r a camera)
unfolding validate
validate-IsChecked s allowed r = (
  addresses-IsChecked s allowed r (s.parse_ip r.address) (s.parse_ip r.camera_ip) refl refl,
  λ (a, camera, c).
      rw
        (c.read, c.camera_read, validate_addresses, c.formed, c.private, c.ordinary, c.up, c.within)
        refl,
)

pub private-ordinary : (a : ℕ) → is_private a ≡ true → is_special a ≡ false
unfolding is_private is_special
private-ordinary a h = ground (arith, h)

pub lasting :
    (s : System) (allowed : String → Bool) (r : Request)
    → well_formed s allowed r ≡ true
    → 0 < magnitude r.ttl_seconds
unfolding well_formed
lasting s allowed r h =
    between_pos r.ttl_seconds (and_true _ (is_between 30 3600 r.ttl_seconds) h).1
  where
    between_pos : (t : ℤ) → is_between 30 3600 t ≡ true → 0 < magnitude t
    between_pos (pos n) e = unfold is_between in ground (arith, e)
    between_pos (negsuc n) e = unfold is_between in cc e
