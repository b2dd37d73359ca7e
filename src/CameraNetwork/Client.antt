-- ===== src/CameraNetwork/Client.antt =====
-- Client.Ensure of internal/cameranetwork/network.go: the request that it writes, and the wait for
-- the answer of the helper.
use dronservice_updates.Prelude.{
  ◌⊎◌, inl, inr, ℕ, zero, suc, ◌-◌, ◌/◌, ◌^◌, ℤ, pos, negsuc, String, str_eq, Bool, true, false,
  not, ◌||◌, Option, none, some, List, [], ◌∷◌, ltb, ◌==◌, if◌then◌else◌, seconds,
}
use dronservice_updates.CameraNetwork.Address.{select_address}
use dronservice_updates.CameraNetwork.Request.{
  Request, System, Error, valid_interface, validate_system_interface, size_of,
}
use dronservice_updates.CameraNetwork.Helper.{Status, ready}

pub data Failure : Type 0 where
  bad_mask bad_interface no_evidence no_candidate not_written timed_out canceled : Failure
  bad_system_interface : Error → Failure
  helper_said : String → String → Failure

pub record Lease : Type 0 where
  pub address : String
  pub interface : String
  pub prefix : ℤ
  pub expires_at : ℕ

-- The arguments of Ensure; the duration may be negative.
pub record Wish : Type 0 where
  pub camera_ip : String
  pub mask : String
  pub gateway : String
  pub mac : String
  pub interface : String
  pub ttl : ℤ

-- The client's side: the addresses of the device, the text of an address, the ID for the request
-- and whether the request file can be written.
pub record Side : Type 0 where
  pub local_ipv4 : List ℕ
  pub print_ip : ℕ → String
  pub id : String
  pub written : Bool

-- IPMask.Size: the length of the prefix of a contiguous mask, below a bound.
unfoldable pub mask_prefix : ℕ → ℕ → Option ℕ
mask_prefix zero mask = none
mask_prefix (suc p) mask =
    let rest = mask_prefix p mask in if mask == 2 ^ 32 - 2 ^ (32 - p) then some p else rest

abbrev pub whole_seconds : ℤ → ℕ
whole_seconds (pos n) = n / seconds 1
whole_seconds (negsuc n) = 0

unfoldable pub clamp_ttl : ℕ → ℕ
clamp_ttl t = if ltb t 30 then 30 else if ltb 3600 t then 3600 else t

unfoldable pub with_address : Side → Wish → ℕ → ℕ → Option ℕ → Failure ⊎ Request
unfolding clamp_ttl
with_address c w camera prefix none = inl no_candidate
with_address c w camera prefix (some a) = inr (record {
  id = c.id;
  operation = "add";
  interface = w.interface;
  address = c.print_ip a;
  prefix = pos prefix;
  camera_ip = c.print_ip camera;
  camera_mac = w.mac;
  ttl_seconds = pos (clamp_ttl (whole_seconds w.ttl));
})

unfoldable pub has_bytes : Option (List ℕ) → Bool
has_bytes none = false
has_bytes (some b) = true

unfoldable pub with_interface : System → Side → Wish → ℕ → ℕ → Option Error → Failure ⊎ Request
unfolding has_bytes with_address
with_interface s c w camera prefix (some e) = inl (bad_system_interface e)
with_interface s c w camera prefix none =
    if not (has_bytes (s.parse_mac w.mac))
    then inl no_evidence
    else with_address c w camera prefix
        (select_address (size_of prefix) camera (s.parse_ip w.gateway) c.local_ipv4)

unfoldable pub with_prefix : System → Side → Wish → ℕ → Option ℕ → Failure ⊎ Request
unfolding with_interface
with_prefix s c w camera none = inl bad_mask
with_prefix s c w camera (some prefix) =
    if ltb prefix 1 || ltb 30 prefix
    then inl bad_mask
    else if not (valid_interface w.interface)
    then inl bad_interface
    else with_interface s c w camera prefix (validate_system_interface s w.interface)

unfoldable pub with_addresses : System → Side → Wish → Option ℕ → Option ℕ → Failure ⊎ Request
unfolding with_prefix mask_prefix
with_addresses s c w (some camera) (some mask) = with_prefix s c w camera (mask_prefix 33 mask)
with_addresses s c w _ _ = inl bad_mask

-- Ensure up to the write of the request file.
unfoldable pub make_request : System → Side → Wish → Failure ⊎ Request
unfolding with_addresses
make_request s c w = with_addresses s c w (s.parse_ip w.camera_ip) (s.parse_ip w.mask)

unfoldable pub lease_of : Status → Lease
lease_of status = record {
  address = status.address;
  interface = status.interface;
  prefix = status.prefix;
  expires_at = status.expires_at;
}

-- What a status file with the ID of the request leads to.
unfoldable pub answer : Status → Failure ⊎ Lease
unfolding lease_of
answer status =
    if str_eq status.state ready
    then inr (lease_of status)
    else inl (helper_said status.state status.message)

-- The loop over the ticks before the deadline or the end of the context; a tick reads the status
-- file, `none` if it cannot be read or decoded.
unfoldable pub wait : String → Failure → List (Option Status) → Failure ⊎ Lease
unfolding answer
wait id end [] = inl end
wait id end (none ∷ ticks) = wait id end ticks
wait id end (some status ∷ ticks) =
    let rest = wait id end ticks in if str_eq status.id id then answer status else rest

after_request : Side → Failure → List (Option Status) → Failure ⊎ Request → Failure ⊎ Lease
unfolding wait
after_request c end ticks (inl e) = inl e
after_request c end ticks (inr r) = if not c.written then inl not_written else wait r.id end ticks

-- Ensure: `end` is timed_out or canceled.
unfoldable pub ensure : System → Side → Wish → Failure → List (Option Status) → Failure ⊎ Lease
unfolding after_request make_request
ensure s c w end ticks = after_request c end ticks (make_request s c w)
