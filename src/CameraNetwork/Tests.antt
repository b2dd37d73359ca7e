-- ===== src/CameraNetwork/Tests.antt =====
-- A camera at 10.0.0.2/24 that eth0 reaches.
use Prim.Native.Char.{code}
use dronservice_updates.Prelude.{
  ℕ, zero, suc, ◌+◌, ◌-◌, ◌*◌, ◌^◌, ◌<◌, pos, String, str_eq, Bool, true, false, Option, none, some,
  [], ◌∷◌, ◌==◌, if◌then◌else◌, ◌≡◌, refl, ap, inr, ◌↔◌, seconds, all_codes, lookup,
}
use dronservice_updates.CameraNetwork.Address.{
  network_of, broadcast_of, is_used, among, is_gateway, search_down, select_address, max_candidates,
}
use dronservice_updates.CameraNetwork.Selection.{Finds, select_address_lem}
use dronservice_updates.CameraNetwork.Request.{
  Request, System, validate, validate_addresses, well_formed, valid_id, valid_interface, is_between,
  unicast, is_private, is_special, validate_system_interface, validate_flags, in_subnet,
}
use dronservice_updates.CameraNetwork.Admissible.{IsAdmissible, validate-IsAdmissible}
use dronservice_updates.CameraNetwork.Helper.{
  Disk, holds, Outside, done, process, process_file, process_checked, live_leases, serve, operate,
  add_lease, run_add, finish,
}
use dronservice_updates.CameraNetwork.Commands.{RunsFor, process-RunsFor}
use dronservice_updates.CameraNetwork.Ledger.{IsLedger, process-IsLedger}
use dronservice_updates.CameraNetwork.Failures.{Reported, process-Reported}
use dronservice_updates.CameraNetwork.Handshake.{make_request-validate, handshake}
use dronservice_updates.CameraNetwork.Client.{
  timed_out, Lease, Wish, Side, make_request, with_addresses, mask_prefix, with_prefix,
  with_interface, has_bytes, with_address, clamp_ttl, wait,
}

abbrev camera_ip : ℕ
camera_ip = 10 * 2 ^ 24 + 2

-- Texts for all addresses: a letter and as many more as the number says.
letters : ℕ → String
letters zero = String.[]
letters (suc n) = String.◌∷◌ "a" (letters n)

count : String → ℕ
count String.[] = 0
count (String.◌∷◌ c s) = suc (count s)

count-letters : (n : ℕ) → count (letters n) ≡ n
unfolding count letters
count-letters zero = refl
count-letters (suc n) = ap suc (count-letters n)

abbrev print : ℕ → String
print a = String.◌∷◌ "n" (letters a)

abbrev parse : String → Option ℕ
parse String.[] = none
parse (String.◌∷◌ c s) =
    if code c == b'n'
    then some (count s)
    else if str_eq (String.◌∷◌ c s) "10.0.0.2"
    then some camera_ip
    else if str_eq (String.◌∷◌ c s) "10.0.0.9"
    then some (camera_ip + 7)
    else if str_eq (String.◌∷◌ c s) "255.255.255.0"
    then some (2 ^ 32 - 256)
    else none

prints : (a : ℕ) → parse (print a) ≡ some a
prints a = ap (λ n. some n) (count-letters a)

abbrev device : System
device = record {
  parse_ip = parse;
  parse_mac = λ s. some (0 ∷ 1 ∷ 2 ∷ 3 ∷ 4 ∷ 5 ∷ []);
  interface_flags = λ name. some (false, true);
}

abbrev eth0 : String → Bool
eth0 name = str_eq name "eth0"

abbrev side : Side
side = record { local_ipv4 = (camera_ip + 252) ∷ []; print_ip = print; id = "17"; written = true }

abbrev wish : Wish
wish = record {
  camera_ip = "10.0.0.2";
  mask = "255.255.255.0";
  gateway = "";
  mac = "00:01:02:03:04:05";
  interface = "eth0";
  ttl = pos (seconds 60);
}

abbrev wished : Request
wished = record {
  id = "17";
  operation = "add";
  interface = "eth0";
  address = print (camera_ip + 251);
  prefix = pos 24;
  camera_ip = print camera_ip;
  camera_mac = "00:01:02:03:04:05";
  ttl_seconds = pos 60;
}

made : make_request device side wish ≡ inr wished
unfolding make_request with_addresses mask_prefix with_prefix with_interface has_bytes with_address
    clamp_ttl valid_interface validate_system_interface validate_flags select_address search_down
    is_used network_of broadcast_of among is_gateway all_codes
made = refl

make_request-validate_example : validate device eth0 wished ≡ none
make_request-validate_example =
    make_request-validate device side wish eth0 prints refl (unfold valid_id all_codes in refl)
      (unfold unicast in refl) wished (camera_ip + 251) made (prints (camera_ip + 251))
      (unfold is_private in refl)

select_address_lem_example :
    Finds
      (is_used 256 camera_ip none [])
      (network_of 256 camera_ip + 1)
      max_candidates
      (broadcast_of 256 camera_ip - 1)
      (select_address 256 camera_ip none [])
select_address_lem_example = select_address_lem 256 camera_ip none []

abbrev request : Request
request = record wished { address = "10.0.0.9"; camera_ip = "10.0.0.2" }

abbrev outside : Outside
outside = record {
  locked = true;
  request = holds request;
  now = seconds 5;
  arping_error = none;
  ip_error = none;
  free_address = true;
  ip_succeeds = true;
  writes_leases = true;
  writes_status = true;
}

abbrev empty : Disk
empty = record { leases = []; status = none; ran = [] }

validate-IsAdmissible_example :
    (validate device eth0 request ≡ none) ↔ IsAdmissible device eth0 request
validate-IsAdmissible_example = validate-IsAdmissible device eth0 request

process-RunsFor_example : RunsFor device eth0 outside empty (process device eth0 outside empty)
process-RunsFor_example = process-RunsFor device eth0 outside empty

process-IsLedger_example : IsLedger (process device eth0 outside empty).1.leases
process-IsLedger_example = process-IsLedger device eth0 outside empty tt

abbrev conflict : Outside
conflict = record outside { free_address = false }

process-Reported_example : Reported conflict [] (process device eth0 conflict empty)
process-Reported_example = process-Reported device eth0 conflict empty

succeeds : (process device eth0 outside empty).0 ≡ done
unfolding process process_file process_checked live_leases serve operate add_lease run_add finish
    validate validate_addresses well_formed valid_id valid_interface is_between unicast is_private
    is_special validate_system_interface validate_flags in_subnet network_of broadcast_of all_codes
    lookup
succeeds = refl

handshake_example :
    (lease : Lease) × (wait "17" timed_out ((process device eth0 outside empty).1.status ∷ [])
      ≡ inr lease)
    × (lease.address ≡ "10.0.0.9")
    × (lease.interface ≡ "eth0")
    × (seconds 5 < lease.expires_at)
handshake_example = handshake device eth0 outside empty request timed_out [] refl tt succeeds
