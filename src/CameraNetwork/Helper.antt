-- ===== src/CameraNetwork/Helper.antt =====
-- Helper.Process of internal/cameranetwork/network.go.
use dronservice_updates.Prelude.{
  ℕ, ◌+◌, ℤ, pos, String, str_eq, Bool, false, not, ◌&&◌, Option, none, some, List, [], ◌∷◌, ltb,
  ◌==◌, if◌then◌else◌, seconds, lookup, insert, delete,
}
use dronservice_updates.CameraNetwork.Request.{Request, System, Error, validate, magnitude}

pub record Status : Type 0 where
  pub id : String
  pub state : String
  pub interface : String
  pub address : String
  pub prefix : ℤ
  pub expires_at : ℕ
  pub message : String

-- A command that the helper runs.
pub data Command : Type 0 where
  arping : String → String → Command  -- an address on an interface
  add_address : String → ℤ → String → ℤ → Command  -- an address, its prefix, interface and lifetime
  del_address : String → ℤ → String → Command

-- The files that the helper writes, and the commands that it has run, the last one first.
pub record Disk : Type 0 where
  pub leases : List (String × Status)
  pub status : Option Status
  pub ran : List Command

-- The request file: it cannot be used (links, open or odd files, too many bytes), it is absent, its
-- document is malformed though it may show an ID, or it is a request.
pub data RequestFile : Type 0 where
  unusable absent : RequestFile
  malformed : String → RequestFile
  holds : Request → RequestFile

-- What the outside does during one run: the lock, the request, the time, what is wrong with the
-- programs (not installed, or an unsafe path), whether the commands succeed and whether the files can be written.
pub record Outside : Type 0 where
  pub locked : Bool
  pub request : RequestFile
  pub now : ℕ
  pub arping_error : Option String
  pub ip_error : Option String
  pub free_address : Bool
  pub ip_succeeds : Bool
  pub writes_leases : Bool
  pub writes_status : Bool

-- The error of Process: the texts of `fail`, or another.
pub data Outcome : Type 0 where
  done : Outcome
  failed : String → Outcome
  stopped : Outcome

abbrev pub ready : String
ready = "temporary_network_ready"

-- The loop that deletes the leases that have expired.
unfoldable pub live_leases : ℕ → List (String × Status) → List (String × Status)
live_leases now [] = []
live_leases now ((id, lease) ∷ rest) =
    if ltb now lease.expires_at then (id, lease) ∷ live_leases now rest else live_leases now rest

abbrev pub plain_status : String → String → String → Status
plain_status id state message = record {
  id = id;
  state = state;
  interface = "";
  address = "";
  prefix = pos 0;
  expires_at = 0;
  message = message;
}

-- The error of a status file that cannot be written is dropped.
unfoldable pub fail : Outside → String → String → String → Disk → Outcome × Disk
fail o id state message d = (
  failed state,
  if o.writes_status then record d { status = some (plain_status id state message) } else d,
)

unfoldable pub finish : Outside → List (String × Status) → Status → Disk → Outcome × Disk
finish o leases status d =
    if not o.writes_leases
    then (stopped, d)
    else if not o.writes_status
    then (stopped, record d { leases = leases })
    else (done, record d { leases = leases; status = some status })

-- What is run is run before the answer of the program is looked at.
abbrev pub run : Command → Disk → Disk
run c d = record d { ran = c ∷ d.ran }

unfoldable pub run_ip_del :
    Outside → Request → List (String × Status) → Disk → Status → Option String → Outcome × Disk
unfolding fail finish delete
run_ip_del o r leases d lease (some message) = fail o r.id "helper_failed" message d
run_ip_del o r leases d lease none =
    let d' = run (del_address lease.address lease.prefix lease.interface) d in
    if not o.ip_succeeds
    then fail o r.id "helper_failed" "remove temporary address failed" d'
    else finish o (delete r.id leases) (plain_status r.id "expired" "") d'

unfoldable pub remove_lease :
    Outside → Request → List (String × Status) → Disk → Option Status → Outcome × Disk
unfolding fail run_ip_del
remove_lease o r leases d none = fail o r.id "helper_failed" "lease is not owned by helper" d
remove_lease o r leases d (some lease) = run_ip_del o r leases d lease o.ip_error

abbrev pub ready_status : Outside → Request → Status
ready_status o r = record {
  id = r.id;
  state = ready;
  interface = r.interface;
  address = r.address;
  prefix = r.prefix;
  expires_at = o.now + seconds (magnitude r.ttl_seconds);
  message = "";
}

-- Both programs are there.
unfoldable pub run_add : Outside → Request → List (String × Status) → Disk → Outcome × Disk
unfolding fail finish insert
run_add o r leases d =
    let probed = run (arping r.address r.interface) d in
    let added = run (add_address r.address r.prefix r.interface r.ttl_seconds) probed in
    if not o.free_address
    then fail o r.id "address_conflict" "ARP duplicate-address detection found a conflict" probed
    else if not o.ip_succeeds
    then fail o r.id "helper_failed" "add temporary address failed" added
    else finish o (insert r.id (ready_status o r) leases) (ready_status o r) added

unfoldable pub add_lease :
    Outside
    → Request
    → List (String × Status)
    → Disk
    → Option String
    → Option String
    → Outcome × Disk
unfolding fail run_add
add_lease o r leases d (some message) ip = fail o r.id "helper_failed" message d
add_lease o r leases d none (some message) = fail o r.id "helper_failed" message d
add_lease o r leases d none none = run_add o r leases d

unfoldable pub same_prefix : ℤ → ℤ → Bool
same_prefix (pos m) (pos n) = m == n
same_prefix (ℤ.negsuc m) (ℤ.negsuc n) = m == n
same_prefix _ _ = false

unfoldable pub same_lease : Status → Request → Bool
unfolding same_prefix
same_lease lease r =
    str_eq lease.interface r.interface
    && str_eq lease.address r.address
    && same_prefix lease.prefix r.prefix

-- The part of Process from the test of the operation.
unfoldable pub operate :
    Outside → Request → List (String × Status) → Disk → Option Status → Outcome × Disk
unfolding remove_lease add_lease
operate o r leases d existing =
    if str_eq r.operation "remove"
    then remove_lease o r leases d existing
    else add_lease o r leases d o.arping_error o.ip_error

-- The part of Process from the look-up of the ID; the leases that have expired are deleted.
unfoldable pub serve :
    Outside → Request → List (String × Status) → Disk → Option Status → Outcome × Disk
unfolding fail finish same_lease operate
serve o r leases d none = operate o r leases d none
serve o r leases d (some lease) =
    if ltb o.now lease.expires_at
    then (if same_lease lease r
        then finish o leases lease d
        else fail o r.id "helper_failed" "request ID conflicts with an existing lease" d)
    else operate o r leases d (some lease)

error_text : Error → String
error_text Error.invalid_request = "invalid camera network request"
error_text Error.no_interface = "camera discovery interface does not exist"
error_text Error.interface_down = "camera discovery interface is loopback or down"
error_text Error.outside_subnet = "temporary address outside camera subnet"

unfoldable pub process_checked : Outside → Request → Disk → Option Error → Outcome × Disk
unfolding fail serve live_leases lookup error_text
process_checked o r d (some e) = fail o r.id "helper_failed" (error_text e) d
process_checked o r d none =
    let leases = live_leases o.now d.leases in serve o r leases d (lookup r.id leases)

unfoldable pub process_file :
    System → (String → Bool) → Outside → Disk → RequestFile → Outcome × Disk
unfolding fail process_checked validate
process_file s allowed o d unusable = (stopped, d)
process_file s allowed o d absent = (done, d)
process_file s allowed o d (malformed id) = fail o id "helper_failed" "invalid request JSON" d
process_file s allowed o d (holds r) = process_checked o r d (validate s allowed r)

-- Process
unfoldable pub process : System → (String → Bool) → Outside → Disk → Outcome × Disk
unfolding process_file
process s allowed o d = if not o.locked then (stopped, d) else process_file s allowed o d o.request
