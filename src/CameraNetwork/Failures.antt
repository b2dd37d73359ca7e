-- ===== src/CameraNetwork/Failures.antt =====
-- What a run of Helper.Process of internal/cameranetwork/network.go leaves when it reports a failure.
use dronservice_updates.Prelude.{
  String, str_eq, Bool, true, not, Option, none, some, List, ltb, ◌≡◌, refl, ap, if_ind,
}
use dronservice_updates.CameraNetwork.Request.{Request, System, Error}
use dronservice_updates.CameraNetwork.Helper.{
  Status, Disk, RequestFile, unusable, absent, malformed, holds, Outside, Outcome, failed,
  plain_status, fail, finish, run_add, add_lease, run_ip_del, remove_lease, operate, same_lease,
  serve, process_checked, process_file, process,
}

-- A failure with a state leaves the file of leases as it was, and shows the state to the client
-- where the status file can be written.
abbrev pub Reported : Outside → List (String × Status) → Outcome × Disk → Type 0
Reported o leases x =
    (state : String)
    → x.0 ≡ failed state
    → (x.1.leases ≡ leases)
      × (o.writes_status ≡ true
          → (id : String) × (message : String) × (x.1.status
              ≡ some (plain_status id state message)))

fail-Reported :
    (o : Outside) (leases : List (String × Status)) (id state message : String) (d : Disk)
    → d.leases ≡ leases
    → Reported o leases (fail o id state message d)
unfolding fail
fail-Reported o leases id state message d h s e =
    let same : state ≡ s = cc e in
    if_ind
      (λ (k : Disk).
        (k.leases ≡ leases)
        × (o.writes_status ≡ true
            → (i : String) × (m : String) × (k.status ≡ some (plain_status i s m))))
      o.writes_status _ _
      (λ _. (h, λ _. (id, message, ap (λ t. some (plain_status id t message)) same)))
      (λ shut. (h, λ written. cc (shut, written)))

finish-Reported :
    (o : Outside) (old leases : List (String × Status)) (status : Status) (d : Disk)
    → Reported o old (finish o leases status d)
unfolding finish
finish-Reported o old leases status d =
    if_ind (Reported o old) (not o.writes_leases) _ _ (λ _ s e. cc e)
      (λ _. if_ind (Reported o old) (not o.writes_status) _ _ (λ _ s e. cc e) (λ _ s e. cc e))

run_add-Reported :
    (o : Outside) (r : Request) (leases : List (String × Status)) (d : Disk)
    → Reported o d.leases (run_add o r leases d)
unfolding run_add
run_add-Reported o r leases d =
    if_ind (Reported o d.leases) (not o.free_address) _ _ (λ _. fail-Reported o _ _ _ _ _ refl)
      (λ _.
        if_ind (Reported o d.leases) (not o.ip_succeeds) _ _ (λ _. fail-Reported o _ _ _ _ _ refl)
          (λ _. finish-Reported o _ _ _ _))

run_ip_del-Reported :
    (o : Outside) (r : Request) (leases : List (String × Status)) (d : Disk) (lease : Status)
    (e : Option String)
    → Reported o d.leases (run_ip_del o r leases d lease e)
unfolding run_ip_del
run_ip_del-Reported o r leases d lease (some m) = fail-Reported o _ _ _ _ _ refl
run_ip_del-Reported o r leases d lease none =
    if_ind (Reported o d.leases) (not o.ip_succeeds) _ _ (λ _. fail-Reported o _ _ _ _ _ refl)
      (λ _. finish-Reported o _ _ _ _)

remove_lease-Reported :
    (o : Outside) (r : Request) (leases : List (String × Status)) (d : Disk) (e : Option Status)
    → Reported o d.leases (remove_lease o r leases d e)
unfolding remove_lease
remove_lease-Reported o r leases d none = fail-Reported o _ _ _ _ _ refl
remove_lease-Reported o r leases d (some lease) = run_ip_del-Reported o r leases d lease o.ip_error

add_lease-Reported :
    (o : Outside) (r : Request) (leases : List (String × Status)) (d : Disk) (a i : Option String)
    → Reported o d.leases (add_lease o r leases d a i)
unfolding add_lease
add_lease-Reported o r leases d (some m) i = fail-Reported o _ _ _ _ _ refl
add_lease-Reported o r leases d none (some m) = fail-Reported o _ _ _ _ _ refl
add_lease-Reported o r leases d none none = run_add-Reported o r leases d

operate-Reported :
    (o : Outside) (r : Request) (leases : List (String × Status)) (d : Disk) (e : Option Status)
    → Reported o d.leases (operate o r leases d e)
unfolding operate
operate-Reported o r leases d e =
    if_ind (Reported o d.leases) (str_eq r.operation "remove") _ _
      (λ _. remove_lease-Reported o r leases d e)
      (λ _. add_lease-Reported o r leases d o.arping_error o.ip_error)

serve-Reported :
    (o : Outside) (r : Request) (leases : List (String × Status)) (d : Disk) (e : Option Status)
    → Reported o d.leases (serve o r leases d e)
unfolding serve
serve-Reported o r leases d none = operate-Reported o r leases d none
serve-Reported o r leases d (some lease) =
    if_ind (Reported o d.leases) (ltb o.now lease.expires_at) _ _
      (λ _.
        if_ind (Reported o d.leases) (same_lease lease r) _ _ (λ _. finish-Reported o _ _ _ _)
          (λ _. fail-Reported o _ _ _ _ _ refl))
      (λ _. operate-Reported o r leases d (some lease))

process_checked-Reported :
    (o : Outside) (r : Request) (d : Disk) (e : Option Error)
    → Reported o d.leases (process_checked o r d e)
unfolding process_checked
process_checked-Reported o r d (some e) = fail-Reported o _ _ _ _ _ refl
process_checked-Reported o r d none = serve-Reported o r _ d _

process_file-Reported :
    (s : System) (allowed : String → Bool) (o : Outside) (d : Disk) (f : RequestFile)
    → Reported o d.leases (process_file s allowed o d f)
unfolding process_file
process_file-Reported s allowed o d unusable = λ k e. cc e
process_file-Reported s allowed o d absent = λ k e. cc e
process_file-Reported s allowed o d (malformed id) = fail-Reported o _ _ _ _ _ refl
process_file-Reported s allowed o d (holds r) = process_checked-Reported o r d _

-- A run of Process that fails with a state leaves the file of leases as it is, and if the status
-- file can be written, its status has that state and no address.
pub process-Reported :
    (s : System) (allowed : String → Bool) (o : Outside) (d : Disk)
    → Reported o d.leases (process s allowed o d)
unfolding process
process-Reported s allowed o d =
    if_ind (Reported o d.leases) (not o.locked) _ _ (λ _ k e. cc e)
      (λ _. process_file-Reported s allowed o d o.request)
