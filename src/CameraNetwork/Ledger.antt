-- ===== src/CameraNetwork/Ledger.antt =====
-- The file of leases that Helper.Process of internal/cameranetwork/network.go keeps.
use mathlib.Core.Option.{some-injective}
use dronservice_updates.Prelude.{
  str_eq_iff, subst, ◌∙◌, ℕ, String, str_eq, Bool, not, Option, none, some, List, [], ◌∷◌, ltb, ◌≡◌,
  refl, if_ind, lookup, insert, All, delete,
}
use dronservice_updates.CameraNetwork.Request.{Request, System, Error}
use dronservice_updates.CameraNetwork.Helper.{
  Status, Disk, RequestFile, unusable, absent, malformed, holds, Outside, Outcome, ready,
  run_ip_del, live_leases, fail, finish, run_add, add_lease, remove_lease, operate, same_lease,
  serve, process_checked, process_file, process,
}

-- A lease in the file of leases is kept under its own ID, and is ready.
abbrev pub IsOwn : String × Status → Type 0
IsOwn (id, lease) = (lease.id ≡ id) × (lease.state ≡ ready)

abbrev pub IsLedger : List (String × Status) → Type 0
IsLedger leases = All IsOwn leases

live_leases-IsLedger :
    (now : ℕ) (leases : List (String × Status))
    → IsLedger leases
    → IsLedger (live_leases now leases)
unfolding live_leases
live_leases-IsLedger now [] h = tt
live_leases-IsLedger now ((id, lease) ∷ rest) h =
    if_ind IsLedger (ltb now lease.expires_at) _ _ (λ _. (h.0, live_leases-IsLedger now rest h.1))
      (λ _. live_leases-IsLedger now rest h.1)

delete-IsLedger :
    (id : String) (leases : List (String × Status)) → IsLedger leases → IsLedger (delete id leases)
unfolding delete
delete-IsLedger id [] h = tt
delete-IsLedger id ((k, lease) ∷ rest) h =
    if_ind IsLedger (str_eq k id) _ _ (λ _. delete-IsLedger id rest h.1)
      (λ _. (h.0, delete-IsLedger id rest h.1))

pub lookup-IsOwn :
    (id : String) (leases : List (String × Status)) (lease : Status)
    → IsLedger leases
    → lookup id leases ≡ some lease
    → IsOwn (id, lease)
unfolding lookup
lookup-IsOwn id [] lease h e = cc e
lookup-IsOwn id ((k, l) ∷ rest) lease h e =
    if_ind (λ (o : Option Status). o ≡ some lease → IsOwn (id, lease)) (str_eq k id) _ _
      (λ same found.
        let at : k ≡ id = (str_eq_iff k id).0 same in
        let is : l ≡ lease = some-injective l lease found in
        subst (λ (m : Status). IsOwn (id, m)) is (h.0.0 ∙ at, h.0.1))
      (λ _. lookup-IsOwn id rest lease h.1) e

abbrev Kept : Outcome × Disk → Type 0
Kept x = IsLedger x.1.leases

fail-Kept :
    (o : Outside) (id state message : String) (d : Disk)
    → IsLedger d.leases
    → Kept (fail o id state message d)
unfolding fail
fail-Kept o id state message d h =
    if_ind (λ (e : Disk). IsLedger e.leases) o.writes_status _ _ (λ _. h) (λ _. h)

finish-Kept :
    (o : Outside) (leases : List (String × Status)) (status : Status) (d : Disk)
    → IsLedger leases
    → IsLedger d.leases
    → Kept (finish o leases status d)
unfolding finish
finish-Kept o leases status d h k =
    if_ind Kept (not o.writes_leases) _ _ (λ _. k)
      (λ _. if_ind Kept (not o.writes_status) _ _ (λ _. h) (λ _. h))

run_add-Kept :
    (o : Outside) (r : Request) (leases : List (String × Status)) (d : Disk)
    → IsLedger leases
    → IsLedger d.leases
    → Kept (run_add o r leases d)
unfolding run_add insert
run_add-Kept o r leases d h k =
    if_ind Kept (not o.free_address) _ _ (λ _. fail-Kept o _ _ _ _ k)
      (λ _.
        if_ind Kept (not o.ip_succeeds) _ _ (λ _. fail-Kept o _ _ _ _ k)
          (λ _. finish-Kept o _ _ _ ((refl, refl), delete-IsLedger r.id leases h) k))

run_ip_del-Kept :
    (o : Outside) (r : Request) (leases : List (String × Status)) (d : Disk) (lease : Status)
    (e : Option String)
    → IsLedger leases
    → IsLedger d.leases
    → Kept (run_ip_del o r leases d lease e)
unfolding run_ip_del
run_ip_del-Kept o r leases d lease (some m) h k = fail-Kept o _ _ _ _ k
run_ip_del-Kept o r leases d lease none h k =
    if_ind Kept (not o.ip_succeeds) _ _ (λ _. fail-Kept o _ _ _ _ k)
      (λ _. finish-Kept o _ _ _ (delete-IsLedger r.id leases h) k)

remove_lease-Kept :
    (o : Outside) (r : Request) (leases : List (String × Status)) (d : Disk) (e : Option Status)
    → IsLedger leases
    → IsLedger d.leases
    → Kept (remove_lease o r leases d e)
unfolding remove_lease
remove_lease-Kept o r leases d none h k = fail-Kept o _ _ _ _ k
remove_lease-Kept o r leases d (some lease) h k = run_ip_del-Kept o r leases d lease o.ip_error h k

add_lease-Kept :
    (o : Outside) (r : Request) (leases : List (String × Status)) (d : Disk) (a i : Option String)
    → IsLedger leases
    → IsLedger d.leases
    → Kept (add_lease o r leases d a i)
unfolding add_lease
add_lease-Kept o r leases d (some m) i h k = fail-Kept o _ _ _ _ k
add_lease-Kept o r leases d none (some m) h k = fail-Kept o _ _ _ _ k
add_lease-Kept o r leases d none none h k = run_add-Kept o r leases d h k

operate-Kept :
    (o : Outside) (r : Request) (leases : List (String × Status)) (d : Disk) (e : Option Status)
    → IsLedger leases
    → IsLedger d.leases
    → Kept (operate o r leases d e)
unfolding operate
operate-Kept o r leases d e h k =
    if_ind Kept (str_eq r.operation "remove") _ _ (λ _. remove_lease-Kept o r leases d e h k)
      (λ _. add_lease-Kept o r leases d o.arping_error o.ip_error h k)

serve-Kept :
    (o : Outside) (r : Request) (leases : List (String × Status)) (d : Disk) (e : Option Status)
    → IsLedger leases
    → IsLedger d.leases
    → Kept (serve o r leases d e)
unfolding serve
serve-Kept o r leases d none h k = operate-Kept o r leases d none h k
serve-Kept o r leases d (some lease) h k =
    if_ind Kept (ltb o.now lease.expires_at) _ _
      (λ _.
        if_ind Kept (same_lease lease r) _ _ (λ _. finish-Kept o _ _ _ h k)
          (λ _. fail-Kept o _ _ _ _ k))
      (λ _. operate-Kept o r leases d (some lease) h k)

process_checked-Kept :
    (o : Outside) (r : Request) (d : Disk) (e : Option Error)
    → IsLedger d.leases
    → Kept (process_checked o r d e)
unfolding process_checked
process_checked-Kept o r d (some e) k = fail-Kept o _ _ _ _ k
process_checked-Kept o r d none k = serve-Kept o r _ d _ (live_leases-IsLedger o.now d.leases k) k

process_file-Kept :
    (s : System) (allowed : String → Bool) (o : Outside) (d : Disk) (f : RequestFile)
    → IsLedger d.leases
    → Kept (process_file s allowed o d f)
unfolding process_file
process_file-Kept s allowed o d unusable k = k
process_file-Kept s allowed o d absent k = k
process_file-Kept s allowed o d (malformed id) k = fail-Kept o _ _ _ _ k
process_file-Kept s allowed o d (holds r) k = process_checked-Kept o r d _ k

-- If each lease in the file of the helper has the ID that it stands under and is ready, this is so
-- after any run of Process.
pub process-IsLedger :
    (s : System) (allowed : String → Bool) (o : Outside) (d : Disk)
    → IsLedger d.leases
    → IsLedger (process s allowed o d).1.leases
unfolding process
process-IsLedger s allowed o d k =
    if_ind Kept (not o.locked) _ _ (λ _. k) (λ _. process_file-Kept s allowed o d o.request k)
