-- ===== src/CameraNetwork/Leases.antt =====
-- What Helper.Process of internal/cameranetwork/network.go leaves in its files.
use dronservice_updates.Prelude.{
  ◌<◌, ℤ, pos, negsuc, String, str_eq, str_eq_refl, Bool, true, not, Option, none, some, List, ltb,
  ◌≡◌, refl, if_ind, lookup, lookup-insert, arith,
}
use dronservice_updates.CameraNetwork.Request.{Request, System, Error, validate, magnitude}
use dronservice_updates.CameraNetwork.Helper.{
  Status, Disk, holds, Outside, Outcome, done, ready_status, live_leases, fail, finish, run_add,
  add_lease, remove_lease, operate, same_lease, same_prefix, serve, process_checked, process_file,
  process,
}
use dronservice_updates.CameraNetwork.Commands.{lookup-live}
use dronservice_updates.CameraNetwork.Checked.{lasting, validate-IsChecked}

-- A run that ends with success has a lease of the request's ID that fits the request and has not
-- expired, in the file of leases and as the status.
abbrev pub Granted : Outside → Request → Outcome × Disk → Type 0
Granted o r x =
    x.0 ≡ done
    → (lease : Status) × (lookup r.id x.1.leases ≡ some lease)
      × (x.1.status ≡ some lease)
      × (same_lease lease r ≡ true)
      × (ltb o.now lease.expires_at ≡ true)

finish-Granted :
    (o : Outside) (r : Request) (leases : List (String × Status)) (lease : Status) (d : Disk)
    → lookup r.id leases ≡ some lease
    → same_lease lease r ≡ true
    → ltb o.now lease.expires_at ≡ true
    → Granted o r (finish o leases lease d)
unfolding finish
finish-Granted o r leases lease d found same live =
    if_ind (Granted o r) (not o.writes_leases) _ _ (λ _ h. cc h)
      (λ _.
        if_ind (Granted o r) (not o.writes_status) _ _ (λ _ h. cc h)
          (λ _ h. (lease, found, refl, same, live)))

same_prefix_refl : (p : ℤ) → same_prefix p p ≡ true
unfolding same_prefix
same_prefix_refl (pos n) = ground arith
same_prefix_refl (negsuc n) = ground arith

ready_same : (o : Outside) (r : Request) → same_lease (ready_status o r) r ≡ true
unfolding same_lease
ready_same o r = rw (str_eq_refl r.interface, str_eq_refl r.address, same_prefix_refl r.prefix) refl

fail-Granted :
    (o : Outside) (r : Request) (id state message : String) (d : Disk)
    → Granted o r (fail o id state message d)
unfolding fail
fail-Granted o r id state message d h = cc h

module _ (o : Outside) (r : Request) (lasting : 0 < magnitude r.ttl_seconds) where
  run_add-Granted :
      (leases : List (String × Status)) (d : Disk) → Granted o r (run_add o r leases d)
  unfolding run_add
  run_add-Granted leases d =
      if_ind (Granted o r) (not o.free_address) _ _ (λ _. fail-Granted o r _ _ _ _)
        (λ _.
          if_ind (Granted o r) (not o.ip_succeeds) _ _ (λ _. fail-Granted o r _ _ _ _)
            (λ _.
              finish-Granted o r _ (ready_status o r) _ (lookup-insert r.id _ leases)
                (ready_same o r) (ground (arith, lasting))))

  add_lease-Granted :
      (leases : List (String × Status)) (d : Disk) (a i : Option String)
      → Granted o r (add_lease o r leases d a i)
  unfolding add_lease
  add_lease-Granted leases d (some m) i = fail-Granted o r _ _ _ _
  add_lease-Granted leases d none (some m) = fail-Granted o r _ _ _ _
  add_lease-Granted leases d none none = run_add-Granted leases d

  operate-Granted :
      (leases : List (String × Status)) (d : Disk) → Granted o r (operate o r leases d none)
  unfolding operate remove_lease
  operate-Granted leases d =
      if_ind (Granted o r) (str_eq r.operation "remove") _ _ (λ _. fail-Granted o r _ _ _ _)
        (λ _. add_lease-Granted leases d o.arping_error o.ip_error)

  serve-Granted :
      (leases : List (String × Status)) (d : Disk) (existing : Option Status)
      → lookup r.id leases ≡ existing
      → ((lease : Status) → existing ≡ some lease → ltb o.now lease.expires_at ≡ true)
      → Granted o r (serve o r leases d existing)
  unfolding serve
  serve-Granted leases d none e live = operate-Granted leases d
  serve-Granted leases d (some lease) e live =
      if_ind (Granted o r) (ltb o.now lease.expires_at) _ _
        (λ fresh.
          if_ind (Granted o r) (same_lease lease r) _ _
            (λ same. finish-Granted o r leases lease d e same fresh)
            (λ _. fail-Granted o r _ _ _ _))
        (λ late. cc (late, live lease refl))

  process_checked-Granted : (d : Disk) (e : Option Error) → Granted o r (process_checked o r d e)
  unfolding process_checked
  process_checked-Granted d (some e) = fail-Granted o r _ _ _ _
  process_checked-Granted d none =
      serve-Granted (live_leases o.now d.leases) d _ refl
        (λ lease e. lookup-live o.now r.id d.leases lease e)

-- A run that succeeds for a request has left a lease that fits it.
pub process-Granted :
    (s : System) (allowed : String → Bool) (o : Outside) (d : Disk) (r : Request)
    → o.request ≡ holds r
    → Granted o r (process s allowed o d)
unfolding process process_file
process-Granted s allowed o d r e =
    if_ind (Granted o r) (not o.locked) _ _ (λ _ h. cc h)
      (λ _. rw (e, process_file) (checked (validate s allowed r) refl))
  where
    checked : (v : Option Error) → validate s allowed r ≡ v → Granted o r (process_checked o r d v)
    checked (some x) k = unfold process_checked in fail-Granted o r _ _ _ _
    checked none k =
        let (a, camera, c) = (validate-IsChecked s allowed r).0 k in
        process_checked-Granted o r (lasting s allowed r c.formed) d none
