-- ===== src/CameraNetwork/Commands.antt =====
-- Which commands Helper.Process of internal/cameranetwork/network.go runs.
use mathlib.Core.Option.{some-injective}
use dronservice_updates.Prelude.{
  not-false, ℕ, String, str_eq, Bool, true, not, Option, none, some, List, [], ◌∷◌, ltb, ◌≡◌, refl,
  ◌⊎◌, inl, inr, if_ind, lookup, subst,
}
use dronservice_updates.CameraNetwork.Request.{Request, System, Error, validate}
use dronservice_updates.CameraNetwork.Helper.{
  Status, arping, add_address, Disk, RequestFile, unusable, absent, malformed, holds, Outside,
  Outcome, live_leases, fail, finish, run_add, add_lease, remove_lease, operate, same_lease, serve,
  process_checked, process_file, process,
}

pub lookup-live :
    (now : ℕ) (id : String) (leases : List (String × Status)) (lease : Status)
    → lookup id (live_leases now leases) ≡ some lease
    → ltb now lease.expires_at ≡ true
unfolding lookup live_leases
lookup-live now id [] lease e = cc e
lookup-live now id ((k, l) ∷ rest) lease e =
    if_ind Q (ltb now l.expires_at) _ _
      (λ live.
        if_ind (λ (o : Option Status). o ≡ some lease → ltb now lease.expires_at ≡ true)
          (str_eq k id) _ _
          (λ _ h.
            subst (λ (s : Status). ltb now s.expires_at ≡ true) (some-injective l lease h) live)
          (λ _. lookup-live now id rest lease))
      (λ _. lookup-live now id rest lease) e
  where
    Q : List (String × Status) → Type 0
    Q xs = lookup id xs ≡ some lease → ltb now lease.expires_at ≡ true

-- What a run for a request adds to the commands: nothing, a probe, or after a probe that found no
-- conflict the address.
abbrev pub Ran : Outside → Request → Disk → Outcome × Disk → Type 0
Ran o r d x =
    (x.1.ran ≡ d.ran)
    ⊎ ((x.1.ran ≡ arping r.address r.interface ∷ d.ran)
        ⊎ ((o.free_address ≡ true)
            × (x.1.ran
                ≡ add_address r.address r.prefix r.interface r.ttl_seconds
                  ∷ arping r.address r.interface
                  ∷ d.ran)))

fail_ran :
    (o : Outside) (id state message : String) (d : Disk) → (fail o id state message d).1.ran ≡ d.ran
unfolding fail
fail_ran o id state message d =
    if_ind (λ (x : Disk). x.ran ≡ d.ran) o.writes_status _ _ (λ _. refl) (λ _. refl)

finish_ran :
    (o : Outside) (leases : List (String × Status)) (status : Status) (d : Disk)
    → (finish o leases status d).1.ran ≡ d.ran
unfolding finish
finish_ran o leases status d =
    if_ind (λ (x : Outcome × Disk). x.1.ran ≡ d.ran) (not o.writes_leases) _ _ (λ _. refl)
      (λ _.
        if_ind (λ (x : Outcome × Disk). x.1.ran ≡ d.ran) (not o.writes_status) _ _ (λ _. refl)
          (λ _. refl))

run_add-Ran :
    (o : Outside) (r : Request) (leases : List (String × Status)) (d : Disk)
    → Ran o r d (run_add o r leases d)
unfolding run_add
run_add-Ran o r leases d =
    if_ind (Ran o r d) (not o.free_address) _ _ (λ _. inr (inl (fail_ran o _ _ _ _)))
      (λ free.
        if_ind (Ran o r d) (not o.ip_succeeds) _ _
          (λ _. inr (inr (not-false _ free, fail_ran o _ _ _ _)))
          (λ _. inr (inr (not-false _ free, finish_ran o _ _ _))))

add_lease-Ran :
    (o : Outside) (r : Request) (leases : List (String × Status)) (d : Disk) (a i : Option String)
    → Ran o r d (add_lease o r leases d a i)
unfolding add_lease
add_lease-Ran o r leases d (some m) i = inl (fail_ran o _ _ _ _)
add_lease-Ran o r leases d none (some m) = inl (fail_ran o _ _ _ _)
add_lease-Ran o r leases d none none = run_add-Ran o r leases d

operate-Ran :
    (o : Outside) (r : Request) (leases : List (String × Status)) (d : Disk)
    → Ran o r d (operate o r leases d none)
unfolding operate remove_lease
operate-Ran o r leases d =
    if_ind (Ran o r d) (str_eq r.operation "remove") _ _ (λ _. inl (fail_ran o _ _ _ _))
      (λ _. add_lease-Ran o r leases d o.arping_error o.ip_error)

serve-Ran :
    (o : Outside) (r : Request) (leases : List (String × Status)) (d : Disk)
    (existing : Option Status)
    → ((lease : Status) → existing ≡ some lease → ltb o.now lease.expires_at ≡ true)
    → Ran o r d (serve o r leases d existing)
unfolding serve
serve-Ran o r leases d none live = operate-Ran o r leases d
serve-Ran o r leases d (some lease) live =
    if_ind (Ran o r d) (ltb o.now lease.expires_at) _ _
      (λ _.
        if_ind (Ran o r d) (same_lease lease r) _ _ (λ _. inl (finish_ran o _ _ _))
          (λ _. inl (fail_ran o _ _ _ _)))
      (λ late. cc (late, live lease refl))

-- What a whole run adds to the commands.
pub RunsFor : System → (String → Bool) → Outside → Disk → Outcome × Disk → Type 0
RunsFor s allowed o d x =
    (x.1.ran ≡ d.ran)
    ⊎ ((r : Request) × (o.request ≡ holds r)
        × (o.locked ≡ true)
        × (validate s allowed r ≡ none)
        × Ran o r d x)

process_checked-RunsFor :
    (s : System) (allowed : String → Bool) (o : Outside) (r : Request) (d : Disk) (e : Option Error)
    → o.request ≡ holds r
    → o.locked ≡ true
    → validate s allowed r ≡ e
    → RunsFor s allowed o d (process_checked o r d e)
unfolding process_checked RunsFor
process_checked-RunsFor s allowed o r d (some e) h l k = inl (fail_ran o _ _ _ _)
process_checked-RunsFor s allowed o r d none h l k =
    inr (r, h, l, k, serve-Ran o r _ d _ (λ lease e. lookup-live o.now r.id d.leases lease e))

process_file-RunsFor :
    (s : System) (allowed : String → Bool) (o : Outside) (d : Disk) (f : RequestFile)
    → o.request ≡ f
    → o.locked ≡ true
    → RunsFor s allowed o d (process_file s allowed o d f)
unfolding process_file RunsFor
process_file-RunsFor s allowed o d unusable h l = inl refl
process_file-RunsFor s allowed o d absent h l = inl refl
process_file-RunsFor s allowed o d (malformed id) h l = inl (fail_ran o _ _ _ _)
process_file-RunsFor s allowed o d (holds r) h l =
    process_checked-RunsFor s allowed o r d _ h l refl

-- One run of Process adds to the commands of the helper nothing, or for a request that passes
-- validate, under the lock, an ARP probe of its address, and after a probe that found no conflict
-- the command that adds this address to its interface for its lifetime; no run removes an address.
pub process-RunsFor :
    (s : System) (allowed : String → Bool) (o : Outside) (d : Disk)
    → RunsFor s allowed o d (process s allowed o d)
unfolding process
process-RunsFor s allowed o d =
    if_ind (RunsFor s allowed o d) (not o.locked) _ _ (λ _. unfold RunsFor in inl refl)
      (λ locked. process_file-RunsFor s allowed o d o.request refl (not-false _ locked))
