-- ===== src/IpCamera/Owners.antt =====
-- Discover of internal/ipcamera/service.go: what it leaves of the settings that a user has saved.
use dronservice_updates.Prelude.{
  ℕ, String, str_eq, str_eq_iff, Bool, true, false, Option, some, List, [], ◌∷◌, ◌≡◌, refl, sym,
  ◌∙◌, subst, lookup, insert, lookup-insert, lookup-insert_ne, ◌⊎◌, inl, inr, Bool-cases,
}
use dronservice_updates.IpCamera.Types.{PersistedCamera, DiscoveredDevice}
use dronservice_updates.IpCamera.Library.{Library}
use dronservice_updates.IpCamera.Devices.{discovered_device_key, update_generic_discovered_camera}
use dronservice_updates.IpCamera.Store.{
  Cameras, Service, Write, refused, written, unsynced, write_json_file, store, or_zero,
}
use dronservice_updates.IpCamera.Service.{
  Online, add_devices, finish_listing, discover_found, discover,
}

-- The settings of the user are the same.
pub record IsOwned (c d : PersistedCamera) : Type 0 where
  pub name : d.name ≡ c.name
  pub username : d.username ≡ c.username
  pub password : d.password ≡ c.password
  pub in_use : d.use_it ≡ c.use_it

-- Each camera of a map is in another one, with the settings of the user.
abbrev pub Preserves : Cameras → Cameras → Type 0
Preserves before after =
    (id : String) (c : PersistedCamera)
    → lookup id before ≡ some c
    → (d : PersistedCamera) × (lookup id after ≡ some d) × IsOwned c d

pub same-IsOwned : (c : PersistedCamera) → IsOwned c c
same-IsOwned c = record { name = refl; username = refl; password = refl; in_use = refl }

pub same-Preserves : (cameras : Cameras) → Preserves cameras cameras
same-Preserves cameras id c e = (c, e, same-IsOwned c)

pub trans-Preserves : (a b c : Cameras) → Preserves a b → Preserves b c → Preserves a c
trans-Preserves a b c f g id x e =
    let (y, found, first) = f id x e in
    let (z, held, second) = g id y found in
    (
      z,
      held,
      record {
        name = second.name ∙ first.name;
        username = second.username ∙ first.username;
        password = second.password ∙ first.password;
        in_use = second.in_use ∙ first.in_use;
      },
    )

-- A camera is replaced by one with the same settings of the user.
pub insert-Preserves :
    (id : String) (cameras : Cameras) (o : Option PersistedCamera) (d : PersistedCamera)
    → lookup id cameras ≡ o
    → IsOwned (or_zero o) d
    → Preserves cameras (insert id d cameras)
unfolding or_zero
insert-Preserves id cameras o d e owned k c found = elim (Bool-cases (str_eq k id)) [
  | inl same ↦
      let at : k ≡ id = (str_eq_iff k id).0 same in
      let is : o ≡ some c = sym e ∙ subst (λ (x : String). lookup x cameras ≡ some c) at found in
      (
        d,
        subst (λ (x : String). lookup x (insert id d cameras) ≡ some d) (sym at)
            (lookup-insert id d cameras),
        subst (λ (x : Option PersistedCamera). IsOwned (or_zero x) d) is owned,
      )
  | inr other ↦ (
    c,
    lookup-insert_ne id k d cameras (λ at. cc (other, (str_eq_iff k id).1 at)) ∙ found,
    same-IsOwned c,
  )
]

add_devices-Preserves :
    (lib : Library) (now : ℕ) (found : List DiscoveredDevice) (next : Cameras) (online : Online)
    → Preserves next (add_devices lib now found next online).0
unfolding add_devices update_generic_discovered_camera
add_devices-Preserves lib now [] next online = same-Preserves next
add_devices-Preserves lib now (d ∷ rest) next online =
    let id = discovered_device_key lib d in
    let camera = update_generic_discovered_camera lib (or_zero (lookup id next)) id d now in
    trans-Preserves next (insert id camera next)
      (add_devices lib now rest (insert id camera next) (insert id true online)).0
      (insert-Preserves id next (lookup id next) camera refl
        (record { name = refl; username = refl; password = refl; in_use = refl }))
      (add_devices-Preserves lib now rest (insert id camera next) (insert id true online))

pub store-Preserves :
    (w : Write) (next : Cameras) (s : Service)
    → Preserves s.cameras next
    → Preserves s.cameras (store w next s).1.cameras
unfolding store write_json_file
store-Preserves refused next s p = same-Preserves s.cameras
store-Preserves written next s p = p
store-Preserves unsynced next s p = same-Preserves s.cameras

pub finish_listing-cameras :
    (lib : Library) (next : Cameras) (online : Online) (x : Bool × Service)
    → (finish_listing lib next online x).1.cameras ≡ x.1.cameras
unfolding finish_listing
finish_listing-cameras lib next online (true, s) = refl
finish_listing-cameras lib next online (false, s) = refl

pub finish-Preserves :
    (lib : Library) (old next : Cameras) (online : Online) (x : Bool × Service)
    → Preserves old x.1.cameras
    → Preserves old (finish_listing lib next online x).1.cameras
finish-Preserves lib old next online x p =
    subst (Preserves old) (sym (finish_listing-cameras lib next online x)) p

discover_found-Preserves :
    (lib : Library) (w : Write) (now : ℕ) (found : List DiscoveredDevice) (s : Service)
    → Preserves s.cameras (discover_found lib w now found s).1.cameras
unfolding discover_found
discover_found-Preserves lib w now [] s =
    finish-Preserves lib s.cameras s.cameras [] (true, s) (same-Preserves s.cameras)
discover_found-Preserves lib w now (d ∷ rest) s =
    let (next, online) = add_devices lib now (d ∷ rest) s.cameras [] in
    finish-Preserves lib s.cameras next online (store w next s)
      (store-Preserves w next s (add_devices-Preserves lib now (d ∷ rest) s.cameras []))

-- Every camera is in the map after a discovery, whatever was found and whether or not it was
-- written, with its name, its user name, its password and its use.
pub discover-Preserves :
    (lib : Library) (w : Write) (now : ℕ) (found : String ⊎ List DiscoveredDevice) (s : Service)
    → Preserves s.cameras (discover lib w now found s).1.cameras
unfolding discover
discover-Preserves lib w now (inl e) s = same-Preserves s.cameras
discover-Preserves lib w now (inr found) s = discover_found-Preserves lib w now found s
