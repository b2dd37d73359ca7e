-- ===== src/IpCamera/Moving.antt =====
-- SaveWithCameraUpdate of internal/ipcamera/service.go: when it changes the network settings of a device.
use dronservice_updates.Prelude.{
  ℕ, String, str_eq, str_eq_iff, trim_space, trim_space_again, true, false, not, ◌||◌, Option, none,
  some, ◌∷◌, ◌≡◌, ◌≢◌, refl, sym, ◌∙◌, subst, ap, ◌⊎◌, inl, inr, if_ind, lookup,
}
use dronservice_updates.IpCamera.Types.{SaveRequest, PersistedCamera, required}
use dronservice_updates.IpCamera.Library.{Library}
use dronservice_updates.IpCamera.Prepare.{
  Error, prepare_save_request, validate_ipv4_network, check_network, v4_of,
}
use dronservice_updates.IpCamera.Devices.{text_or}
use dronservice_updates.IpCamera.Store.{
  Cameras, Service, NetworkChange, Write, refused, written, unsynced, write_json_file, store,
  store_or_error, or_zero, saved_camera, save_prepared, save,
}
use dronservice_updates.IpCamera.Service.{has_v4}
use dronservice_updates.IpCamera.Update.{
  moves, save_moved, save_checked, fill_network, save_network, save_current, trim_network,
  save_with_camera_update,
}
use dronservice_updates.IpCamera.Checked.{
  IsPrepared, prepare_save_request-IsPrepared, save-IsStored,
}

-- A run that has changed a device.
pub record Moved (lib : Library) (current : PersistedCamera) (change : NetworkChange)
    (later : Service) (x : Option Error × Service) : Type 0 where
  pub dahua : current.manufacturer ≡ "Dahua"
  pub ready : current.initialization_status ≢ required
  pub recorded : x.1.changes ≡ change ∷ later.changes
  pub from : change.from ≡ current.address
  pub differs :
      (not (str_eq change.address current.address)
        || not (str_eq change.subnet current.subnet_mask)
        || not (str_eq change.gateway current.gateway))
      ≡ true
  pub valid : has_v4 (v4_of (lib.parse_ip change.address)) ≡ true
  pub kept :
      x.0 ≡ none
      → (c : PersistedCamera) × (lookup change.id x.1.cameras ≡ some c)
        × (c.address ≡ change.address)

store-changes :
    (w : Write) (next : Cameras) (s : Service) → (store_or_error w next s).1.changes ≡ s.changes
unfolding store_or_error store write_json_file
store-changes refused next s = refl
store-changes written next s = refl
store-changes unsynced next s = refl

save_prepared-changes :
    (w : Write) (s : Service) (x : Error ⊎ SaveRequest)
    → (save_prepared w s x).1.changes ≡ s.changes
unfolding save_prepared
save_prepared-changes w s (inl e) = refl
save_prepared-changes w s (inr r) = store-changes w _ s

save-changes :
    (lib : Library) (w : Write) (r : SaveRequest) (s : Service)
    → (save lib w r s).1.changes ≡ s.changes
unfolding save
save-changes lib w r s = save_prepared-changes w s _

save_moved-changes :
    (lib : Library) (w : Write) (device : Option String) (r : SaveRequest) (s : Service)
    → (save_moved lib w device r s).1.changes ≡ s.changes
unfolding save_moved
save_moved-changes lib w (some e) r s = refl
save_moved-changes lib w none r s = save-changes lib w r s

-- After a save that succeeds, of a request that is trimmed and has an ID, the camera has its address.
save_moved-address :
    (lib : Library) (w : Write) (device : Option String) (r : SaveRequest) (s : Service)
    → str_eq r.id "" ≡ false
    → trim_space r.address ≡ r.address
    → (save_moved lib w device r s).0 ≡ none
    → (c : PersistedCamera) × (lookup r.id (save_moved lib w device r s).1.cameras ≡ some c)
      × (c.address ≡ r.address)
unfolding save_moved saved_camera
save_moved-address lib w (some e) r s identified trimmed n = cc n
save_moved-address lib w none r s identified trimmed n =
    let is = save-IsStored lib w r s n in
    let same : is.request.id ≡ r.id = is.prepared.id identified in
    (
      saved_camera is.request (or_zero (lookup is.request.id s.cameras)),
      subst
          (λ (k : String).
            lookup k (save lib w r s).1.cameras
            ≡ some (saved_camera is.request (or_zero (lookup is.request.id s.cameras))))
          same is.held,
      is.prepared.address ∙ trimmed,
    )

validate-has_v4 :
    (lib : Library) (a m g : String)
    → validate_ipv4_network lib a m g ≡ none
    → has_v4 (v4_of (lib.parse_ip a)) ≡ true
unfolding validate_ipv4_network has_v4
validate-has_v4 lib a m g = go (v4_of (lib.parse_ip a)) _ _
  where
    go : (o : Option ℕ) (e f : Option Error) → check_network o e f ≡ none → has_v4 o ≡ true
    go none e f h = cc h
    go (some x) e f h = refl

module _ (lib : Library) (w : Write) (device : Option String) (r : SaveRequest)
    (later : Service) where
  abbrev pub Moves : Option PersistedCamera → Option Error × Service → Type 0
  Moves o x =
      (x.1.changes ≡ later.changes)
      ⊎ ((current : PersistedCamera) × (change : NetworkChange) × (o ≡ some current)
          × Moved lib current change later x)

  unmoved :
      (device : Option String) (c : PersistedCamera) (o : Option PersistedCamera)
      (x : Error ⊎ SaveRequest)
      → Moves o (save_checked lib w device false c x later)
  unfolding save_checked
  unmoved device c o (inl e) = inl refl
  unmoved device c o (inr p) = inl (save-changes lib w p later)

  moved :
      (c : PersistedCamera) (filled : SaveRequest) (x : Error ⊎ SaveRequest)
      → c.manufacturer ≡ "Dahua"
      → c.initialization_status ≢ required
      → validate_ipv4_network lib filled.address filled.subnet_mask filled.gateway ≡ none
      → trim_space filled.address ≡ filled.address
      → ((p : SaveRequest) → x ≡ inr p → IsPrepared lib c.password filled p)
      → Moves (some c) (save_checked lib w device true c x later)
  unfolding save_checked
  moved c filled (inl e) d ready v t f = inl refl
  moved c filled (inr p) d ready v t f =
      let is = f p refl in
      let same : p.address ≡ filled.address = is.address ∙ t in
      let username = text_or (trim_space p.username) c.username in
      let password = text_or p.password c.password in
      let q = record p { username = username; password = password; dhcp_enabled = some false } in
      let change : NetworkChange = record {
        id = p.id;
        from = c.address;
        address = p.address;
        subnet = p.subnet_mask;
        gateway = p.gateway;
      } in
      let s = record later { changes = change ∷ later.changes } in
      if_ind (Moves (some c)) (moves p c) _ _
        (λ differs.
          if_ind (Moves (some c)) (str_eq username "" || str_eq password "") _ _ (λ _. inl refl)
            (λ _. inr (
              c,
              change,
              refl,
              record {
                dahua = d;
                ready = ready;
                recorded = save_moved-changes lib w device q s;
                from = refl;
                differs = unfold moves in differs;
                valid =
                    subst (λ (a : String). has_v4 (v4_of (lib.parse_ip a)) ≡ true) (sym same)
                      (validate-has_v4 lib filled.address filled.subnet_mask filled.gateway v);
                kept =
                    save_moved-address lib w device q s is.identified
                      (ap trim_space same ∙ t ∙ sym same);
              },
            )))
        (λ _. inl (save-changes lib w p later))

  network_moved :
      (c : PersistedCamera) (filled : SaveRequest) (e : Option Error)
      → c.manufacturer ≡ "Dahua"
      → c.initialization_status ≢ required
      → trim_space filled.address ≡ filled.address
      → validate_ipv4_network lib filled.address filled.subnet_mask filled.gateway ≡ e
      → Moves (some c) (save_network lib w device c filled e later)
  unfolding save_network
  network_moved c filled (some e) d ready t v = inl refl
  network_moved c filled none d ready t v =
      moved c filled (prepare_save_request lib filled c.password) d ready v t
        (prepare_save_request-IsPrepared lib c.password filled)

  current_moved :
      (n : SaveRequest) (o : Option PersistedCamera)
      → trim_space n.address ≡ n.address
      → Moves o (save_current lib w device n o later)
  unfolding save_current fill_network
  current_moved n none t = unmoved device (or_zero none) none (prepare_save_request lib n "")
  current_moved n (some c) t =
      if_ind (Moves (some c)) (str_eq c.initialization_status required) _ _ (λ _. inl refl)
        (λ ready.
          if_ind (Moves (some c)) (str_eq c.manufacturer "Dahua") _ _
            (λ d.
              network_moved c (fill_network n c) _ ((str_eq_iff c.manufacturer "Dahua").0 d)
                (λ e. cc (ready, (str_eq_iff c.initialization_status required).1 e)) t refl)
            (λ _. unmoved device c (some c) (prepare_save_request lib n c.password)))

  -- SaveWithCameraUpdate changes the network settings of at most one device: that of the camera of
  -- the request as it was read, a Dahua camera whose status is not uninitialized (it may be
  -- unknown), to an address that is an IPv4 address; if the call succeeds, the map holds the camera
  -- with this address.
  pub save_with_camera_update-Moves :
      (s : Service) → Moves (lookup r.id s.cameras) (save_with_camera_update lib w device r s later)
  unfolding save_with_camera_update trim_network
  save_with_camera_update-Moves s =
      current_moved (trim_network r) (lookup r.id s.cameras) (trim_space_again r.address)
