-- ===== src/IpCamera/Checked.antt =====
-- prepareSaveRequest and Save of internal/ipcamera/service.go: what is stored.
use dronservice_updates.Prelude.{
  String, str_eq, trim_space, true, false, not, ◌||◌, Option, none, some, List, ◌≡◌, ◌≢◌, refl, sym,
  subst, ◌⊎◌, inl, inr, if_ind, arith, lookup, insert, lookup-insert, lookup-insert_ne,
}
use dronservice_updates.IpCamera.Types.{Ip, SaveRequest, PersistedCamera}
use dronservice_updates.IpCamera.Library.{Library}
use dronservice_updates.IpCamera.Urls.{canonical_manufacturer, valid_rtsp_url}
use dronservice_updates.IpCamera.Prepare.{
  Error, normalize_rtsp_paths, trim_request, fill_id, fill_paths, set_hosts, is_missing,
  check_request, after_normalize, prepare_trimmed, prepare_save_request,
}
use dronservice_updates.IpCamera.Prepared.{
  Agrees, On, same-Agrees, trans-Agrees, normalize_rtsp_paths-Agrees,
}
use dronservice_updates.IpCamera.Store.{
  Service, Write, refused, written, unsynced, write_json_file, store, store_or_error, or_zero,
  saved_camera, save_prepared, save,
}

-- What a request that passes has, for the request that came in and the saved password.
pub record IsPrepared (lib : Library) (saved_password : String) (r p : SaveRequest) : Type 0 where
  pub identified : str_eq p.id "" ≡ false
  pub named : str_eq p.name "" ≡ false
  pub name : p.name ≡ trim_space r.name
  pub address : p.address ≡ trim_space r.address
  pub parsed : is_missing (lib.parse_ip p.address) ≡ false
  pub manufacturer : p.manufacturer ≡ canonical_manufacturer lib r.manufacturer
  pub known : str_eq p.manufacturer "Unknown" ≡ false
  pub main : valid_rtsp_url lib p.main_stream_path ≡ true
  pub sub : valid_rtsp_url lib p.sub_stream_path ≡ true
  pub id : str_eq r.id "" ≡ false → p.id ≡ r.id
  pub username : str_eq (trim_space r.username) "" ≡ false → p.username ≡ trim_space r.username
  pub password : str_eq r.password "" ≡ false → p.password ≡ r.password
  pub kept : str_eq p.password "" ≡ true → str_eq saved_password "" ≡ true

fill_id-Agrees : (r : SaveRequest) (ip : Option Ip) → Agrees r (fill_id r ip)
unfolding fill_id
fill_id-Agrees r none = same-Agrees r
fill_id-Agrees r (some ip) =
    if_ind (Agrees r) (str_eq r.id "") _ _
      (λ blank. record {
        name = refl;
        address = refl;
        manufacturer = refl;
        id = λ given. cc (blank, given);
        username = λ _. refl;
        password = λ _. refl;
      })
      (λ _. same-Agrees r)

paths-Agrees :
    (r : SaveRequest) (main sub : String)
    → Agrees r (record r { main_stream_path = main; sub_stream_path = sub })
paths-Agrees r main sub = record {
  name = refl;
  address = refl;
  manufacturer = refl;
  id = λ _. refl;
  username = λ _. refl;
  password = λ _. refl;
}

fill_paths-Agrees :
    (lib : Library) (r : SaveRequest) (ip : Option Ip) → Agrees r (fill_paths lib r ip)
unfolding fill_paths
fill_paths-Agrees lib r ip =
    if_ind (Agrees r) (str_eq r.main_stream_path "" || str_eq r.sub_stream_path "") _ _
      (λ _. paths-Agrees r _ _) (λ _. same-Agrees r)

set_hosts-Agrees :
    (lib : Library) (r : SaveRequest) (ip : Option Ip) → Agrees r (set_hosts lib r ip)
unfolding set_hosts
set_hosts-Agrees lib r none = same-Agrees r
set_hosts-Agrees lib r (some ip) = paths-Agrees r _ _

module _ (lib : Library) (saved : String) (r : SaveRequest) where
  trimmed : SaveRequest
  trimmed = trim_request lib r

  -- A request that passes the checks, with the password that it gets.
  with_password :
      (q : SaveRequest) (password : String)
      → Agrees trimmed q
      → (str_eq q.id ""
          || str_eq q.name ""
          || is_missing (lib.parse_ip (trim_space r.address))
          || str_eq q.manufacturer "Unknown"
          || str_eq q.main_stream_path ""
          || str_eq q.sub_stream_path "")
        ≡ false
      → (not (valid_rtsp_url lib q.main_stream_path) || not (valid_rtsp_url lib q.sub_stream_path))
        ≡ false
      → (str_eq r.password "" ≡ false → password ≡ r.password)
      → (str_eq password "" ≡ true → str_eq saved "" ≡ true)
      → IsPrepared lib saved r (record q { password = password })
  unfolding trimmed trim_request
  with_password q password a filled valid given kept = record {
    identified = ground (arith, filled);
    named = ground (arith, filled);
    name = a.name;
    address = a.address;
    parsed =
        subst (λ (x : String). is_missing (lib.parse_ip x) ≡ false) (sym a.address)
          (ground (arith, filled));
    manufacturer = a.manufacturer;
    known = ground (arith, filled);
    main = ground (arith, valid);
    sub = ground (arith, valid);
    id = a.id;
    username = a.username;
    password = given;
    kept = kept;
  }

  checked-IsPrepared :
      (q : SaveRequest)
      → Agrees trimmed q
      → On (IsPrepared lib saved r) (check_request lib saved (lib.parse_ip trimmed.address) q)
  unfolding check_request trimmed trim_request
  checked-IsPrepared q a =
      if_ind (On (IsPrepared lib saved r))
        (str_eq q.id ""
          || str_eq q.name ""
          || is_missing (lib.parse_ip (trim_space r.address))
          || str_eq q.manufacturer "Unknown"
          || str_eq q.main_stream_path ""
          || str_eq q.sub_stream_path "")
        _ _ (λ _. tt)
        (λ filled.
          if_ind (On (IsPrepared lib saved r))
            (not (valid_rtsp_url lib q.main_stream_path)
              || not (valid_rtsp_url lib q.sub_stream_path))
            _ _ (λ _. tt)
            (λ valid.
              if_ind (IsPrepared lib saved r) (str_eq q.password "") _ _
                (λ blank.
                  with_password q saved a filled valid
                    (λ given. absurd (ground (arith, blank, given, a.password given))) (λ e. e))
                (λ there.
                  with_password q q.password a filled valid a.password (λ e. cc (there, e)))))

  after-IsPrepared :
      (q : SaveRequest) (x : Error ⊎ SaveRequest)
      → Agrees trimmed q
      → On (Agrees q) x
      → On (IsPrepared lib saved r) (after_normalize lib saved (lib.parse_ip trimmed.address) x)
  unfolding after_normalize
  after-IsPrepared q (inl e) a h = tt
  after-IsPrepared q (inr n) a h =
      let ip = lib.parse_ip trimmed.address in
      checked-IsPrepared (set_hosts lib n ip) (
        trans-Agrees trimmed n (set_hosts lib n ip) (trans-Agrees trimmed q n a h)
          (set_hosts-Agrees lib n ip))

  prepared : On (IsPrepared lib saved r) (prepare_save_request lib r saved)
  unfolding prepare_save_request prepare_trimmed trimmed
  prepared =
      let t = trim_request lib r in
      let ip = lib.parse_ip t.address in
      let identified = fill_id t ip in
      let q = fill_paths lib identified ip in
      after-IsPrepared q (normalize_rtsp_paths lib q)
        (trans-Agrees t identified q (fill_id-Agrees t ip) (fill_paths-Agrees lib identified ip))
        (normalize_rtsp_paths-Agrees lib q)

  -- T
  pub prepare_save_request-IsPrepared :
      (p : SaveRequest) → prepare_save_request lib r saved ≡ inr p → IsPrepared lib saved r p
  prepare_save_request-IsPrepared p e = subst (On (IsPrepared lib saved r)) e prepared

-- A store that succeeds has the new map.
stored :
    (w : Write) (next : List (String × PersistedCamera)) (s : Service)
    → (store_or_error w next s).0 ≡ none
    → (store_or_error w next s).1.cameras ≡ next
unfolding store_or_error store write_json_file
stored refused next s e = cc e
stored written next s e = refl
stored unsynced next s e = cc e

-- What a save that succeeds leaves: the camera of the request with its settings, and the other cameras.
pub record IsStored (lib : Library) (r : SaveRequest) (s t : Service) : Type 0 where
  pub request : SaveRequest
  pub prepared : IsPrepared lib (or_zero (lookup r.id s.cameras)).password r request
  pub held :
      lookup request.id t.cameras
      ≡ some (saved_camera request (or_zero (lookup request.id s.cameras)))
  pub kept_password :
      str_eq r.id "" ≡ false
      → str_eq request.password "" ≡ true
      → str_eq (or_zero (lookup request.id s.cameras)).password "" ≡ true
  pub others : (q : String) → q ≢ request.id → lookup q t.cameras ≡ lookup q s.cameras

save_prepared-IsStored :
    (lib : Library) (w : Write) (r : SaveRequest) (s : Service) (x : Error ⊎ SaveRequest)
    → On (IsPrepared lib (or_zero (lookup r.id s.cameras)).password r) x
    → (save_prepared w s x).0 ≡ none
    → IsStored lib r s (save_prepared w s x).1
unfolding save_prepared
save_prepared-IsStored lib w r s (inl e) h n = cc n
save_prepared-IsStored lib w r s (inr p) h n =
    let camera = saved_camera p (or_zero (lookup p.id s.cameras)) in
    let is = stored w (insert p.id camera s.cameras) s n in
    record {
      request = p;
      prepared = h;
      held = rw is (lookup-insert p.id camera s.cameras);
      kept_password = λ given blank.
          subst (λ (i : String). str_eq (or_zero (lookup i s.cameras)).password "" ≡ true)
            (sym (h.id given)) (h.kept blank);
      others = λ q other. rw is (lookup-insert_ne p.id q camera s.cameras other);
    }

-- After a Save that succeeds, the map holds a camera with a name and an address as they were given,
-- a known manufacturer, two RTSP URLs without users, a user name and a password that were given
-- unless they were blank, and every other camera as before; if the request names an ID, the
-- password of its camera is blank only if the one that was stored under this ID was blank.
pub save-IsStored :
    (lib : Library) (w : Write) (r : SaveRequest) (s : Service)
    → (save lib w r s).0 ≡ none
    → IsStored lib r s (save lib w r s).1
unfolding save
save-IsStored lib w r s e =
    let old = or_zero (lookup r.id s.cameras) in
    save_prepared-IsStored lib w r s (prepare_save_request lib r old.password)
      (prepared lib old.password r) e
