-- ===== src/IpCamera/Secrets.antt =====
-- List of internal/ipcamera/service.go and the passwords.
use dronservice_updates.Prelude.{
  String, str_eq, Bool, Option, none, some, List, [], ◌∷◌, ◌≡◌, refl, lookup, subst, sym,
}
use dronservice_updates.IpCamera.Types.{PersistedCamera}
use dronservice_updates.IpCamera.Library.{Library, Url, is_rtsp}
use dronservice_updates.IpCamera.Urls.{drop_credentials, rtsp_url_without_credentials}
use dronservice_updates.IpCamera.Devices.{text_or}
use dronservice_updates.IpCamera.Store.{
  Cameras, Service, camera_from_persisted, cameras_from_persisted, list, is_online,
}

-- Two URLs that differ in their users at most.
abbrev pub SameTarget : Option Url → Option Url → Type 0
SameTarget none none = Unit
SameTarget (some u) (some v) = (u.scheme ≡ v.scheme) × (u.host ≡ v.host) × (u.rest ≡ v.rest)
SameTarget _ _ = ⊥

-- Two cameras that differ in passwords, which both are blank or both are not, and in the users of
-- URLs at most.
pub record Alike (lib : Library) (c d : PersistedCamera) : Type 0 where
  pub others : d ≡ record c {
    password = d.password;
    main_stream_path = d.main_stream_path;
    sub_stream_path = d.sub_stream_path;
    legacy_rtsp_path = d.legacy_rtsp_path;
  }
  pub blank : str_eq d.password "" ≡ str_eq c.password ""
  pub main :
      SameTarget
        (lib.parse_url (text_or c.main_stream_path c.legacy_rtsp_path))
        (lib.parse_url (text_or d.main_stream_path d.legacy_rtsp_path))
  pub sub : SameTarget (lib.parse_url c.sub_stream_path) (lib.parse_url d.sub_stream_path)

drop_same :
    (lib : Library) (o p : Option Url)
    → SameTarget o p
    → drop_credentials lib o ≡ drop_credentials lib p
unfolding drop_credentials is_rtsp
drop_same lib none none h = refl
drop_same lib (some u) (some v) h = rw (h.0, h.1, h.2) refl
drop_same lib none (some v) h = absurd h
drop_same lib (some u) none h = absurd h

shown_same :
    (lib : Library) (c d : PersistedCamera) (online : Bool)
    → Alike lib c d
    → camera_from_persisted lib c online ≡ camera_from_persisted lib d online
unfolding camera_from_persisted rtsp_url_without_credentials
shown_same lib c d online a =
    let main =
      drop_same lib (lib.parse_url (text_or c.main_stream_path c.legacy_rtsp_path))
        (lib.parse_url (text_or d.main_stream_path d.legacy_rtsp_path)) a.main in
    let sub =
      drop_same lib (lib.parse_url c.sub_stream_path) (lib.parse_url d.sub_stream_path) a.sub in
    subst
      (λ (x : PersistedCamera).
        camera_from_persisted lib c online ≡ camera_from_persisted lib x online)
      (sym a.others) (rw (main, sub, a.blank) refl)

-- Two maps with the same IDs whose cameras differ in secrets only.
abbrev pub AllAlike : Library → Cameras → Cameras → Type 0
AllAlike lib [] [] = Unit
AllAlike lib ((i, c) ∷ cs) ((j, d) ∷ ds) = (i ≡ j) × Alike lib c d × AllAlike lib cs ds
AllAlike lib _ _ = ⊥

shown_all :
    (lib : Library) (cs ds : Cameras) (online : List (String × Bool))
    → AllAlike lib cs ds
    → cameras_from_persisted lib cs online ≡ cameras_from_persisted lib ds online
unfolding cameras_from_persisted
shown_all lib [] [] online a = refl
shown_all lib ((i, c) ∷ cs) ((j, d) ∷ ds) online a =
    rw (a.0, shown_same lib c d (is_online (lookup j online)) a.1, shown_all lib cs ds online a.2)
      refl
shown_all lib [] ((j, d) ∷ ds) online a = absurd a
shown_all lib ((i, c) ∷ cs) [] online a = absurd a

-- List shows the same of two services whose cameras differ at most in passwords, each of them blank
-- in both or in none, and in the users of URLs.
pub list_hides :
    (lib : Library) (s t : Service)
    → AllAlike lib s.cameras t.cameras
    → s.online ≡ t.online
    → list lib s ≡ list lib t
unfolding list
list_hides lib s t a e = rw e (shown_all lib s.cameras t.cameras t.online a)
