-- ===== src/IpCamera/Keeping.antt =====
-- What each operation of internal/ipcamera/service.go does to the map of cameras and to its file.
use dronservice_updates.Prelude.{
  String, str_eq, Bool, true, false, Option, none, some, [], ◌∷◌, ◌≡◌, ◌≢◌, refl, if_ind, All,
  lookup, insert, delete, ◌⊎◌, inl, inr,
}
use dronservice_updates.IpCamera.Types.{PersistedCamera, SaveRequest}
use dronservice_updates.IpCamera.Library.{Library}
use dronservice_updates.IpCamera.Prepare.{Error}
use dronservice_updates.IpCamera.Store.{
  Cameras, Service, Write, refused, written, unsynced, write_json_file, store, or_zero,
  saved_camera, store_or_error, save_prepared, save, forget, delete_found, delete_camera,
}

-- Each camera stands under its own ID.
abbrev pub IsKeyed : Cameras → Type 0
IsKeyed cameras = All (λ (e : String × PersistedCamera). e.1.id ≡ e.0) cameras

-- The file holds the map; there may be no file of an empty map.
abbrev pub IsSaved : Service → Type 0
IsSaved s = (s.file ≡ some s.cameras) ⊎ ((s.file ≡ none) × (s.cameras ≡ []))

-- What an operation may do: `ok` says whether it succeeds.
pub record Keeps (w : Write) (ok : Bool) (s t : Service) : Type 0 where
  pub keyed : IsKeyed s.cameras → IsKeyed t.cameras
  pub failed : ok ≡ false → (t.cameras ≡ s.cameras) × (t.online ≡ s.online)
  pub saved : w ≢ unsynced → IsSaved s → IsSaved t

unfoldable pub is_ok : Option Error → Bool
is_ok none = true
is_ok (some e) = false

unfoldable pub is_right {ℓ} : {A : Type ℓ} → Error ⊎ A → Bool
is_right (inl e) = false
is_right (inr a) = true

-- An operation that changes nothing of the store.
pub same-Keeps : (w : Write) (ok : Bool) (s : Service) → Keeps w ok s s
same-Keeps w ok s = record { keyed = λ k. k; failed = λ _. (refl, refl); saved = λ _ i. i }

pub store-Keeps :
    (w : Write) (next : Cameras) (s : Service)
    → (IsKeyed s.cameras → IsKeyed next)
    → Keeps w (store w next s).0 s (store w next s).1
unfolding store write_json_file
store-Keeps refused next s k = same-Keeps refused false s
store-Keeps written next s k = record { keyed = k; failed = λ e. cc e; saved = λ _ _. inl refl }
store-Keeps unsynced next s k = record {
  keyed = λ h. h;
  failed = λ _. (refl, refl);
  saved = λ synced _. absurd (synced refl);
}

pub delete-IsKeyed :
    (id : String) (cameras : Cameras) → IsKeyed cameras → IsKeyed (delete id cameras)
unfolding delete
delete-IsKeyed id [] h = tt
delete-IsKeyed id ((k, c) ∷ rest) h =
    if_ind IsKeyed (str_eq k id) _ _ (λ _. delete-IsKeyed id rest h.1)
      (λ _. (h.0, delete-IsKeyed id rest h.1))

pub insert-IsKeyed :
    (id : String) (c : PersistedCamera) (cameras : Cameras)
    → c.id ≡ id
    → IsKeyed cameras
    → IsKeyed (insert id c cameras)
unfolding insert
insert-IsKeyed id c cameras e h = (e, delete-IsKeyed id cameras h)

store_or_error-Keeps :
    (w : Write) (next : Cameras) (s : Service)
    → (IsKeyed s.cameras → IsKeyed next)
    → Keeps w (is_ok (store_or_error w next s).0) s (store_or_error w next s).1
unfolding store_or_error is_ok store write_json_file
store_or_error-Keeps refused next s k = store-Keeps refused next s k
store_or_error-Keeps written next s k = store-Keeps written next s k
store_or_error-Keeps unsynced next s k = store-Keeps unsynced next s k

save_prepared-Keeps :
    (w : Write) (s : Service) (r : Error ⊎ SaveRequest)
    → Keeps w (is_ok (save_prepared w s r).0) s (save_prepared w s r).1
unfolding save_prepared saved_camera
save_prepared-Keeps w s (inl e) = same-Keeps w _ s
save_prepared-Keeps w s (inr r) =
    store_or_error-Keeps w _ s
      (insert-IsKeyed r.id (saved_camera r (or_zero (lookup r.id s.cameras))) s.cameras refl)

pub save-Keeps :
    (lib : Library) (w : Write) (r : SaveRequest) (s : Service)
    → Keeps w (is_ok (save lib w r s).0) s (save lib w r s).1
unfolding save
save-Keeps lib w r s = save_prepared-Keeps w s _

forget-Keeps :
    (w : Write) (id : String) (s : Service) (x : Option Error × Service)
    → Keeps w (is_ok x.0) s x.1
    → Keeps w (is_ok (forget id x).0) s (forget id x).1
unfolding forget is_ok
forget-Keeps w id s (none, t) k = record { keyed = k.keyed; failed = λ e. cc e; saved = k.saved }
forget-Keeps w id s (some e, t) k = k

delete_found-Keeps :
    (w : Write) (id : String) (o : Option PersistedCamera) (s : Service)
    → Keeps w (is_ok (delete_found w id o s).0) s (delete_found w id o s).1
unfolding delete_found
delete_found-Keeps w id none s = same-Keeps w _ s
delete_found-Keeps w id (some c) s =
    forget-Keeps w id s _
      (store_or_error-Keeps w (delete id s.cameras) s (delete-IsKeyed id s.cameras))

pub delete_camera-Keeps :
    (w : Write) (id : String) (s : Service)
    → Keeps w (is_ok (delete_camera w id s).0) s (delete_camera w id s).1
unfolding delete_camera
delete_camera-Keeps w id s = delete_found-Keeps w id (lookup id s.cameras) s
