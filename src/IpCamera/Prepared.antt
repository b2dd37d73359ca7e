-- ===== src/IpCamera/Prepared.antt =====
-- prepareSaveRequest of internal/ipcamera/service.go: the requests that it lets pass.
use dronservice_updates.Prelude.{
  String, str_eq, str_eq_iff, false, not, ◌&&◌, Option, none, some, List, [], ◌∷◌, ◌≡◌, refl, sym,
  ◌∙◌, subst, ◌⊎◌, inl, inr, if_ind, arith,
}
use dronservice_updates.IpCamera.Types.{SaveRequest}
use dronservice_updates.IpCamera.Library.{Library, User}
use dronservice_updates.IpCamera.Prepare.{
  Error, split_user, take_password, take_user, take_users, set_paths, normalize_split,
  normalize_rtsp_paths,
}

-- A request after a step: a user name or a password that was given is not replaced.
pub record Agrees (r q : SaveRequest) : Type 0 where
  pub name : q.name ≡ r.name
  pub address : q.address ≡ r.address
  pub manufacturer : q.manufacturer ≡ r.manufacturer
  pub id : str_eq r.id "" ≡ false → q.id ≡ r.id
  pub username : str_eq r.username "" ≡ false → q.username ≡ r.username
  pub password : str_eq r.password "" ≡ false → q.password ≡ r.password

-- What holds of a result, if it is no error.
abbrev pub On : (SaveRequest → Type 0) → Error ⊎ SaveRequest → Type 0
On P (inl e) = Unit
On P (inr r) = P r

pub same-Agrees : (r : SaveRequest) → Agrees r r
same-Agrees r = record {
  name = refl;
  address = refl;
  manufacturer = refl;
  id = λ _. refl;
  username = λ _. refl;
  password = λ _. refl;
}

-- A text that was given, through two steps.
given :
    (a b c : String)
    → (str_eq a "" ≡ false → b ≡ a)
    → (str_eq b "" ≡ false → c ≡ b)
    → str_eq a "" ≡ false
    → c ≡ a
given a b c f g h = g (subst (λ (x : String). str_eq x "" ≡ false) (sym (f h)) h) ∙ f h

pub trans-Agrees : (a b c : SaveRequest) → Agrees a b → Agrees b c → Agrees a c
trans-Agrees a b c f g = record {
  name = g.name ∙ f.name;
  address = g.address ∙ f.address;
  manufacturer = g.manufacturer ∙ f.manufacturer;
  id = given a.id b.id c.id f.id g.id;
  username = given a.username b.username c.username f.username g.username;
  password = given a.password b.password c.password f.password g.password;
}

-- What passes the comparison of two texts.
passed :
    (a b : String) → (not (str_eq a "") && not (str_eq a b)) ≡ false → str_eq a "" ≡ false → b ≡ a
passed a b h given = sym ((str_eq_iff a b).0 (ground (arith, h, given)))

take_password-Agrees : (r : SaveRequest) (o : Option String) → On (Agrees r) (take_password r o)
unfolding take_password
take_password-Agrees r none = same-Agrees r
take_password-Agrees r (some password) =
    if_ind (On (Agrees r)) (not (str_eq r.password "") && not (str_eq r.password password)) _ _
      (λ _. tt)
      (λ h. record {
        name = refl;
        address = refl;
        manufacturer = refl;
        id = λ _. refl;
        username = λ _. refl;
        password = passed r.password password h;
      })

On-Agrees :
    (a b : SaveRequest) (x : Error ⊎ SaveRequest) → Agrees a b → On (Agrees b) x → On (Agrees a) x
On-Agrees a b (inl e) f g = tt
On-Agrees a b (inr c) f g = trans-Agrees a b c f g

take_user-Agrees : (r : SaveRequest) (o : Option User) → On (Agrees r) (take_user r o)
unfolding take_user
take_user-Agrees r none = same-Agrees r
take_user-Agrees r (some u) =
    if_ind (On (Agrees r)) (not (str_eq r.username "") && not (str_eq r.username u.username)) _ _
      (λ _. tt)
      (λ h.
        On-Agrees r (record r { username = u.username })
          (take_password (record r { username = u.username }) u.password)
          (record {
            name = refl;
            address = refl;
            manufacturer = refl;
            id = λ _. refl;
            username = passed r.username u.username h;
            password = λ _. refl;
          })
          (take_password-Agrees (record r { username = u.username }) u.password))

take_users-Agrees : (r : SaveRequest) (us : List (Option User)) → On (Agrees r) (take_users r us)
unfolding take_users
take_users-Agrees r [] = same-Agrees r
take_users-Agrees r (u ∷ us) =
    next (take_user r u) (take_user-Agrees r u) (λ q. take_users-Agrees q us)
  where
    next :
        (x : Error ⊎ SaveRequest)
        → On (Agrees r) x
        → ((q : SaveRequest) → On (Agrees q) (take_users q us))
        → On (Agrees r) (elim x [ inl e ↦ inl e | inr q ↦ take_users q us ])
    next (inl e) h f = tt
    next (inr q) h f = On-Agrees r q (take_users q us) h (f q)

set_paths-Agrees :
    (main sub : String) (r : SaveRequest) (x : Error ⊎ SaveRequest)
    → On (Agrees r) x
    → On (Agrees r) (set_paths main sub x)
unfolding set_paths
set_paths-Agrees main sub r (inl e) h = tt
set_paths-Agrees main sub r (inr q) h = record {
  name = h.name;
  address = h.address;
  manufacturer = h.manufacturer;
  id = h.id;
  username = h.username;
  password = h.password;
}

normalize_split-Agrees :
    (r : SaveRequest) (m s : Option (String × Option User)) → On (Agrees r) (normalize_split r m s)
unfolding normalize_split
normalize_split-Agrees r (some (main, u)) (some (sub, v)) =
    set_paths-Agrees main sub r (take_users r (u ∷ v ∷ [])) (take_users-Agrees r (u ∷ v ∷ []))
normalize_split-Agrees r none m = tt
normalize_split-Agrees r (some x) none = tt

pub normalize_rtsp_paths-Agrees :
    (lib : Library) (r : SaveRequest) → On (Agrees r) (normalize_rtsp_paths lib r)
unfolding normalize_rtsp_paths
normalize_rtsp_paths-Agrees lib r =
    normalize_split-Agrees r (split_user lib (lib.parse_url r.main_stream_path))
      (split_user lib (lib.parse_url r.sub_stream_path))
