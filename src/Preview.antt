-- ===== src/Preview.antt =====
-- internal/streampreview/manager.go: temporary MediaMTX paths for previews in a browser. A method
-- returns its result and the manager that it leaves; `m.paths` is the interface Preview/Paths with
-- the state of MediaMTX in the field `paths`. The lock makes each method one step; the range over
-- the session map goes in the order of the list, which is arbitrary.
pub mod Paths
pub mod Sessions
pub mod Invariant
pub mod Coverage
pub mod Timers
pub mod Methods
mod Tests
use dronservice_updates.Prelude.{
  ℕ, ◌+◌, ℤ, positive_or, minutes, seconds, String, str_eq, concat, Bool, true, false, ◌&&◌, Option,
  none, some, List, [], ◌∷◌, map, if◌then◌else◌,
}
use dronservice_updates.Stream.Types.{Source, empty_source, internal_preview_path_prefix}
use Paths.{PathService}

pub record Session : Type 0 where
  pub id : String
  pub path : String
  pub camera_id : String
  pub expires_at : ℕ

-- `timer` is the time for which the session's timer is set, `none` once it has fired.
pub record ManagedSession : Type 0 where
  pub session : Session
  pub open session use *
  pub timer : Option ℕ

pub record Manager (W : Type 0) : Type 0 where
  pub paths : W
  pub ttl : ℕ
  pub expiry_retry_delay : ℕ
  pub sessions : List ManagedSession
  pub closed : Bool

pub data Error : Type 0 where
  random_failed manager_closed replace_failed create_failed cleanup_failed : Error
  session_not_found delete_failed list_failed close_failed : Error

pub data Result {ℓ} (A : Type ℓ) : Type ℓ where
  ok : A → Result A
  err : Error → Result A

unfoldable pub new_manager : {W : Type 0} → W → ℤ → Manager W
new_manager w ttl = record {
  paths = w;
  ttl = positive_or ttl (minutes 10);
  expiry_retry_delay = seconds 30;
  sessions = [];
  closed = false;
}

-- `m.sessions[id]`
unfoldable pub find : String → List ManagedSession → Option ManagedSession
find id [] = none
find id (s ∷ rest) = if str_eq s.id id then some s else find id rest

-- `delete(m.sessions, id)`
unfoldable pub remove : String → List ManagedSession → List ManagedSession
remove id [] = []
remove id (s ∷ rest) = let kept = remove id rest in if str_eq s.id id then kept else s ∷ kept

-- `managed.timer = ...` on the session of that ID
unfoldable pub set_timer : String → Option ℕ → List ManagedSession → List ManagedSession
set_timer id t [] = []
set_timer id t (s ∷ rest) =
    (if str_eq s.id id then record s { timer = t } else s) ∷ set_timer id t rest

-- What the loop of StartSource leaves: whether every deletion succeeded, the sessions, MediaMTX.
pub record Sweep (W : Type 0) : Type 0 where
  pub done : Bool
  pub left : List ManagedSession
  pub world : W

unfoldable pub keep_session : {W : Type 0} → ManagedSession → Sweep W → Sweep W
keep_session s r = record r { left = s ∷ r.left }

module _ (service : PathService) where
  open service use {World, list_internal_preview_paths, apply_source, delete_config}

  -- `for activeID, active := range m.sessions`, over the sessions of one camera
  unfoldable pub replace_camera : String → List ManagedSession → World → Sweep World
  unfolding keep_session
  replace_camera camera [] w = record { done = true; left = []; world = w }
  replace_camera camera (s ∷ rest) w =
      let (deleted, w') = delete_config s.path w in
      let replaced = replace_camera camera rest w' in
      let passed = replace_camera camera rest w in
      if str_eq s.camera_id camera
      then (if deleted then replaced else record { done = false; left = s ∷ rest; world = w' })
      else keep_session s passed

  unfoldable pub new_session : Manager World → String → String → ℕ → Session
  new_session m token camera now = record {
    id = token;
    path = concat internal_preview_path_prefix token;
    camera_id = camera;
    expires_at = now + m.ttl;
  }

  -- `m.sessions[token] = managed`, with the timer of `time.AfterFunc(m.ttl, ...)` set at `now`
  unfoldable pub add_session : Manager World → Session → ℕ → Manager World
  unfolding remove
  add_session m session now = record m {
    sessions =
        record { session = session; timer = some (now + m.ttl) } ∷ remove session.id m.sessions;
  }

  -- The part of StartSource after the loop. The cleanup after a failure runs in its own context.
  unfoldable pub create : Manager World → Session → Source → ℕ → Result Session × Manager World
  unfolding add_session
  create m session source now =
      let (applied, w) = apply_source session.path source m.paths in
      let (cleaned, w') = delete_config session.path w in
      if applied
      then (ok session, add_session (record m { paths = w }) session now)
      else ((if cleaned then err create_failed else err cleanup_failed), record m { paths = w' })

  -- `random` is the token of the random bytes, `none` when they cannot be read.
  unfoldable pub start_source :
      Manager World → Option String → String → Source → ℕ → Result Session × Manager World
  unfolding replace_camera new_session create
  start_source m none camera source now = (err random_failed, m)
  start_source m (some token) camera source now =
      let swept = replace_camera camera m.sessions m.paths in
      let m' = record m { sessions = swept.left; paths = swept.world } in
      if m.closed
      then (err manager_closed, m)
      else (if swept.done
          then create m' (new_session m token camera now) source now
          else (err replace_failed, m'))

  unfoldable pub start :
      Manager World → Option String → String → String → ℕ → Result Session × Manager World
  unfolding start_source
  start m random camera source_url now =
      start_source m random camera (record empty_source { type = "ip"; input = source_url }) now

  stop_found : Manager World → ManagedSession → Result (Unit {0}) × Manager World
  unfolding remove
  stop_found m s =
      let (deleted, w) = delete_config s.path m.paths in
      if deleted
      then (ok tt, record m { sessions = remove s.id m.sessions; paths = w })
      else (err delete_failed, record m { paths = w })

  unfoldable pub stop : Manager World → String → String → Result (Unit {0}) × Manager World
  unfolding find stop_found
  stop m camera id = elim (find id m.sessions) [
    | none ↦ (err session_not_found, m)
    | some s ↦ if str_eq s.camera_id camera then stop_found m s else (err session_not_found, m)
  ]

  -- DeleteConfig of each path; whether all succeeded, and MediaMTX after the last.
  unfoldable pub delete_all : List String → World → Bool × World
  delete_all [] w = (true, w)
  delete_all (p ∷ rest) w =
      let (deleted, w') = delete_config p w in
      let (others, w'') = delete_all rest w' in (deleted && others, w'')

  unfoldable pub cleanup : Manager World → Result (Unit {0}) × Manager World
  unfolding delete_all
  cleanup m = elim (list_internal_preview_paths m.paths) [
    | none ↦ (err list_failed, m)
    | some stale ↦
        let (deleted, w) = delete_all stale m.paths in
        ((if deleted then ok tt else err close_failed), record m { paths = w })
  ]

  unfoldable pub close : Manager World → Result (Unit {0}) × Manager World
  unfolding delete_all
  close m =
      let (deleted, w) = delete_all (map (λ s. s.path) m.sessions) m.paths in
      (
        (if deleted then ok tt else err close_failed),
        record m { closed = true; sessions = []; paths = w },
      )

  expire_found : Manager World → ManagedSession → ℕ → Manager World
  unfolding remove set_timer
  expire_found m s now =
      let (deleted, w) = delete_config s.path m.paths in
      if deleted then record m { sessions = remove s.id m.sessions; paths = w } else record m {
        sessions = set_timer s.id (some (now + m.expiry_retry_delay)) m.sessions;
        paths = w;
      }

  -- The callback of a timer.
  unfoldable pub expire : Manager World → String → ℕ → Manager World
  unfolding find expire_found
  expire m id now = elim (find id m.sessions) [ none ↦ m | some s ↦ expire_found m s now ]
