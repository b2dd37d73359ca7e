-- ===== src/Updater/Safety.antt =====
-- What Request of internal/updater/client.go publishes, and how long a release is kept.
use dronservice_updates.Prelude.{
  ◌+◌, ◌<◌, ◌≤◌, true, false, not, ◌||◌, Option, none, some, ◌≡◌, refl, sym, ◌∙◌, ◌⊎◌, inr, codes,
  String, ltb, subst, and_true, minutes, arith, if_ind, str_eq,
}
use dronservice_updates.Updater.Version.{valid_version, newer_version}
use dronservice_updates.Updater.Client.{
  Error, Result, ok, err, Release, Reply, no_response, wrong_status, no_json, document, Files,
  Client, Status, Outside, Publication, latest_release, latest_release_cached, complete,
  local_status, with_release, status, request, request_with, publish, cache_ttl, active_status,
  pending_status, persisted_status, PersistedStatus, read_persisted_status, idle_status,
  is_active_state,
}

-- A release that the updater may offer: its tag is a version.
pub HasVersion : Result Release → Type 0
HasVersion (ok r) = valid_version (codes r.tag) ≡ true
HasVersion (err e) = Unit {0}

-- The cache holds nothing yet, or what GitHub answered.
abbrev pub IsTrusted : Client → Type 0
IsTrusted c = (c.cache_expires_at ≡ 0) ⊎ HasVersion c.cached

latest_release-HasVersion : (reply : Reply) → HasVersion (latest_release reply)
unfolding latest_release HasVersion
latest_release-HasVersion no_response = tt
latest_release-HasVersion wrong_status = tt
latest_release-HasVersion no_json = tt
latest_release-HasVersion (document p) =
    if_ind HasVersion (not (valid_version (codes p.tag))) _ _ (λ _. tt)
      (λ valid. if_ind HasVersion (not (complete p.assets)) _ _ (λ _. tt) (λ _. ground arith))

-- Looking a release up keeps the cache trusted.
pub latest_release_cached-IsTrusted :
    (o : Outside) (c : Client) → IsTrusted c → IsTrusted (latest_release_cached o c).1
unfolding latest_release_cached
latest_release_cached-IsTrusted o c trusted =
    if_ind (λ (x : Result Release × Client). IsTrusted x.1) (ltb o.now c.cache_expires_at) _ _
      (λ _. trusted)
      (λ _.
        if_ind (λ (x : Result Release × Client). IsTrusted x.1) o.canceled _ _ (λ _. trusted)
          (λ _. inr (latest_release-HasVersion o.reply)))

cache_ttl_least : (r : Result Release) → minutes 1 ≤ cache_ttl r
unfolding cache_ttl
cache_ttl_least (ok r) = omega arith
cache_ttl_least (err e) = omega arith

-- For a minute after a release was asked for in a context that was not canceled, a second look-up
-- returns the same and leaves the cache as it is, whatever GitHub would answer.
pub latest_release_cached_again :
    (o o' : Outside) (c : Client)
    → c.cache_expires_at ≤ o.now
    → o.canceled ≡ false
    → o'.now < o.stored_at + minutes 1
    → latest_release_cached o' (latest_release_cached o c).1 ≡ latest_release_cached o c
unfolding latest_release_cached
latest_release_cached_again o o' c expired live soon =
    let e : ltb o.now c.cache_expires_at ≡ false = ground arith in
    let k : ltb o'.now (o.stored_at + cache_ttl (latest_release o.reply)) ≡ true =
      ground (arith, cache_ttl_least (latest_release o.reply)) in
    rw (e, live, k) refl

publish_lem :
    (p : Publication) (version v : String) (f : Files)
    → p.appeared ≡ none
    → f.request_file ≡ none
    → (publish p version f).1.request_file ≡ some v
    → (v ≡ version) × ((publish p version f).0 ≡ ok tt)
unfolding publish
publish_lem p version v f alone fresh =
    rw (alone, publish)
      (if_ind
        (λ (x : Result (Unit {0}) × Files).
          x.1.request_file ≡ some v → (v ≡ version) × (x.0 ≡ ok tt))
        p.linkable _ _ (λ _ e. (cc e, refl)) (λ _ e. cc (e, fresh)))

-- What a status says that leads to the request of the version `v`.
abbrev Offers : Status → String → Type 0
Offers s v =
    (v ≡ s.latest_version)
    × (s.update_available ≡ true)
    × (s.installing ≡ false)
    × (s.check_failed ≡ false)

abbrev Published : Status → String → Result (Unit {0}) × Files → Type 0
Published s v x = x.1.request_file ≡ some v → Offers s v × (x.0 ≡ ok tt)

request_with-Published :
    (p : Publication) (s : Status) (f : Files) (v : String)
    → p.appeared ≡ none
    → f.request_file ≡ none
    → Published s v (request_with p s f)
unfolding request_with
request_with-Published p s f v alone fresh =
    let old : (e : Error) → Published s v (err e, f) = λ e h. cc (h, fresh) in
    if_ind (Published s v) (not s.enabled) _ _ (λ _. old _)
      (λ _.
        if_ind (Published s v) s.installing _ _ (λ _ h. cc (h, fresh))
          (λ idle.
            if_ind (Published s v) s.check_failed _ _ (λ _. old _)
              (λ checked.
                if_ind (Published s v)
                  (not s.update_available || not (valid_version (codes s.latest_version))) _ _
                  (λ _. old _)
                  (λ offered.
                    if_ind (Published s v) (not p.written) _ _ (λ _. old _)
                      (λ _ h.
                        let (e, done) = publish_lem p s.latest_version v f alone fresh h in
                        ((e, ground (arith, offered), idle, checked), done))))))

-- The release behind an offer, under the name of the version that is offered.
abbrev pub IsOffer : Result Release → String → String → Type 0
IsOffer (err e) v current = ⊥
IsOffer (ok r) v current = (r.tag ≡ v) × (newer_version (codes v) (codes current) ≡ true)

with_release-IsOffer :
    (r : Result Release) (s : Status) (v : String)
    → Offers (with_release r s) v
    → IsOffer r v s.current_version × (s.installing ≡ false)
unfolding with_release
with_release-IsOffer (err e) s v offers = cc (offers.3)
with_release-IsOffer (ok r) s v (e, available, idle, checked) =
    ((sym e, rw (e) (and_true _ _ available).0), idle)

-- What the files do not change in a status.
abbrev Keeps : Status → Status → Type 0
Keeps s t =
    (t.current_version ≡ s.current_version)
    × (t.enabled ≡ s.enabled)
    × (t.update_available ≡ s.update_available)

active_status-Keeps : (s : Status) → Keeps s (active_status s)
unfolding active_status
active_status-Keeps s =
    if_ind (Keeps s) (is_active_state s.state) _ _ (λ _. (refl, refl, refl))
      (λ _. (refl, refl, refl))

pending_status-Keeps : (v : Option String) (s : Status) → Keeps s (pending_status v s)
unfolding pending_status
pending_status-Keeps none s = (refl, refl, refl)
pending_status-Keeps (some v) s = (refl, refl, refl)

persisted_status-Keeps : (o : Option PersistedStatus) (s : Status) → Keeps s (persisted_status o s)
unfolding persisted_status
persisted_status-Keeps none s = (refl, refl, refl)
persisted_status-Keeps (some v) s = (refl, refl, refl)

local_status-Keeps : (c : Client) (f : Files) → Keeps (idle_status c) (local_status c f)
unfolding local_status
local_status-Keeps c f =
    let s = persisted_status (read_persisted_status f) (idle_status c) in
    let (a, b, d) = persisted_status-Keeps (read_persisted_status f) (idle_status c) in
    let (a', b', d') = pending_status-Keeps f.request_file s in
    let (a'', b'', d'') = active_status-Keeps (pending_status f.request_file s) in
    (a'' ∙ a' ∙ a, b'' ∙ b' ∙ b, d'' ∙ d' ∙ d)

status-IsOffer :
    (o : Outside) (f : Files) (c : Client) (v : String)
    → Offers (status o f c).0 v
    → IsOffer (latest_release_cached o c).0 v c.current_version
      × ((local_status c f).installing ≡ false)
unfolding status
status-IsOffer o f c v =
    let s = local_status c f in
    if_ind
      (λ (x : Status × Client).
        Offers x.0 v
        → IsOffer (latest_release_cached o c).0 v c.current_version × (s.installing ≡ false))
      (not s.enabled) _ _ (λ _ offers. cc (offers.1, (local_status-Keeps c f).2))
      (λ _ offers.
        let (offer, idle) = with_release-IsOffer (latest_release_cached o c).0 s v offers in
        (subst (IsOffer (latest_release_cached o c).0 v) (local_status-Keeps c f).0 offer, idle))

-- If no request was there and no other process makes one meanwhile, and there is a request after
-- Request, then it names the release that the client knows, whose version is newer than the running
-- one, no update was being installed, and Request succeeds.
pub request_publishes_newer :
    (o : Outside) (p : Publication) (f : Files) (c : Client) (v : String)
    → p.appeared ≡ none
    → f.request_file ≡ none
    → (request o p f c).1.request_file ≡ some v
    → IsOffer (latest_release_cached o c).0 v c.current_version
      × ((local_status c f).installing ≡ false)
      × ((request o p f c).0 ≡ ok tt)
unfolding request
request_publishes_newer o p f c v alone fresh e =
    let (offers, done) = request_with-Published p (status o f c).0 f v alone fresh e in
    let (offer, idle) = status-IsOffer o f c v offers in (offer, idle, done)

pending-installing :
    (c : Client) (f : Files) (v : String)
    → f.request_file ≡ some v
    → (local_status c f).installing ≡ true
unfolding local_status pending_status active_status
pending-installing c f v e =
    rw (e, pending_status)
      (if_ind (λ (s : Status). s.installing ≡ true) (is_active_state "pending") _ _ (λ _. refl)
        (λ _. refl))

request_with-busy :
    (p : Publication) (s : Status) (f : Files)
    → s.enabled ≡ true
    → s.installing ≡ true
    → request_with p s f ≡ (ok tt, f)
unfolding request_with
request_with-busy p s f e k = rw (e, k) refl

with_release-busy :
    (r : Result Release) (s : Status)
    → ((with_release r s).enabled ≡ s.enabled) × ((with_release r s).installing ≡ s.installing)
unfolding with_release
with_release-busy (ok r) s = (refl, refl)
with_release-busy (err e) s = (refl, refl)

status-busy :
    (o : Outside) (f : Files) (c : Client)
    → (local_status c f).enabled ≡ true
    → (local_status c f).installing ≡ true
    → ((status o f c).0.enabled ≡ true) × ((status o f c).0.installing ≡ true)
unfolding status
status-busy o f c e k =
    let (a, b) = with_release-busy (latest_release_cached o c).0 (local_status c f) in
    if_ind (λ (x : Status × Client). (x.0.enabled ≡ true) × (x.0.installing ≡ true))
      (not (local_status c f).enabled) _ _ (λ disabled. cc (e, disabled)) (λ _. (a ∙ e, b ∙ k))

-- If a request is there and the client has a repository, Request succeeds and leaves the files as
-- they are, whatever GitHub offers.
pub request_keeps_pending :
    (o : Outside) (p : Publication) (f : Files) (c : Client) (v : String)
    → f.request_file ≡ some v
    → str_eq c.repository "" ≡ false
    → ((request o p f c).0 ≡ ok tt) × ((request o p f c).1 ≡ f)
unfolding request
request_keeps_pending o p f c v e configured =
    let (enabled, installing) =
      status-busy o f c (rw ((local_status-Keeps c f).1, configured) refl)
        (pending-installing c f v e) in
    rw (request_with-busy p (status o f c).0 f enabled installing) (refl, refl)
