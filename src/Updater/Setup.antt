-- ===== src/Updater/Setup.antt =====
-- NewClient of internal/updater/client.go.
use mathlib.Core.Option.{some-injective}
use dronservice_updates.Prelude.{
  ℕ, String, str_eq, codes, trim_space, is_letter, is_digit, all_codes, Bool, false, not, ◌&&◌,
  ◌||◌, Option, none, some, List, [], ◌∷◌, length, leb, ◌==◌, if◌then◌else◌, ◌≡◌, sym, ap, inl,
  if_ind,
}
use dronservice_updates.Updater.Client.{Client, Outside, ok, latest_release_cached}
use dronservice_updates.Updater.Safety.{IsTrusted, latest_release_cached-IsTrusted}

abbrev is_name_code : ℕ → Bool
is_name_code c = is_letter c || is_digit c || c == b'_' || c == b'.' || c == b'-'

-- A text up to the first slash, and what follows it.
cut_slash : List ℕ → List ℕ × Option (List ℕ)
cut_slash [] = ([], none)
cut_slash (c ∷ s) =
    let (before, after) = cut_slash s in if c == b'/' then ([], some s) else (c ∷ before, after)

named : List ℕ × Option (List ℕ) → Bool
unfolding all_codes
named (owner, none) = false
named (owner, some name) =
    leb 1 (length owner)
    && all_codes is_name_code owner
    && leb 1 (length name)
    && all_codes is_name_code name

-- `^[A-Za-z0-9_.-]+/[A-Za-z0-9_.-]+$`
unfoldable pub is_repository : List ℕ → Bool
unfolding cut_slash named
is_repository s = named (cut_slash s)

-- NewClient: `none` is an error.
unfoldable pub new_client : String → String → Option Client
unfolding is_repository trim_space
new_client repository current_version =
    if not (str_eq (trim_space repository) "")
      && not (is_repository (codes (trim_space repository)))
    then none
    else some (record {
      repository = trim_space repository;
      current_version = trim_space current_version;
      cached = ok (record { tag = ""; url = ""; body = "" });
      cache_expires_at = 0;
    })

-- The cache of a client after some look-ups.
unfoldable pub after_lookups : List Outside → Client → Client
after_lookups [] c = c
after_lookups (o ∷ os) c = after_lookups os (latest_release_cached o c).1

after_lookups-IsTrusted :
    (os : List Outside) (c : Client) → IsTrusted c → IsTrusted (after_lookups os c)
unfolding after_lookups
after_lookups-IsTrusted [] c v = v
after_lookups-IsTrusted (o ∷ os) c v =
    after_lookups-IsTrusted os _ (latest_release_cached-IsTrusted o c v)

-- After any look-ups of a client that NewClient has made, its cache is empty or its release, if it
-- has one, bears a version.
pub new_client-IsTrusted :
    (repository current_version : String) (os : List Outside) (c : Client)
    → new_client repository current_version ≡ some c
    → IsTrusted (after_lookups os c)
unfolding new_client
new_client-IsTrusted repository current_version os c made =
    after_lookups-IsTrusted os c (fresh made)
  where
    fresh : new_client repository current_version ≡ some c → IsTrusted c
    fresh =
        if_ind (λ (r : Option Client). r ≡ some c → IsTrusted c)
          (not (str_eq (trim_space repository) "")
            && not (is_repository (codes (trim_space repository))))
          _ _ (λ _ e. cc e)
          (λ _ e. inl (sym (ap (λ (k : Client). k.cache_expires_at) (some-injective _ c e))))
