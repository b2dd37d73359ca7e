-- ===== src/Mavlink/Saving.antt =====
-- Settings survive the file, and the environment leaves a system id and a timeout.
use dronservice_updates.Prelude.{
  ◌<◌, ℤ, String, str_eq, trim_space, Bool, true, false, Option, none, some, ◌≡◌, refl, ltb, arith,
  if_ind, ap,
}
use dronservice_updates.Mavlink.Config.{
  Config, marshal, unmarshal, id_or, duration_field, is_positive, load_config_from_env,
  from_variable, accepted, parse_uint8,
}
use dronservice_updates.Mavlink.Store.{
  Store, Disk, opened, new_store, save, load_payload, zero_config,
}
use dronservice_updates.Mavlink.Merging.{IsValid, text_or-filled, trim_space-filled}

-- time.ParseDuration reads what Duration.String writes, which is never empty.
pub record Durations : Type 0 where
  pub parse : String → Option ℤ
  pub print : ℤ → String
  pub parse-print : (d : ℤ) → parse (print d) ≡ some d
  pub print_filled : (d : ℤ) → str_eq (print d) "" ≡ false

module _ (durations : Durations) where
  duration_field-print :
      (d current : ℤ) → duration_field durations.parse (durations.print d) current ≡ some d
  unfolding duration_field
  duration_field-print d current = rw (durations.print_filled d) (durations.parse-print d)

  unmarshal-marshal :
      (splits : String → Bool) (c base : Config)
      → IsValid splits c
      → unmarshal durations.parse (marshal durations.print c) base ≡ (none, c)
  unfolding unmarshal marshal id_or
  unmarshal-marshal splits c base v =
      rw
        (
          duration_field-print c.link_timeout base.link_timeout,
          duration_field-print c.message_interval base.message_interval,
          text_or-filled c.transport base.transport (ap (λ t. str_eq t "") v.by_udp),
          text_or-filled c.udp_addr base.udp_addr (trim_space-filled c.udp_addr v.addressed),
          v.identified,
        )
        refl

  -- If time.ParseDuration reads what Duration.String writes, which is never empty, then settings
  -- that Validate takes are in the store that is opened on the file of a save that succeeded.
  pub new_store-save :
      (splits : String → Bool) (c : Config) (s : Store) (d : Disk)
      → IsValid splits c
      → new_store durations.parse (save durations.print true c s d).2
        ≡ opened (record { config = c; loaded = true })
  unfolding new_store save load_payload
  new_store-save splits c s d v = rw (unmarshal-marshal splits c zero_config v) refl

accepted-keeps {ℓ} :
    {A : Type ℓ} (Good : A → Type 0) (keep : A → Bool) (o : Option A) (current : A)
    → ((v : A) → keep v ≡ true → Good v)
    → Good current
    → Good (accepted keep o current)
unfolding accepted
accepted-keeps Good keep none current kept good = good
accepted-keeps Good keep (some v) current kept good =
    if_ind Good (keep v) _ _ (λ e. kept v e) (λ _. good)

from_variable-keeps {ℓ} :
    {A : Type ℓ} (Good : A → Type 0) (parse : String → Option A) (keep : A → Bool) (value : String)
    (current : A)
    → ((v : A) → keep v ≡ true → Good v)
    → Good current
    → Good (from_variable parse keep value current)
unfolding from_variable
from_variable-keeps Good parse keep value current kept good =
    if_ind Good (str_eq (trim_space value) "") _ _ (λ _. good)
      (λ _. accepted-keeps Good keep _ current kept good)

-- An own system ID that is not zero and a positive timeout stay so, whatever the environment holds.
pub load_config_from_env-runs :
    (parse_duration : String → Option ℤ) (env : String → String) (base : Config)
    → 0 < base.out_system_id
    → is_positive base.link_timeout ≡ true
    → (0 < (load_config_from_env parse_duration env base).out_system_id)
      × (is_positive (load_config_from_env parse_duration env base).link_timeout ≡ true)
unfolding load_config_from_env
load_config_from_env-runs parse_duration env base named patient = (
  from_variable-keeps (λ n. 0 < n) parse_uint8 (ltb 0) _ _ (λ v e. ground (arith, e)) named,
  from_variable-keeps (λ d. is_positive d ≡ true) parse_duration is_positive _ _ (λ v e. e) patient,
)
