-- ===== src/Mavlink/Merging.antt =====
-- How settings override each other, and that settings from the environment stay valid.
use dronservice_updates.Prelude.{
  not-false, ℕ, ℤ, pos, negsuc, String, str_eq, str_eq_iff, trim_space, Bool, true, false, not,
  Option, none, ◌==◌, ◌≡◌, refl, ◌↔◌, inl, inr, arith, if_ind, Bool-cases, ap,
}
use dronservice_updates.Mavlink.Config.{
  Config, merge, text_or, id_or, duration_or, is_positive, validate, below_50ms, Error,
  transport_udp,
}

text_or_assoc : (s t u : String) → text_or u (text_or t s) ≡ text_or (text_or u t) s
unfolding text_or
text_or_assoc s t u = ground arith

id_or_assoc : (a b c : ℕ) → id_or c (id_or b a) ≡ id_or (id_or c b) a
unfolding id_or
id_or_assoc a b c = ground arith

duration_or_assoc : (a b c : ℤ) → duration_or c (duration_or b a) ≡ duration_or (duration_or c b) a
unfolding duration_or
duration_or_assoc a b c = ground arith

-- Merging three settings gives the same from the left and from the right.
pub merge_assoc : (a b c : Config) → merge (merge a b) c ≡ merge a (merge b c)
unfolding merge
merge_assoc a b c =
    rw
      (
        text_or_assoc a.transport b.transport c.transport,
        text_or_assoc a.udp_addr b.udp_addr c.udp_addr,
        id_or_assoc a.out_system_id b.out_system_id c.out_system_id,
        duration_or_assoc a.link_timeout b.link_timeout c.link_timeout,
        duration_or_assoc a.message_interval b.message_interval c.message_interval,
      )
      refl

-- What Validate has found out about settings that it takes.
pub record IsValid (splits : String → Bool) (c : Config) : Type 0 where
  pub by_udp : c.transport ≡ transport_udp
  pub addressed : str_eq (trim_space c.udp_addr) "" ≡ false
  pub separable : splits c.udp_addr ≡ true
  pub identified : (c.out_system_id == 0) ≡ false
  pub patient : is_positive c.link_timeout ≡ true
  pub paced : below_50ms c.message_interval ≡ false

validated : (splits : String → Bool) (c : Config) → validate splits c ≡ none → IsValid splits c
unfolding validate
validated splits c =
    if_ind Ok (not (str_eq c.transport transport_udp)) _ _ (λ _ e. cc e)
      (λ a.
        if_ind Ok (str_eq (trim_space c.udp_addr) "") _ _ (λ _ e. cc e)
          (λ b.
            if_ind Ok (not (splits c.udp_addr)) _ _ (λ _ e. cc e)
              (λ d.
                if_ind Ok (c.out_system_id == 0) _ _ (λ _ e. cc e)
                  (λ f.
                    if_ind Ok (not (is_positive c.link_timeout)) _ _ (λ _ e. cc e)
                      (λ g.
                        if_ind Ok (below_50ms c.message_interval) _ _ (λ _ e. cc e)
                          (λ h _. record {
                            by_udp = (str_eq_iff c.transport transport_udp).0 (not-false _ a);
                            addressed = b;
                            separable = not-false _ d;
                            identified = f;
                            patient = not-false _ g;
                            paced = h;
                          }))))))
  where
    Ok : Option Error → Type 0
    Ok o = o ≡ none → IsValid splits c

-- Validate reports no error exactly for settings by UDP at an address with host and port, with an
-- own system ID that is not zero, a positive timeout and an interval of 50 ms at least.
pub validate-IsValid :
    (splits : String → Bool) (c : Config) → (validate splits c ≡ none) ↔ IsValid splits c
unfolding validate
validate-IsValid splits c = (
  validated splits c,
  λ v. rw (v.by_udp, v.addressed, v.separable, v.identified, v.patient, v.paced) refl,
)

pub text_or-filled : (s t : String) → str_eq s "" ≡ false → text_or s t ≡ s
unfolding text_or
text_or-filled s t e = rw e

pub trim_space-filled : (s : String) → str_eq (trim_space s) "" ≡ false → str_eq s "" ≡ false
unfolding trim_space
trim_space-filled s e = elim (Bool-cases (str_eq s "")) [
  | inl empty ↦ cc (e, ap (λ t. str_eq (trim_space t) "") ((str_eq_iff s "").0 empty))
  | inr filled ↦ filled
]

not_below-positive : (d : ℤ) → below_50ms d ≡ false → is_positive d ≡ true
unfolding below_50ms is_positive
not_below-positive (pos n) e = ground arith
not_below-positive (negsuc n) e = cc e

-- Settings that Validate takes replace any others whole when they are merged into them.
pub merge_valid :
    (splits : String → Bool) (c other : Config) → IsValid splits other → merge c other ≡ other
unfolding merge id_or duration_or
merge_valid splits c other v =
    rw
      (
        text_or-filled other.transport c.transport (ap (λ t. str_eq t "") v.by_udp),
        text_or-filled other.udp_addr c.udp_addr (trim_space-filled other.udp_addr v.addressed),
        v.identified,
        v.patient,
        not_below-positive other.message_interval v.paced,
      )
      refl
