-- ===== src/CameraNetwork/Ranges.antt =====
-- The tests of internal/cameranetwork/network.go on names, addresses and numbers as what they accept.
use dronservice_updates.Prelude.{
  ℕ, ◌%◌, ◌≤◌, ℤ, pos, negsuc, String, str_eq, str_eq_iff, codes, all_codes, Bool, true, false,
  ◌&&◌, ◌||◌, leb, Option, none, some, List, [], ◌∷◌, All, length, ◌≡◌, refl, ◌⊎◌, inl, inr, ◌↔◌,
  and_true, arith, Bool-cases,
}
use dronservice_updates.CameraNetwork.Request.{
  is_id_code, is_interface_code, valid_id, valid_interface, is_private, is_between, unicast,
  validate_flags,
}

abbrev pub In : ℕ → ℕ → ℕ → Type 0
In least most n = (least ≤ n) × (n ≤ most)

-- A letter, a digit, `_` or `-`.
abbrev pub IdCode : ℕ → Type 0
IdCode c = In 97 122 c ⊎ In 65 90 c ⊎ In 48 57 c ⊎ (c ≡ 95) ⊎ (c ≡ 45)

-- One of these, or `.`.
abbrev pub InterfaceCode : ℕ → Type 0
InterfaceCode c = IdCode c ⊎ (c ≡ 46)

abbrev pub IsName : (ℕ → Type 0) → ℕ → String → Type 0
IsName P most v = In 1 most (length (codes v)) × All P (codes v)

-- An address of 10.0.0.0/8, 172.16.0.0/12 or 192.168.0.0/16.
abbrev pub PrivateAddress : ℕ → Type 0
PrivateAddress a =
    In 167772160 184549375 a ⊎ In 2886729728 2887778303 a ⊎ In 3232235520 3232301055 a

all_codes_iff :
    (p : ℕ → Bool) (P : ℕ → Type 0) (s : List ℕ)
    → ((c : ℕ) → (p c ≡ true) ↔ P c)
    → (all_codes p s ≡ true) ↔ All P s
unfolding all_codes
all_codes_iff p P [] f = (λ _. tt, λ _. refl)
all_codes_iff p P (c ∷ s) f = (
  λ h. let (a, b) = and_true _ _ h in ((f c).0 a, (all_codes_iff p P s f).0 b),
  λ h. rw ((f c).1 h.0, (all_codes_iff p P s f).1 h.1) refl,
)

IsName-iff :
    (p : ℕ → Bool) (P : ℕ → Type 0) (most : ℕ) (v : String)
    → ((c : ℕ) → (p c ≡ true) ↔ P c)
    → ((leb 1 (length (codes v)) && leb (length (codes v)) most && all_codes p (codes v)) ≡ true)
      ↔ IsName P most v
IsName-iff p P most v f = (
  λ h.
      let (a, all) = and_true _ (all_codes p (codes v)) h in
      ((ground (arith, a), ground (arith, a)), (all_codes_iff p P (codes v) f).0 all),
  λ h. rw ((all_codes_iff p P (codes v) f).1 h.1) (ground (arith, h.0.0, h.0.1)),
)

pub id_iff : (v : String) → (valid_id v ≡ true) ↔ IsName IdCode 64 v
unfolding valid_id
id_iff v = IsName-iff is_id_code IdCode 64 v (λ c. (λ h. ground (arith, h), λ h. ground (arith, h)))

pub interface_iff : (v : String) → (valid_interface v ≡ true) ↔ IsName InterfaceCode 15 v
unfolding valid_interface
interface_iff v =
    IsName-iff is_interface_code InterfaceCode 15 v
      (λ c. (λ h. ground (arith, h), λ h. ground (arith, h)))

pub private_iff : (a : ℕ) → (is_private a ≡ true) ↔ PrivateAddress a
unfolding is_private
private_iff a = (λ h. ground (arith, h), λ h. ground (arith, h))

pub between_iff :
    (least most : ℕ) (t : ℤ)
    → (is_between least most t ≡ true) ↔ ((n : ℕ) × (t ≡ pos n) × In least most n)
unfolding is_between
between_iff least most (pos n) =
    (λ h. (n, refl, (ground (arith, h), ground (arith, h))), λ (m, e, h). ground (arith, e, h))
between_iff least most (negsuc n) = (λ h. cc h, λ (m, e, h). cc e)

pub unicast_iff :
    (o : Option (List ℕ))
    → (unicast o ≡ true) ↔ ((b : ℕ) × (rest : List ℕ) × (o ≡ some (b ∷ rest)) × (b % 2 ≡ 0))
unfolding unicast
unicast_iff none = (λ h. cc h, λ (b, rest, e, h). cc e)
unicast_iff (some []) = (λ h. cc h, λ (b, rest, e, h). cc e)
unicast_iff (some (b ∷ rest)) =
    (λ h. (b, rest, refl, ground (arith, h)), λ (c, t, e, h). ground (arith, e, h))

pub flags_iff : (o : Option (Bool × Bool)) → (validate_flags o ≡ none) ↔ (o ≡ some (false, true))
unfolding validate_flags
flags_iff none = (λ h. cc h, λ e. cc e)
flags_iff (some (false, true)) = (λ h. refl, λ e. refl)
flags_iff (some (true, up)) = (λ h. cc h, λ e. cc e)
flags_iff (some (false, false)) = (λ h. cc h, λ e. cc e)

pub operation_iff :
    (o : String) → ((str_eq o "add" || str_eq o "remove") ≡ true) ↔ ((o ≡ "add") ⊎ (o ≡ "remove"))
operation_iff o = (
  λ h. elim (Bool-cases (str_eq o "add")) [
    | inl e ↦ inl ((str_eq_iff o "add").0 e)
    | inr e ↦ inr ((str_eq_iff o "remove").0 (ground (arith, h, e)))
  ],
  λ h. elim h [
    | inl e ↦ rw ((str_eq_iff o "add").1 e) refl
    | inr e ↦ rw ((str_eq_iff o "remove").1 e) (either (str_eq o "add"))
  ],
)
  where
    either : (b : Bool) → (b || true) ≡ true
    either true = refl
    either false = refl
