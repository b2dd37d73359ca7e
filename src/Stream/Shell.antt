-- ===== src/Stream/Shell.antt =====
-- What mediaMTXUpdate of internal/stream/service.go puts into the command line that MediaMTX runs.
use mathlib.Core.Option.{some-injective}
use dronservice_updates.Prelude.{
  ℕ, String, str_eq, codes, after_prefix, all_codes, is_digit, is_letter, Bool, true, not, ◌&&◌,
  ◌||◌, Option, none, some, List, [], ◌∷◌, length, leb, ◌==◌, ◌≡◌, refl, sym, subst, arith, if_ind,
  and_true, Option-cases, inl, inr,
}
use dronservice_updates.Stream.Types.{Source}
use dronservice_updates.Stream.Names.{matches_stream_name}
use dronservice_updates.Stream.Update.{
  Command, PathConfigUpdate, Libraries, cut, digits_between, is_device_path, is_resolution_cut,
  is_resolution, is_fps_cut, is_fps, to_lower, is_word_code, same_ignoring_case, input_format,
  analog_update, ip_update, mediamtx_update,
}

-- Letters, digits, `_`, `.` and `/`: nothing that a shell gives a meaning to.
abbrev pub is_plain : ℕ → Bool
is_plain c = is_letter c || is_digit c || c == b'_' || c == b'.' || c == b'/'

abbrev pub IsPlain : List ℕ → Type 0
IsPlain s = all_codes is_plain s ≡ true

all_codes_mono :
    (p q : ℕ → Bool) (s : List ℕ)
    → ((c : ℕ) → p c ≡ true → q c ≡ true)
    → all_codes p s ≡ true
    → all_codes q s ≡ true
unfolding all_codes
all_codes_mono p q [] f h = refl
all_codes_mono p q (c ∷ s) f h =
    let (a, b) = and_true _ _ h in rw (f c a, all_codes_mono p q s f b) refl

digits-IsPlain : (s : List ℕ) → all_codes is_digit s ≡ true → IsPlain s
digits-IsPlain s = all_codes_mono is_digit is_plain s (λ c h. ground (arith, h))

after_prefix-IsPlain :
    (p s r : List ℕ) → after_prefix p s ≡ some r → IsPlain p → IsPlain r → IsPlain s
unfolding after_prefix all_codes
after_prefix-IsPlain [] s r e hp hr = subst IsPlain (sym (some-injective s r e)) hr
after_prefix-IsPlain (c ∷ p) [] r e hp hr = cc e
after_prefix-IsPlain (c ∷ p) (d ∷ s) r e hp hr =
    let (a, b) = and_true (is_plain c) (all_codes is_plain p) hp in
    if_ind (λ (o : Option (List ℕ)). o ≡ some r → IsPlain (d ∷ s)) (c == d) _ _
      (λ same e'. rw (after_prefix-IsPlain p s r e' b hr) (ground (arith, same, a))) (λ _ e'. cc e')
      e

CutPlain : List ℕ × Option (List ℕ) → Type 0
CutPlain (before, none) = IsPlain before
CutPlain (before, some after) = IsPlain before × IsPlain after

cons-CutPlain :
    (d : ℕ) (r : List ℕ × Option (List ℕ))
    → CutPlain (d ∷ r.0, r.1)
    → (is_plain d ≡ true) × CutPlain r
unfolding CutPlain all_codes
cons-CutPlain d (before, none) k = and_true (is_plain d) (all_codes is_plain before) k
cons-CutPlain d (before, some after) k =
    let (a, b) = and_true (is_plain d) (all_codes is_plain before) k.0 in (a, (b, k.1))

cut-IsPlain : (c : ℕ) (s : List ℕ) → is_plain c ≡ true → CutPlain (cut c s) → IsPlain s
unfolding cut all_codes CutPlain
cut-IsPlain c [] h k = refl
cut-IsPlain c (d ∷ s) h k =
    if_ind (λ (r : List ℕ × Option (List ℕ)). CutPlain r → IsPlain (d ∷ s)) (d == c) _ _
      (λ same k'. rw (k'.1) (ground (arith, same, h)))
      (λ _ k'.
        let (a, rest) = cons-CutPlain d (cut c s) k' in
        rw (cut-IsPlain c s h rest) (ground (arith, a)))
      k

to_lower-IsPlain : (s : List ℕ) → all_codes is_word_code s ≡ true → IsPlain (to_lower s)
unfolding to_lower all_codes
to_lower-IsPlain [] h = refl
to_lower-IsPlain (c ∷ s) h =
    let (a, b) = and_true (is_word_code c) (all_codes is_word_code s) h in
    rw (to_lower-IsPlain s b) (ground (arith, a))

input_format-IsPlain : (s f : List ℕ) → input_format s ≡ some f → IsPlain f
unfolding input_format
input_format-IsPlain s f =
    if_ind Q (same_ignoring_case s (codes "mjpg") || same_ignoring_case s (codes "mjpeg")) _ _
      (λ _ e. subst IsPlain (some-injective _ f e) (unfold all_codes in refl))
      (λ _.
        if_ind Q (same_ignoring_case s (codes "yuyv") || same_ignoring_case s (codes "yuy2")) _ _
          (λ _ e. subst IsPlain (some-injective _ f e) (unfold all_codes in refl))
          (λ _.
            if_ind Q (leb 1 (length s) && all_codes is_word_code s) _ _
              (λ fine e. subst IsPlain (some-injective _ f e) (
                to_lower-IsPlain s (and_true (leb 1 (length s)) (all_codes is_word_code s) fine).1))
              (λ _ e. cc e)))
  where
    Q : Option (List ℕ) → Type 0
    Q o = o ≡ some f → IsPlain f

device_path-IsPlain : (s : List ℕ) → is_device_path s ≡ true → IsPlain s
unfolding is_device_path after_prefix
device_path-IsPlain s h = elim (Option-cases (after_prefix (codes "/dev/video") s)) [
  | inl e ↦ cc (h, (rw (e, is_device_path) at h))
  | inr (r, e) ↦
      after_prefix-IsPlain (codes "/dev/video") s r e (unfold all_codes in refl)
        (digits-IsPlain r (and_true (leb 1 (length r)) (all_codes is_digit r) (rw (e) at h)).1)
]

digits_between-IsPlain :
    (least most : ℕ) (s : List ℕ) → digits_between least most s ≡ true → IsPlain s
unfolding digits_between
digits_between-IsPlain least most s h = digits-IsPlain s (and_true _ (all_codes is_digit s) h).1

resolution-CutPlain : (r : List ℕ × Option (List ℕ)) → is_resolution_cut r ≡ true → CutPlain r
unfolding is_resolution_cut CutPlain
resolution-CutPlain (w, none) h = cc h
resolution-CutPlain (w, some k) h =
    let (a, b) = and_true (digits_between 2 5 w) (digits_between 2 5 k) h in
    (digits_between-IsPlain 2 5 w a, digits_between-IsPlain 2 5 k b)

fps-CutPlain : (r : List ℕ × Option (List ℕ)) → is_fps_cut r ≡ true → CutPlain r
unfolding is_fps_cut CutPlain
fps-CutPlain (w, none) h = digits_between-IsPlain 1 3 w h
fps-CutPlain (w, some k) h =
    let (a, b) = and_true _ (all_codes is_digit k) h in
    (digits_between-IsPlain 1 3 w (and_true (digits_between 1 3 w) _ a).0, digits-IsPlain k b)

resolution-IsPlain : (s : List ℕ) → is_resolution s ≡ true → IsPlain s
unfolding is_resolution
resolution-IsPlain s h = cut-IsPlain b'x' s (ground arith) (resolution-CutPlain (cut b'x' s) h)

fps-IsPlain : (s : List ℕ) → is_fps s ≡ true → IsPlain s
unfolding is_fps
fps-IsPlain s h = cut-IsPlain b'.' s (ground arith) (fps-CutPlain (cut b'.' s) h)

-- The texts of a command that are put into its line.
abbrev pub IsPlainCommand : Command → Type 0
IsPlainCommand c =
    IsPlain c.input_format
    × IsPlain (codes c.resolution)
    × IsPlain (codes c.fps)
    × IsPlain (codes c.device_path)

abbrev Commands : PathConfigUpdate → Type 0
Commands u = (c : Command) → u.run_on_demand ≡ some c → IsPlainCommand c

analog-Commands :
    (l : Libraries) (name : String) (s : Source) (o : Option (List ℕ)) (u : PathConfigUpdate)
    → ((f : List ℕ) → o ≡ some f → IsPlain f)
    → IsPlain (codes s.resolution)
    → IsPlain (codes s.fps)
    → IsPlain (codes s.device_path)
    → analog_update l name s o ≡ some u
    → Commands u
unfolding analog_update
analog-Commands l name s none u f r p d e = cc e
analog-Commands l name s (some format) u f r p d e =
    subst Commands (some-injective _ u e)
      (λ c same. subst IsPlainCommand (some-injective _ c same) (f format refl, r, p, d))

ip-Commands :
    (s : Source) (o : Option (String × String)) (u : PathConfigUpdate)
    → ip_update s o ≡ some u
    → Commands u
unfolding ip_update
ip-Commands s none u e = cc e
ip-Commands s (some (scheme, host)) u made =
    if_ind (λ (r : Option PathConfigUpdate). r ≡ some u → Commands u)
      (not (str_eq scheme "rtsp") && not (str_eq scheme "rtsps") || str_eq host "") _ _
      (λ _ e. cc e) (λ _ e. subst Commands (some-injective _ u e) (λ c absent. cc absent)) made

-- If mediaMTXUpdate takes a source and gives a command to run, then the input format, the
-- resolution, the frame rate and the device that are put into its line hold letters, digits,
-- underscores, dots and slashes only.
pub mediamtx_update-IsPlain :
    (l : Libraries) (name : String) (s : Source) (u : PathConfigUpdate) (c : Command)
    → mediamtx_update l name s ≡ some u
    → u.run_on_demand ≡ some c
    → IsPlainCommand c
unfolding mediamtx_update
mediamtx_update-IsPlain l name s u c made = go made c
  where
    Q : Option PathConfigUpdate → Type 0
    Q r = r ≡ some u → Commands u

    go : Q (mediamtx_update l name s)
    go =
        if_ind Q (not (matches_stream_name name)) _ _ (λ _ e. cc e)
          (λ _.
            if_ind Q (str_eq s.type "ip") _ _ (λ _. ip-Commands s (l.parse_url s.input) u)
              (λ _.
                if_ind Q (str_eq s.type "analog") _ _
                  (λ _.
                    if_ind Q
                      (not (is_device_path (codes s.device_path))
                        || not (is_resolution (codes s.resolution))
                        || not (is_fps (codes s.fps)))
                      _ _ (λ _ e. cc e)
                      (λ fine.
                        analog-Commands l name s (input_format (codes s.pixel_format)) u
                          (input_format-IsPlain (codes s.pixel_format))
                          (resolution-IsPlain (codes s.resolution) (ground (arith, fine)))
                          (fps-IsPlain (codes s.fps) (ground (arith, fine)))
                          (device_path-IsPlain (codes s.device_path) (ground (arith, fine)))))
                  (λ _ e. cc e)))
