-- ===== src/IpCamera/Streaming.antt =====
-- The two lists of sources of internal/ipcamera/service.go: for MediaMTX, and for previews.
use dronservice_updates.Prelude.{
  String, str_eq, str_eq_iff, true, false, not, List, [], ◌∷◌, ◌++◌, ◌≡◌, ◌≢◌, refl, sym, subst, ap,
  ◌∙◌, ◌↔◌, ◌⊎◌, inl, inr, Any, if_ind, Bool-cases, not-false,
}
use dronservice_updates.IpCamera.Types.{PersistedCamera, VideoStream, required}
use dronservice_updates.IpCamera.Library.{Library}
use dronservice_updates.IpCamera.Urls.{rtsp_url_with_credentials}
use dronservice_updates.IpCamera.Prepare.{Error}
use dronservice_updates.IpCamera.Devices.{text_or, normalize_initialization_status}
use dronservice_updates.IpCamera.Sources.{
  StreamSource, source_of, with_url, preview_found, source_if, sources_of,
}

inr_injective : (x y : StreamSource) → ◌≡◌ {A = Error ⊎ StreamSource} (inr x) (inr y) → x ≡ y
inr_injective x y e = ap (λ (s : Error ⊎ StreamSource). elim s [ inl f ↦ x | inr a ↦ a ]) e

append-Any :
    (P : StreamSource → Type 0) (xs ys : List StreamSource) → Any P (xs ++ ys) → Any P xs ⊎ Any P ys
append-Any P [] ys h = inr h
append-Any P (x ∷ xs) ys (inl p) = inl (inl p)
append-Any P (x ∷ xs) ys (inr h) = elim (append-Any P xs ys h) [
  | inl p ↦ inl (inr p)
  | inr p ↦ inr p
]

left-Any : (P : StreamSource → Type 0) (xs ys : List StreamSource) → Any P xs → Any P (xs ++ ys)
left-Any P (x ∷ xs) ys (inl p) = inl p
left-Any P (x ∷ xs) ys (inr h) = inr (left-Any P xs ys h)
left-Any P [] ys h = absurd h

right-Any : (P : StreamSource → Type 0) (xs ys : List StreamSource) → Any P ys → Any P (xs ++ ys)
right-Any P [] ys h = h
right-Any P (x ∷ xs) ys h = inr (right-Any P xs ys h)

-- A source with a URL is one that the other list may have.
source_if-with_url :
    (c : PersistedCamera) (kind detail : String) (v : VideoStream) (url : String) (x : StreamSource)
    → Any (λ y. y ≡ x) (source_if c kind detail v url)
    → (x.kind ≡ kind) × (with_url c kind detail v url ≡ inr x)
unfolding source_if with_url
source_if-with_url c kind detail v url x = elim (Bool-cases (str_eq url "")) [
  | inl blank ↦ rw blank (λ h. absurd h)
  | inr there ↦ rw there (λ h. elim h [
    | inl e ↦ (ap (λ (y : StreamSource). y.kind) (sym e), ap (λ (y : StreamSource). inr y) e)
    | inr k ↦ absurd k
  ])
]

with_url-source_if :
    (c : PersistedCamera) (kind detail : String) (v : VideoStream) (url : String) (x : StreamSource)
    → with_url c kind detail v url ≡ inr x
    → Any (λ y. y ≡ x) (source_if c kind detail v url)
unfolding source_if with_url
with_url-source_if c kind detail v url x = elim (Bool-cases (str_eq url "")) [
  | inl blank ↦ rw blank (λ h. cc h)
  | inr there ↦ rw there (λ h. inl (inr_injective (source_of c kind detail v url) x h))
]

text_or_blank : (s : String) → text_or s "" ≡ s
text_or_blank s = elim (Bool-cases (str_eq s "")) [
  | inl blank ↦ rw blank (sym ((str_eq_iff s "").0 blank))
  | inr there ↦ rw there refl
]

module _ (lib : Library) (c : PersistedCamera) (x : StreamSource)
    (ready : normalize_initialization_status c.initialization_status ≢ required)
    (modern : c.legacy_rtsp_path ≡ "") where
  abbrev main_url : String
  main_url = rtsp_url_with_credentials lib c.main_stream_path c.username c.password

  abbrev sub_url : String
  sub_url = rtsp_url_with_credentials lib c.sub_stream_path c.username c.password

  not_required : str_eq (normalize_initialization_status c.initialization_status) required ≡ false
  not_required =
      elim (Bool-cases
        (str_eq (normalize_initialization_status c.initialization_status) required)) [
          | inl e ↦ absurd (ready ((str_eq_iff _ required).0 e))
          | inr e ↦ e
        ]

  main_url_lem :
      rtsp_url_with_credentials lib
        (text_or c.main_stream_path c.legacy_rtsp_path)
        c.username
        c.password
      ≡ main_url
  main_url_lem = rw (modern, text_or_blank c.main_stream_path) refl

  preview_main : preview_found lib "main" c ≡ with_url c "main" "Main stream" c.main_stream main_url
  unfolding preview_found
  preview_main = rw (not_required, main_url_lem) refl

  preview_sub : preview_found lib "sub" c ≡ with_url c "sub" "Sub stream" c.sub_stream sub_url
  unfolding preview_found
  preview_sub = rw not_required refl

  listed-preview :
      Any (λ y. y ≡ x) (sources_of lib c) → (c.use_it ≡ true) × (preview_found lib x.kind c ≡ inr x)
  unfolding sources_of
  listed-preview =
      if_ind
        (λ (l : List StreamSource).
          Any (λ y. y ≡ x) l → (c.use_it ≡ true) × (preview_found lib x.kind c ≡ inr x))
        (not c.use_it) _ _ (λ _ h. absurd h)
        (λ used h.
          elim (append-Any (λ y. y ≡ x) (source_if c "main" "Main stream" c.main_stream main_url) _
            h) [
              | inl p ↦
                  let (kind, same) =
                    source_if-with_url c "main" "Main stream" c.main_stream main_url x p in
                  (
                    not-false _ used,
                    subst (λ (k : String). preview_found lib k c ≡ inr x) (sym kind)
                        (preview_main ∙ same),
                  )
              | inr p ↦
                  let (kind, same) =
                    source_if-with_url c "sub" "Sub stream" c.sub_stream sub_url x p in
                  (
                    not-false _ used,
                    subst (λ (k : String). preview_found lib k c ≡ inr x) (sym kind)
                        (preview_sub ∙ same),
                  )
            ])

  preview-kind : preview_found lib x.kind c ≡ inr x → (x.kind ≡ "main") ⊎ (x.kind ≡ "sub")
  unfolding preview_found
  preview-kind =
      if_ind Q (str_eq (normalize_initialization_status c.initialization_status) required) _ _
        (λ _ h. cc h)
        (λ _.
          if_ind Q (str_eq x.kind "main") _ _ (λ e _. inl ((str_eq_iff x.kind "main").0 e))
            (λ _.
              if_ind Q (str_eq x.kind "sub") _ _ (λ e _. inr ((str_eq_iff x.kind "sub").0 e))
                (λ _ h. cc h)))
    where
      Q : Error ⊎ StreamSource → Type 0
      Q o = o ≡ inr x → (x.kind ≡ "main") ⊎ (x.kind ≡ "sub")

  preview-listed :
      c.use_it ≡ true → preview_found lib x.kind c ≡ inr x → Any (λ y. y ≡ x) (sources_of lib c)
  unfolding sources_of
  preview-listed used e =
      let mains = source_if c "main" "Main stream" c.main_stream main_url in
      let subs = source_if c "sub" "Sub stream" c.sub_stream sub_url in
      rw used (elim (preview-kind e) [
        | inl kind ↦
            left-Any (λ y. y ≡ x) mains subs
              (with_url-source_if c "main" "Main stream" c.main_stream main_url x
                (sym preview_main ∙ subst (λ (k : String). preview_found lib k c ≡ inr x) kind e))
        | inr kind ↦
            right-Any (λ y. y ≡ x) mains subs
              (with_url-source_if c "sub" "Sub stream" c.sub_stream sub_url x
                (sym preview_sub ∙ subst (λ (k : String). preview_found lib k c ≡ inr x) kind e))
      ])

  -- For a camera that is initialized or of unknown status, without a path of an older file,
  -- StreamSources has exactly the sources that PreviewStreamSource gives for their kind, if the
  -- camera is in use.
  pub sources_of-preview :
      Any (λ y. y ≡ x) (sources_of lib c)
      ↔ ((c.use_it ≡ true) × (preview_found lib x.kind c ≡ inr x))
  sources_of-preview = (listed-preview, λ (used, e). preview-listed used e)
