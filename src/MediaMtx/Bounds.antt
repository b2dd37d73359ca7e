-- ===== src/MediaMtx/Bounds.antt =====
-- Where pathsSection of internal/mediamtx/config_file.go finds the section of paths.
use dronservice_updates.Prelude.{
  ℕ, zero, suc, ◌+◌, ◌-◌, ◌<◌, ◌≤◌, String, true, false, Option, none, some, List, [], ◌∷◌, ◌++◌,
  ◌≡◌, refl, sym, ap, ◌∙◌, subst, ◌⊎◌, inl, inr, if_ind, All, drop, length, arith, length-drop,
}
use dronservice_updates.MediaMtx.Sections.{
  Error, many_sections, closes, is_paths, find_start, find_end, section_from, paths_section, take,
  parts_of,
}
use dronservice_updates.MediaMtx.Removing.{Begins}

module _ {ℓ} {A : Type ℓ} where
  pub take-drop : (n : ℕ) (xs : List A) → xs ≡ take n xs ++ drop n xs
  unfolding take
  take-drop zero xs = refl
  take-drop (suc n) [] = refl
  take-drop (suc n) (x ∷ xs) = ap (λ (l : List A). x ∷ l) (take-drop n xs)

  drop-nil : (n : ℕ) → ◌≡◌ {A = List A} (drop n []) []
  drop-nil zero = refl
  drop-nil (suc n) = refl

  drop-drop : (m n k : ℕ) (xs : List A) → k ≡ n + m → drop m (drop n xs) ≡ drop k xs
  drop-drop m zero k xs e = ap (λ i. drop i xs) (omega (arith, e))
  drop-drop m (suc n) k [] e = drop-nil m ∙ sym (drop-nil k)
  drop-drop m (suc n) zero (x ∷ xs) e = absurd (omega (arith, e))
  drop-drop m (suc n) (suc k) (x ∷ xs) e = drop-drop m n k xs (omega (arith, e))

zero_diff : (n : ℕ) → 0 ≡ n - n
zero_diff n = omega arith

-- The last line is the header, and no line before it is.
abbrev pub Headed : List String → Type 0
Headed [] = ⊥
Headed (line ∷ []) = is_paths line ≡ true
Headed (line ∷ next ∷ lines) = (is_paths line ≡ false) × Headed (next ∷ lines)

next-Headed :
    (line : String) (lines : List String)
    → is_paths line ≡ false
    → Headed lines
    → Headed (line ∷ lines)
next-Headed line [] e h = absurd h
next-Headed line (next ∷ lines) e h = (e, h)

-- The first loop, if no header was found before: the line at the index that is found is the only
-- header.
record IsStart (lines : List String) (index start : ℕ) : Type 0 where
  least : index ≤ start
  most : start < index + length lines
  headed : Headed (take (suc (start - index)) lines)
  single : All (λ line. is_paths line ≡ false) (drop (suc (start - index)) lines)

abbrev Starts : List String → ℕ → Error ⊎ Option ℕ → Type 0
Starts lines index (inr (some start)) = IsStart lines index start
Starts lines index _ = Unit

shift-Starts :
    (line : String) (lines : List String) (index : ℕ) (o : Error ⊎ Option ℕ)
    → is_paths line ≡ false
    → Starts lines (suc index) o
    → Starts (line ∷ lines) index o
unfolding take
shift-Starts line lines index (inl e) other h = tt
shift-Starts line lines index (inr none) other h = tt
shift-Starts line lines index (inr (some start)) other h =
    let next : suc (start - suc index) ≡ start - index = omega (arith, h.least) in
    record {
      least = omega (arith, h.least);
      most = omega (arith, h.most);
      headed =
          subst (λ (n : ℕ). Headed (take (suc n) (line ∷ lines))) next
            (next-Headed line (take (suc (start - suc index)) lines) other h.headed);
      single =
          subst (λ (n : ℕ). All (λ l. is_paths l ≡ false) (drop (suc n) (line ∷ lines))) next
            h.single;
    }

-- After the header is found, the loop gives it if there is no other, or an error.
abbrev Found : List String → ℕ → Error ⊎ Option ℕ → Type 0
Found lines start o =
    ((o ≡ inr (some start)) × All (λ line. is_paths line ≡ false) lines) ⊎ (o ≡ inl many_sections)

next-Found :
    (line : String) (lines : List String) (start : ℕ) (o : Error ⊎ Option ℕ)
    → is_paths line ≡ false
    → Found lines start o
    → Found (line ∷ lines) start o
next-Found line lines start o other (inl (e, all)) = inl (e, (other, all))
next-Found line lines start o other (inr e) = inr e

find_start-Found :
    (lines : List String) (index start : ℕ)
    → Found lines start (find_start lines index (some start))
unfolding find_start
find_start-Found [] index start = inl (refl, tt)
find_start-Found (line ∷ lines) index start =
    if_ind (Found (line ∷ lines) start) (is_paths line) _ _ (λ _. inr refl)
      (λ other. next-Found line lines start _ other (find_start-Found lines (suc index) start))

at-Starts :
    (line : String) (lines : List String) (index : ℕ) (o : Error ⊎ Option ℕ)
    → is_paths line ≡ true
    → Found lines index o
    → Starts (line ∷ lines) index o
unfolding take
at-Starts line lines index o header (inr e) = subst (Starts (line ∷ lines) index) (sym e) tt
at-Starts line lines index o header (inl (e, all)) =
    subst (Starts (line ∷ lines) index) (sym e) (record {
      least = omega arith;
      most = omega arith;
      headed = subst (λ (n : ℕ). Headed (take (suc n) (line ∷ lines))) (zero_diff index) header;
      single =
          subst (λ (n : ℕ). All (λ l. is_paths l ≡ false) (drop (suc n) (line ∷ lines)))
            (zero_diff index) all;
    })

find_start-Starts :
    (lines : List String) (index : ℕ) → Starts lines index (find_start lines index none)
unfolding find_start
find_start-Starts [] index = tt
find_start-Starts (line ∷ lines) index =
    if_ind (Starts (line ∷ lines) index) (is_paths line) _ _
      (λ header.
        at-Starts line lines index (find_start lines (suc index) (some index)) header
          (find_start-Found lines (suc index) index))
      (λ other. shift-Starts line lines index _ other (find_start-Starts lines (suc index)))

-- The second loop: the lines up to the index do not end the section, the next one does, if there is one.
record Ends (lines : List String) (index end : ℕ) : Type 0 where
  least : index ≤ end
  most : end ≤ index + length lines
  open_lines : All (λ line. closes line ≡ false) (take (end - index) lines)
  closing : Begins (λ line. closes line ≡ true) (drop (end - index) lines)

find_end-Ends : (lines : List String) (index : ℕ) → Ends lines index (find_end lines index)
unfolding find_end take
find_end-Ends [] index = record {
  least = omega arith;
  most = omega arith;
  open_lines =
      subst (λ (n : ℕ). All (λ line. closes line ≡ false) (take n [])) (zero_diff index) tt;
  closing = subst (λ (n : ℕ). Begins (λ line. closes line ≡ true) (drop n [])) (zero_diff index) tt;
}
find_end-Ends (line ∷ lines) index =
    if_ind (Ends (line ∷ lines) index) (closes line) _ _
      (λ shut. record {
        least = omega arith;
        most = omega arith;
        closing =
            subst (λ (n : ℕ). Begins (λ l. closes l ≡ true) (drop n (line ∷ lines)))
              (zero_diff index) shut;
        open_lines =
            subst (λ (n : ℕ). All (λ l. closes l ≡ false) (take n (line ∷ lines))) (zero_diff index)
              tt;
      })
      (λ stays.
        let more = find_end-Ends lines (suc index) in
        record {
          least = omega (arith, more.least);
          most = omega (arith, more.most);
          open_lines =
              subst (λ (n : ℕ). All (λ l. closes l ≡ false) (take n (line ∷ lines)))
                (next_diff (find_end lines (suc index)) index more.least) (stays, more.open_lines);
          closing =
              subst (λ (n : ℕ). Begins (λ l. closes l ≡ true) (drop n (line ∷ lines)))
                (next_diff (find_end lines (suc index)) index more.least) more.closing;
        })
  where
    next_diff : (e n : ℕ) → suc n ≤ e → suc (e - suc n) ≡ e - n
    next_diff e n h = omega (arith, h)

-- The section: the lines are the parts in their order, the last line before the body is the only
-- header, no line of the body ends the section, and the first line after it, if there is one, does.
pub record IsSection (lines : List String) (start end : ℕ) : Type 0 where
  pub least : start < end
  pub most : end ≤ length lines
  pub whole :
      lines
      ≡ (parts_of lines (start, end)).before
        ++ ((parts_of lines (start, end)).body ++ (parts_of lines (start, end)).after)
  pub open_lines : All (λ line. closes line ≡ false) (parts_of lines (start, end)).body
  pub headed : Headed (parts_of lines (start, end)).before
  pub single :
      All
        (λ line. is_paths line ≡ false)
        ((parts_of lines (start, end)).body ++ (parts_of lines (start, end)).after)
  pub closing : Begins (λ line. closes line ≡ true) (parts_of lines (start, end)).after

rest_parts :
    (lines : List String) (start end : ℕ)
    → suc start ≤ end
    → drop (suc start) lines
      ≡ (parts_of lines (start, end)).body ++ (parts_of lines (start, end)).after
unfolding parts_of
rest_parts lines start end h =
    take-drop (end - suc start) (drop (suc start) lines)
    ∙ ap (λ (l : List String). take (end - suc start) (drop (suc start) lines) ++ l)
        (drop-drop (end - suc start) (suc start) end lines (omega (arith, h)))

parts_whole :
    (lines : List String) (start end : ℕ)
    → suc start ≤ end
    → lines
      ≡ (parts_of lines (start, end)).before
        ++ ((parts_of lines (start, end)).body ++ (parts_of lines (start, end)).after)
unfolding parts_of
parts_whole lines start end h =
    take-drop (suc start) lines
    ∙ ap (λ (l : List String). take (suc start) lines ++ l) (rest_parts lines start end h)

abbrev Sectioned : List String → Error ⊎ (ℕ × ℕ) → Type 0
Sectioned lines (inl e) = Unit
Sectioned lines (inr (start, end)) = IsSection lines start end

section_from-Sectioned :
    (lines : List String) (o : Error ⊎ Option ℕ)
    → Starts lines 0 o
    → Sectioned lines (section_from lines o)
unfolding section_from
section_from-Sectioned lines (inl e) h = tt
section_from-Sectioned lines (inr none) h = tt
section_from-Sectioned lines (inr (some start)) h =
    let end = find_end (drop (suc start) lines) (suc start) in
    let ends = find_end-Ends (drop (suc start) lines) (suc start) in
    let dropped = length-drop (suc start) lines in
    let same : start - 0 ≡ start = omega arith in
    record {
      least = omega (arith, ends.least);
      most = omega (arith, ends.most, dropped, h.most);
      whole = parts_whole lines start end ends.least;
      open_lines = unfold parts_of in ends.open_lines;
      headed = unfold parts_of in subst (λ (n : ℕ). Headed (take (suc n) lines)) same h.headed;
      single =
          subst (All (λ line. is_paths line ≡ false))
            (ap (λ (n : ℕ). drop (suc n) lines) same ∙ rest_parts lines start end ends.least)
            h.single;
      closing =
          unfold parts_of in
          subst (Begins (λ line. closes line ≡ true))
            (drop-drop (end - suc start) (suc start) end lines (omega (arith, ends.least)))
            ends.closing;
    }

-- The two indexes that pathsSection answers with are in order and within the lines, the lines up to
-- the first one and it, those between and those from the second one on make up all lines, and no
-- line between ends the section; the line at the first one is the only header, and the line at the
-- second one, if there is one, ends the section.
pub paths_section-IsSection :
    (lines : List String) (start end : ℕ)
    → paths_section lines ≡ inr (start, end)
    → IsSection lines start end
unfolding paths_section
paths_section-IsSection lines start end e =
    subst (Sectioned lines) e
      (section_from-Sectioned lines (find_start lines 0 none) (find_start-Starts lines 0))
