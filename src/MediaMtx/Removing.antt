-- ===== src/MediaMtx/Removing.antt =====
-- What removePathBlock of internal/mediamtx/config_file.go takes out.
use mathlib.Core.Option.{some-injective}
use dronservice_updates.Prelude.{
  String, Bool, true, false, ◌&&◌, Option, none, some, List, [], ◌∷◌, ◌++◌, ◌≡◌, refl, ap, if_ind,
  All, drop_while, and_true, last?, subst, arith,
}
use dronservice_updates.MediaMtx.Sections.{is_key, is_marker, continues, cons_some, remove_block}

-- A text begins with a line of the property, or has no line.
abbrev pub Begins : (String → Type 0) → List String → Type 0
Begins P [] = Unit
Begins P (line ∷ lines) = P line

-- The line above the key that belongs to the block, if it is the marker.
abbrev pub Marked : String → List String → Option String → Type 0
Marked name above none = (line : String) → last? above ≡ some line → is_marker name line ≡ false
Marked name above (some line) = is_marker name line ≡ true

abbrev pub marker_lines : Option String → List String
marker_lines none = []
marker_lines (some line) = line ∷ []

-- The block of a path in the lines of a section: above it no line is the key; it is the first key,
-- the line above the key if that is the marker, and all lines after the key up to the first that
-- does not continue it.
pub record IsBlock (name : String) (body result : List String) : Type 0 where
  pub above : List String
  pub marker : Option String
  pub key : String
  pub settings : List String
  pub below : List String
  pub whole : body ≡ above ++ (marker_lines marker ++ (key ∷ (settings ++ below)))
  pub rest : result ≡ above ++ below
  pub first : All (λ line. is_key name line ≡ false) above
  pub marked : Marked name above marker
  pub is : is_key name key ≡ true
  pub settings_of : All (λ line. continues line ≡ true) settings
  pub settings_end : Begins (λ line. continues line ≡ false) below

-- The lines that a loop skips, and the others.
skipped :
    (p : String → Bool) (lines : List String)
    → (settings : List String) × (lines ≡ settings ++ drop_while p lines)
      × All (λ line. p line ≡ true) settings
      × Begins (λ line. p line ≡ false) (drop_while p lines)
unfolding drop_while
skipped p [] = ([], refl, tt, tt)
skipped p (line ∷ lines) =
    if_ind
      (λ (r : List String).
        (settings : List String) × (line ∷ lines ≡ settings ++ r)
        × All (λ l. p l ≡ true) settings
        × Begins (λ l. p l ≡ false) r)
      (p line) _ _
      (λ e.
        let (settings, whole, all, stop) = skipped p lines in
        (line ∷ settings, ap (λ (l : List String). line ∷ l) whole, (e, all), stop))
      (λ e. ([], refl, tt, e))

-- What is removed, or that no line is the key.
abbrev pub Removes : String → List String → Option (List String) → Type 0
Removes name body none = All (λ line. is_key name line ≡ false) body
Removes name body (some result) = IsBlock name body result

-- A line more above: if it is the last one above, it must not be the marker.
cons-Marked :
    (name line : String) (above : List String) (marker : Option String)
    → (above ≡ [] → marker ≡ none → is_marker name line ≡ false)
    → Marked name above marker
    → Marked name (line ∷ above) marker
unfolding last?
cons-Marked name line [] none f m =
    λ l e. subst (λ x. is_marker name x ≡ false) (some-injective line l e) (f refl refl)
cons-Marked name line (x ∷ above) none f m = m
cons-Marked name line above (some l) f m = m

-- A block whose key is its first line begins with the key.
first_key :
    (name line next : String) (body above settings below : List String) (marker : Option String)
    (key : String)
    → next ∷ body ≡ above ++ (marker_lines marker ++ (key ∷ (settings ++ below)))
    → is_key name key ≡ true
    → (is_marker name line && is_key name next) ≡ false
    → above ≡ []
    → marker ≡ none
    → is_marker name line ≡ false
first_key name line next body [] settings below none key w is no_marker e f =
    let same : next ≡ key = cc w in ground (arith, no_marker, is, same)
first_key name line next body (x ∷ above) settings below marker key w is no_marker e f = cc e
first_key name line next body above settings below (some x) key w is no_marker e f = cc f

cons-Removes :
    (name line next : String) (body : List String) (o : Option (List String))
    → is_key name line ≡ false
    → (is_marker name line && is_key name next) ≡ false
    → Removes name (next ∷ body) o
    → Removes name (line ∷ next ∷ body) (cons_some line o)
unfolding cons_some
cons-Removes name line next body none e m r = (e, r)
cons-Removes name line next body (some result) e m r = record {
  above = line ∷ r.above;
  marker = r.marker;
  key = r.key;
  settings = r.settings;
  below = r.below;
  whole = ap (λ (l : List String). line ∷ l) r.whole;
  rest = ap (λ (l : List String). line ∷ l) r.rest;
  first = (e, r.first);
  marked =
      cons-Marked name line r.above r.marker
        (first_key name line next body r.above r.settings r.below r.marker r.key r.whole r.is m)
        r.marked;
  is = r.is;
  settings_of = r.settings_of;
  settings_end = r.settings_end;
}

key-IsBlock :
    (name line : String) (marker : Option String) (rest : List String)
    → is_key name line ≡ true
    → Marked name [] marker
    → IsBlock name (marker_lines marker ++ (line ∷ rest)) (drop_while continues rest)
key-IsBlock name line marker rest e m =
    let (settings, whole, all, stop) = skipped continues rest in
    record {
      above = [];
      marker = marker;
      key = line;
      settings = settings;
      below = drop_while continues rest;
      whole = ap (λ (l : List String). marker_lines marker ++ (line ∷ l)) whole;
      rest = refl;
      first = tt;
      marked = m;
      is = e;
      settings_of = all;
      settings_end = stop;
    }

no_above : (name line : String) → last? [] ≡ some line → is_marker name line ≡ false
unfolding last?
no_above name line e = cc e

-- The block of the first key is removed, with all its lines, or no line is the key.
pub remove_block-Removes :
    (name : String) (body : List String) → Removes name body (remove_block name body)
unfolding remove_block
remove_block-Removes name [] = tt
remove_block-Removes name (line ∷ []) =
    if_ind (Removes name (line ∷ [])) (is_key name line) _ _
      (λ e. unfold drop_while in key-IsBlock name line none [] e (no_above name)) (λ e. (e, tt))
remove_block-Removes name (line ∷ next ∷ rest) =
    if_ind (Removes name (line ∷ next ∷ rest)) (is_key name line) _ _
      (λ e. key-IsBlock name line none (next ∷ rest) e (no_above name))
      (λ e.
        if_ind (Removes name (line ∷ next ∷ rest)) (is_marker name line && is_key name next) _ _
          (λ m.
            let (marks, is) = and_true (is_marker name line) (is_key name next) m in
            key-IsBlock name next (some line) rest is marks)
          (λ m.
            cons-Removes name line next rest (remove_block name (next ∷ rest)) e m
              (remove_block-Removes name (next ∷ rest))))
