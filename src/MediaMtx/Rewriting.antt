-- ===== src/MediaMtx/Rewriting.antt =====
-- What the operations of internal/mediamtx/config_file.go make of the text and the files.
use Prim.Native.Char.{Char, code}
use text.Mathlib.TextLemmas.{cons-append, nil-append}
use dronservice_updates.Prelude.{
  ℕ, String, Bool, true, false, not, Option, none, some, List, [], ◌∷◌, ◌++◌, ◌==◌, ◌≡◌, refl, sym,
  ap, ◌∙◌, subst, ◌⊎◌, inl, inr, if_ind, All, Option-cases,
}
use dronservice_updates.MediaMtx.Lines.{split_after, cons_first, join}
use dronservice_updates.MediaMtx.Sections.{
  Error, is_key, is_paths, closes, remove_block, removed, remove_from, remove_path_block,
  replace_path_block, paths_section, parts_of,
}
use dronservice_updates.MediaMtx.ConfigFile.{
  PathUpdate, Files, Write, no_backup, backed_up, written, backup_config_file, write_config_file,
  write_result, set_in, set_path, removed_text, delete_in, delete_path, Yaml, validate_config_text,
  write_checked, write, is_path_name, read, render_path_block,
}
use dronservice_updates.MediaMtx.Removing.{Begins, IsBlock, Removes, remove_block-Removes}
use dronservice_updates.MediaMtx.Bounds.{Headed, IsSection, paths_section-IsSection}

join-cons_first :
    (c : Char) (lines : List String) → join (cons_first c lines) ≡ String.◌∷◌ c (join lines)
unfolding cons_first join
join-cons_first c [] =
    cons-append c String.[] "" ∙ ap (λ (t : String). String.◌∷◌ c t) (nil-append "")
join-cons_first c (line ∷ lines) = cons-append c line (join lines)

-- The lines of a text make up the text.
pub join-split_after : (s : String) → join (split_after s) ≡ s
unfolding split_after join
join-split_after String.[] = nil-append ""
join-split_after (String.◌∷◌ c s) =
    if_ind (λ (lines : List String). join lines ≡ String.◌∷◌ c s) (code c == b'\n') _ _
      (λ _.
        cons-append c String.[] (join (split_after s))
        ∙ ap (λ (t : String). String.◌∷◌ c t)
            (nil-append (join (split_after s)) ∙ join-split_after s))
      (λ _.
        join-cons_first c (split_after s)
        ∙ ap (λ (t : String). String.◌∷◌ c t) (join-split_after s))

-- A removal of a path from a text: the text has one section, from its header up to the first line
-- that ends it, and the block of the path has gone from it, with all else as it was; or no line of the
-- section is the key, and the text is the same.
pub record IsRemoval (content name text : String) (found : Bool) : Type 0 where
  pub before : List String
  pub body : List String
  pub after : List String
  pub whole : split_after content ≡ before ++ (body ++ after)
  pub same : content ≡ join (before ++ (body ++ after))
  pub header : Headed before
  pub single : All (λ line. is_paths line ≡ false) (body ++ after)
  pub open_lines : All (λ line. closes line ≡ false) body
  pub closing : Begins (λ line. closes line ≡ true) after
  pub result : List String
  pub kept : found ≡ false → (text ≡ content) × All (λ line. is_key name line ≡ false) body
  pub taken : found ≡ true → (text ≡ join (before ++ (result ++ after))) × IsBlock name body result

abbrev Removal : String → String → Error ⊎ (String × Bool) → Type 0
Removal content name (inl e) = Unit
Removal content name (inr (text, found)) = IsRemoval content name text found

removed-Removal :
    (content name : String) (start end : ℕ) (o : Option (List String))
    → IsSection (split_after content) start end
    → Removes name (parts_of (split_after content) (start, end)).body o
    → Removal content name (inr (removed content (parts_of (split_after content) (start, end)) o))
unfolding removed
removed-Removal content name start end none s r = record {
  before = (parts_of (split_after content) (start, end)).before;
  body = (parts_of (split_after content) (start, end)).body;
  after = (parts_of (split_after content) (start, end)).after;
  whole = s.whole;
  same = sym (join-split_after content) ∙ ap join s.whole;
  header = s.headed;
  single = s.single;
  open_lines = s.open_lines;
  closing = s.closing;
  result = [];
  kept = λ _. (refl, r);
  taken = λ e. cc e;
}
removed-Removal content name start end (some result) s r = record {
  before = (parts_of (split_after content) (start, end)).before;
  body = (parts_of (split_after content) (start, end)).body;
  after = (parts_of (split_after content) (start, end)).after;
  whole = s.whole;
  same = sym (join-split_after content) ∙ ap join s.whole;
  header = s.headed;
  single = s.single;
  open_lines = s.open_lines;
  closing = s.closing;
  result = result;
  kept = λ e. cc e;
  taken = λ _. (refl, r);
}

remove_from-Removal :
    (content name : String) (o : Error ⊎ (ℕ × ℕ))
    → paths_section (split_after content) ≡ o
    → Removal content name (remove_from content name (split_after content) o)
unfolding remove_from
remove_from-Removal content name (inl e) h = tt
remove_from-Removal content name (inr (start, end)) h =
    removed-Removal content name start end
      (remove_block name (parts_of (split_after content) (start, end)).body)
      (paths_section-IsSection (split_after content) start end h)
      (remove_block-Removes name (parts_of (split_after content) (start, end)).body)

-- If removePathBlock answers, the lines of the text are those up to the header of the paths
-- section, which is the only header, the section, and the rest from the first line that ends the
-- section; either the path was found, and the new text lacks from the section exactly the first
-- line that is the key, the line above it if that is the marker, and all lines after it up to the
-- first that does not continue it; or it was not, no line of the section is the key, and the text
-- is the same.
pub remove_path_block-IsRemoval :
    (content name text : String) (found : Bool)
    → remove_path_block content name ≡ inr (text, found)
    → IsRemoval content name text found
unfolding remove_path_block
remove_path_block-IsRemoval content name text found e =
    subst (Removal content name) e
      (remove_from-Removal content name (paths_section (split_after content)) refl)

-- An operation on the file: a failure leaves its text; after a success the old text, if there was a
-- file, is the backup.
pub record IsSafe (f : Files) (x : Option Error × Files) : Type 0 where
  pub failed : (e : Error) → x.0 ≡ some e → x.1.content ≡ f.content
  pub done : x.0 ≡ none → (text : String) → f.content ≡ some text → x.1.backup ≡ some text

refused-IsSafe : (f : Files) (e : Error) → IsSafe f (some e, f)
refused-IsSafe f e = record { failed = λ _ _. refl; done = λ h. cc h }

backup_content : (f : Files) → (backup_config_file f).content ≡ f.content
unfolding backup_config_file
backup_content f = elim (Option-cases f.content) [ inl e ↦ rw e refl | inr (t, e) ↦ rw e refl ]

backup_text :
    (f : Files) (text : String) → f.content ≡ some text → (backup_config_file f).backup ≡ some text
unfolding backup_config_file
backup_text f text e = rw e refl

write_config_file-IsSafe :
    (w : Write) (text : String) (f : Files) → IsSafe f (write_config_file w text f)
unfolding write_config_file
write_config_file-IsSafe no_backup text f = refused-IsSafe f _
write_config_file-IsSafe backed_up text f = record {
  failed = λ _ _. backup_content f;
  done = λ h. cc h;
}
write_config_file-IsSafe written text f = record {
  failed = λ e h. cc;
  done = λ _ t e. backup_text f t e;
}

write_result-IsSafe : (w : Write) (f : Files) (o : Error ⊎ String) → IsSafe f (write_result w f o)
unfolding write_result
write_result-IsSafe w f (inl e) = refused-IsSafe f e
write_result-IsSafe w f (inr text) = write_config_file-IsSafe w text f

set_in-IsSafe :
    (w : Write) (name : String) (u : PathUpdate) (f : Files) (o : Option String)
    → IsSafe f (set_in w name u f o)
unfolding set_in
set_in-IsSafe w name u f none = refused-IsSafe f _
set_in-IsSafe w name u f (some c) =
    write_result-IsSafe w f (replace_path_block c name (render_path_block name u))

delete_in-IsSafe :
    (w : Write) (name : String) (f : Files) (o : Option String) → IsSafe f (delete_in w name f o)
unfolding delete_in
delete_in-IsSafe w name f none = refused-IsSafe f _
delete_in-IsSafe w name f (some c) =
    write_result-IsSafe w f (removed_text (remove_path_block c name))

write_checked-IsSafe :
    (w : Write) (text : String) (f : Files) (o : Option Error) → IsSafe f (write_checked w text f o)
unfolding write_checked
write_checked-IsSafe w text f (some e) = refused-IsSafe f e
write_checked-IsSafe w text f none = write_config_file-IsSafe w text f

-- SetPath, DeletePath and Write leave the text of the file if they fail, however far the write
-- comes; if they succeed and there was a file, its old text is the backup.
pub operations-IsSafe :
    (w : Write) (f : Files)
    → ((name : String) (u : PathUpdate) → IsSafe f (set_path w name u f))
      × ((name : String) → IsSafe f (delete_path w name f))
      × ((yaml : Yaml) (text : String) → IsSafe f (write yaml w text f))
unfolding set_path delete_path write
operations-IsSafe w f = (
  λ name u.
      if_ind (IsSafe f) (not (is_path_name name)) _ _ (λ _. refused-IsSafe f _)
        (λ _. set_in-IsSafe w name u f (read f)),
  λ name.
      if_ind (IsSafe f) (not (is_path_name name)) _ _ (λ _. refused-IsSafe f _)
        (λ _. delete_in-IsSafe w name f (read f)),
  λ yaml text. write_checked-IsSafe w text f (validate_config_text yaml text),
)
