-- ===== src/Stream/Names.antt =====
-- The regular expressions of internal/stream/service.go.
use dronservice_updates.Prelude.{
  ℕ, String, codes, after_prefix, all_codes, is_digit, is_letter, is_hex_lower, Bool, true, false,
  ◌&&◌, ◌||◌, none, some, ◌≡◌, refl, length, leb, ◌==◌,
}
use dronservice_updates.Stream.Types.{internal_preview_path_prefix}

-- `^_dron_preview_[0-9a-f]{24}$`
unfoldable pub is_internal_preview_path : String → Bool
unfolding after_prefix all_codes
is_internal_preview_path name =
    elim (after_prefix (codes internal_preview_path_prefix) (codes name)) [
      | none ↦ false
      | some token ↦ length token == 24 && all_codes is_hex_lower token
    ]

abbrev pub is_name_code : ℕ → Bool
is_name_code c = is_letter c || is_digit c || c == b'_' || c == b'-'

-- `^[A-Za-z0-9_-]{1,100}$`
unfoldable pub matches_stream_name : String → Bool
unfolding all_codes
matches_stream_name name =
    leb 1 (length (codes name))
    && leb (length (codes name)) 100
    && all_codes is_name_code (codes name)

preview_name : is_internal_preview_path "_dron_preview_0123456789abcdef01234567" ≡ true
unfolding is_internal_preview_path
preview_name = refl

preview_lookalike : is_internal_preview_path "_dron_preview_front" ≡ false
unfolding is_internal_preview_path
preview_lookalike = refl
