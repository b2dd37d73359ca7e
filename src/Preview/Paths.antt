-- ===== src/Preview/Paths.antt =====
-- The interface PathService of internal/streampreview/manager.go, with what a preview relies on.
use dronservice_updates.Prelude.{String, ◌≡◌, ◌≢◌, Bool, true, false, Option, List}
use dronservice_updates.Stream.Types.{Source}

-- A call returns whether its error is nil, and the state of MediaMTX after it. A call that fails
-- may have had its effect all the same.
pub record PathService : Type 1 where
  pub World : Type 0
  pub has : World → String → Bool
  pub list_internal_preview_paths : World → Option (List String)
  pub apply_source : String → Source → World → Bool × World
  pub delete_config : String → World → Bool × World
  pub apply_source_other :
      (p q : String) (s : Source) (w : World) → q ≢ p → has (apply_source p s w).1 q ≡ has w q
  pub delete_config_other :
      (p q : String) (w : World) → q ≢ p → has (delete_config p w).1 q ≡ has w q
  pub delete_config_gone :
      (p : String) (w : World) → (delete_config p w).0 ≡ true → has (delete_config p w).1 p ≡ false
