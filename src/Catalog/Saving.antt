-- ===== src/Catalog/Saving.antt =====
-- The store of internal/deviceconfig/store.go: the map and the file.
use dronservice_updates.Prelude.{
  String, Option, none, some, [], ◌≡◌, ◌≢◌, refl, ◌⊎◌, inl, lookup, insert, delete, lookup-insert,
  lookup-delete,
}
use dronservice_updates.Catalog.Devices.{
  Config, Configs, Store, Write, refused, written, unsynced, Error, store, get, save, delete_found,
  delete_config,
}

-- A failure leaves the map; unless a write fails after it has replaced the file, the file holds the
-- map after an operation if it did before, or if there was none of an empty map.
pub record IsKept (w : Write) (s : Store) (x : Option Error × Store) : Type 0 where
  pub failed : (e : Error) → x.0 ≡ some e → x.1.configs ≡ s.configs
  pub filed :
      w ≢ unsynced
      → (s.file ≡ some s.configs) ⊎ ((s.file ≡ none) × (s.configs ≡ []))
      → (x.1.file ≡ some x.1.configs) ⊎ ((x.1.file ≡ none) × (x.1.configs ≡ []))

store-IsKept : (w : Write) (next : Configs) (s : Store) → IsKept w s (store w next s)
unfolding store
store-IsKept refused next s = record { failed = λ _ _. refl; filed = λ _ h. h }
store-IsKept written next s = record { failed = λ e h. cc h; filed = λ _ _. inl refl }
store-IsKept unsynced next s = record { failed = λ _ _. refl; filed = λ n _. absurd (n refl) }

delete_found-IsKept :
    (w : Write) (id : String) (o : Option Config) (s : Store) → IsKept w s (delete_found w id o s)
unfolding delete_found
delete_found-IsKept w id none s = record { failed = λ _ _. refl; filed = λ _ h. h }
delete_found-IsKept w id (some c) s = store-IsKept w (delete id s.configs) s

-- Save and Delete keep the map and the file together.
pub operations-IsKept :
    (w : Write) (s : Store)
    → ((c : Config) → IsKept w s (save w c s)) × ((id : String) → IsKept w s (delete_config w id s))
unfolding save delete_config
operations-IsKept w s = (
  λ c. store-IsKept w (insert c.device_id c s.configs) s,
  λ id. delete_found-IsKept w id (lookup id s.configs) s,
)

stored :
    (w : Write) (next : Configs) (s : Store)
    → (store w next s).0 ≡ none
    → (store w next s).1.configs ≡ next
unfolding store
stored refused next s e = cc e
stored written next s e = refl
stored unsynced next s e = cc e

-- After a Save that succeeds, Get finds the settings under their ID.
pub get-save :
    (w : Write) (c : Config) (s : Store)
    → (save w c s).0 ≡ none
    → get c.device_id (save w c s).1 ≡ some c
unfolding save get
get-save w c s e =
    rw (stored w (insert c.device_id c s.configs) s e) (lookup-insert c.device_id c s.configs)

absent :
    (w : Write) (id : String) (o : Option Config) (s : Store)
    → (delete_found w id o s).0 ≡ none
    → get id (delete_found w id o s).1 ≡ none
unfolding delete_found get
absent w id none s e = cc e
absent w id (some c) s e = rw (stored w (delete id s.configs) s e) (lookup-delete id s.configs)

-- After a Delete that succeeds, Get finds nothing.
pub get-delete_config :
    (w : Write) (id : String) (s : Store)
    → (delete_config w id s).0 ≡ none
    → get id (delete_config w id s).1 ≡ none
unfolding delete_config
get-delete_config w id s e = absent w id (lookup id s.configs) s e
