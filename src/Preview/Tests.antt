-- ===== src/Preview/Tests.antt =====
-- Previews over a list of paths that stands for MediaMTX.
use dronservice_updates.Prelude.{
  pos, String, str_eq, str_eq_iff, ◌≡◌, ◌≢◌, refl, sym, subst, Bool, true, false, ◌||◌, some, List,
  [], ◌∷◌, arith, Bool-cases, if◌then◌else◌, inl, inr,
}
use dronservice_updates.Stream.Names.{is_internal_preview_path}
use dronservice_updates.Stream.Types.{empty_source}
use dronservice_updates.Preview.{
  Manager, Session, ok, err, cleanup_failed, new_manager, start_source, stop, close,
}
use dronservice_updates.Preview.Invariant.{IsValid, start_source-IsValid}
use dronservice_updates.Preview.Coverage.{IsCovered, start_source-IsCovered, close_clears}
use dronservice_updates.Preview.Timers.{
  System, Reach, here, next, starts, AllWatched, Reach-AllWatched, Reach-IsValid as history-IsValid,
}
use dronservice_updates.Preview.Methods.{Stops, stop_lem}
use dronservice_updates.Preview.Paths.{PathService}

has : List String → String → Bool
has [] q = false
has (p ∷ ps) q = str_eq p q || has ps q

without : String → List String → List String
without p [] = []
without p (q ∷ ps) = let rest = without p ps in if str_eq q p then rest else q ∷ rest

has-without_ne : (p q : String) (w : List String) → q ≢ p → has (without p w) q ≡ has w q
unfolding has without
has-without_ne p q [] n = refl
has-without_ne p q (r ∷ w) n =
    ground (arith, str_eq_iff r p, str_eq_iff r q, has-without_ne p q w n)

has-without_self : (p : String) (w : List String) → has (without p w) p ≡ false
unfolding has without
has-without_self p [] = refl
has-without_self p (r ∷ w) = ground (arith, has-without_self p w)

has-cons_ne : (p q : String) (w : List String) → q ≢ p → has (p ∷ w) q ≡ has w q
unfolding has
has-cons_ne p q w n = ground (arith, str_eq_iff p q)

abbrev listed : PathService
listed = record {
  World = List String;
  has = has;
  list_internal_preview_paths = λ w. some w;
  apply_source = λ p s w. (true, p ∷ w);
  delete_config = λ p w. (true, without p w);
  apply_source_other = λ p q s w n. has-cons_ne p q w n;
  delete_config_other = λ p q w n. has-without_ne p q w n;
  delete_config_gone = λ p w _. has-without_self p w;
}

abbrev first : String
first = "0123456789abcdef01234567"

abbrev second : String
second = "89abcdef0123456789abcdef"

abbrev fresh : Manager (List String)
fresh = record {
  paths = "front" ∷ [];
  ttl = 60;
  expiry_retry_delay = 30;
  sessions = [];
  closed = false;
}

fresh-IsValid : IsValid fresh
fresh-IsValid = record { ids = tt; cameras = tt; named = tt; emptied = λ _. refl }

not_front : is_internal_preview_path "front" ≡ true → ⊥
unfolding is_internal_preview_path
not_front e = cc

fresh-IsCovered : IsCovered listed fresh
unfolding has
fresh-IsCovered q internal h = elim (Bool-cases (str_eq "front" q)) [
  | inl same ↦ absurd (
      not_front (
        subst (λ p. is_internal_preview_path p ≡ true) (sym ((str_eq_iff "front" q).0 same))
          internal))
  | inr other ↦ cc (h, other)
]

abbrev started : Manager (List String)
started = (start_source listed fresh (some first) "cam" empty_source 100).1

started_path : started.paths ≡ "_dron_preview_0123456789abcdef01234567" ∷ "front" ∷ []
unfolding start_source
started_path = refl

replaced :
    (start_source listed started (some second) "cam" empty_source 110).1.paths
    ≡ "_dron_preview_89abcdef0123456789abcdef" ∷ "front" ∷ []
unfolding start_source without
replaced = refl

abbrev path_one : String
path_one = "_dron_preview_0123456789abcdef01234567"

started-reported :
    (start_source listed fresh (some first) "cam" empty_source 100).0 ≢ err cleanup_failed
unfolding start_source
started-reported e = cc

started-IsValid : IsValid started
started-IsValid =
    start_source-IsValid listed fresh (some first) "cam" empty_source 100 fresh-IsValid

started-IsCovered : IsCovered listed started
started-IsCovered =
    start_source-IsCovered listed fresh (some first) "cam" empty_source 100 fresh-IsValid
      fresh-IsCovered started-reported

start_source-IsCovered_example : IsCovered listed started
start_source-IsCovered_example =
    start_source-IsCovered listed fresh (some first) "cam" empty_source 100 fresh-IsValid
      fresh-IsCovered started-reported

closed-ok : (close listed started).0 ≡ ok tt
unfolding close start_source
closed-ok = refl

close_clears_example : has (close listed started).1.paths path_one ≡ false
close_clears_example =
    close_clears listed started started-IsCovered closed-ok path_one
      (unfold is_internal_preview_path in refl)

abbrev first_session : Session
first_session = record { id = first; path = path_one; camera_id = "cam"; expires_at = 160 }

abbrev shut : Manager (List String)
shut = (close listed started).1

stop_lem_example : Stops listed started "other" first (stop listed started "other" first)
stop_lem_example = stop_lem listed started "other" first

abbrev boot : System (List String)
boot = record { manager = new_manager ("front" ∷ []) (pos 60); callbacks = [] }

one_start : Reach listed boot (record boot {
  manager = (start_source listed boot.manager (some first) "cam" empty_source 100).1;
})
one_start = next here (starts (some first) "cam" empty_source 100)

Reach-IsValid_example :
    IsValid (start_source listed boot.manager (some first) "cam" empty_source 100).1
Reach-IsValid_example = history-IsValid listed ("front" ∷ []) (pos 60) one_start

Reach-AllWatched_example : AllWatched listed (record boot {
  manager = (start_source listed boot.manager (some first) "cam" empty_source 100).1;
})
Reach-AllWatched_example = Reach-AllWatched listed ("front" ∷ []) (pos 60) one_start
