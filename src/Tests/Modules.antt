-- ===== src/Tests/Modules.antt =====
-- Runs for the module, over lists of the framework that are kept as functions.
use sql_handler.Module.{
  Kind, catalogs, Framework, Statics, initialize_module, terminate_module, catalog_name,
}
use sql_handler.Module.Laws.{FrameworkLaws, same_place}
use sql_handler.Module.Load.{Loaded}
use sql_handler.Module.Unload.{Unloaded}
use sql_handler.Module.Reload.{terminate_module-initialize_module, initialize_module-deleted}
use sql_handler.Outcome.{ok, err, undefined}
use sql_handler.Prelude.{
  ℕ, ◌+◌, ◌-◌, ◌≡◌, refl, Bool, true, false, not, ◌&&◌, none, some, [], Text, TextMap, codes,
  lookup, insert_new, without, lookup-insert_new, lookup-without, ◌==◌, inl, if◌then◌else◌, arith,
}
use sql_handler.Requests.{sql_name}

pub record Lists : Type 0 where
  pub counts : Kind → Text → ℕ
  pub handlers : TextMap ℕ
  pub services : Text

abbrev set_count : Kind → Text → ℕ → Lists → Lists
set_count k n c f = record f { counts = λ j m. if same_place k n j m then c else f.counts j m }

-- One reference more or less wherever the place is.
abbrev change : (ℕ → ℕ) → Kind → Text → Lists → Lists
change g k n f = record f {
  counts = λ j m. if same_place k n j m then g (f.counts j m) else f.counts j m;
}

abbrev lists : Framework Lists
lists = record {
  ref = λ k n f.
      (if not (f.counts k n == 0) then change (λ c. c + 1) k n f else f, not (f.counts k n == 0));
  add = λ k n p f. (if f.counts k n == 0 then change (λ c. 1) k n f else f, f.counts k n == 0);
  deref = λ k n f. (change (λ c. c - 1) k n f, not (f.counts k n == 0));
  find_storage = λ n f. none;
  add_handler = λ n p f. (record f { handlers = insert_new n p f.handlers }, true);
  remove_handler = λ n f. (record f { handlers = without n f.handlers }, lookup n f.handlers);
  find_handler = λ n f. lookup n f.handlers;
  handle_dap_service = λ n f. record f { services = n };
}

change_if :
    (b : Bool) (g : ℕ → ℕ) (k j : Kind) (n m : Text) (f : Lists)
    → (if b then change g k n f else f).counts j m
      ≡ (if same_place k n j m && b then g (f.counts j m) else f.counts j m)
change_if true g k j n m f = ground arith
change_if false g k j n m f = ground arith

change_handlers :
    (b : Bool) (g : ℕ → ℕ) (k : Kind) (n m : Text) (f : Lists)
    → lookup m (if b then change g k n f else f).handlers ≡ lookup m f.handlers
change_handlers true g k n m f = refl
change_handlers false g k n m f = refl

lists-FrameworkLaws : FrameworkLaws lists
lists-FrameworkLaws = record {
  count = λ k n f. f.counts k n;
  ref-count = λ k j n m f. change_if (not (f.counts k n == 0)) (λ c. c + 1) k j n m f;
  ref-found = λ k n f. refl;
  add-count = λ k j n m p f. change_if (f.counts k n == 0) (λ c. 1) k j n m f;
  add-added = λ k n p f. refl;
  deref-count = λ k j n m f. refl;
  deref-found = λ k n f. refl;
  find-ref = λ k n m f. change_handlers (not (f.counts k n == 0)) (λ c. c + 1) k n m f;
  find-add = λ k n m p f. change_handlers (f.counts k n == 0) (λ c. 1) k n m f;
  find-deref = λ k n m f. refl;
  find-add_handler = λ n m p f. lookup-insert_new n m p f.handlers;
  find-remove_handler = λ n m f. lookup-without n m f.handlers;
  remove_handler-found = λ n f. refl;
  count-add_handler = λ k n m p f. refl;
  count-remove_handler = λ k n m f. refl;
  count-service = λ k n m f. refl;
  find-service = λ n m f. refl;
}

-- The handler is at 0; the framework has the catalog already.
abbrev started : Statics Lists
started = record {
  framework = record {
    counts = λ k n. if same_place catalogs catalog_name k n then 2 else 0;
    handlers = [];
    services = [];
  };
  cs = none;
  rh = some 0;
  the_handler = some 0;
  factory_storage = none;
  live = λ p. p == 0;
  next = 1;
  has_plugins = false;
  has_mutex = true;
}

not_listed : lookup sql_name started.framework.handlers ≡ none
unfolding lookup
not_listed = refl

terminate_module-initialize_module_example :
    (s' : Statics Lists) × (s'' : Statics Lists) × (initialize_module lists (codes "sql") started
      ≡ (s', ok tt))
    × Loaded lists lists-FrameworkLaws 0 started s'
    × (terminate_module lists s' ≡ (s'', ok tt))
    × Unloaded lists lists-FrameworkLaws 0 started s''
terminate_module-initialize_module_example =
    terminate_module-initialize_module lists lists-FrameworkLaws 0 (codes "sql") started refl
      (inl refl) not_listed refl refl (omega arith)

initialize_module-deleted_example :
    (s1 : Statics Lists) × (s2 : Statics Lists) × (initialize_module lists (codes "sql") started
      ≡ (s1, ok tt))
    × (terminate_module lists s1 ≡ (s2, ok tt))
    × ((again : Text) → (initialize_module lists again s2).1 ≡ err undefined)
initialize_module-deleted_example =
    initialize_module-deleted lists lists-FrameworkLaws 0 (codes "sql") started refl (inl refl)
      not_listed refl refl (omega arith)
