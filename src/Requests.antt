-- ===== src/Requests.antt =====
-- SQLRequestHandler.{h,cc}: the registry of the data plugins and the runner of requests.
-- The methods of the base class `BESRequestHandler` are of another package.
pub mod Runner
pub mod Counts
pub mod Entries
pub mod Wrappers
pub mod Plugins
pub mod Wrapping
use sql_handler.Cursor.{size_mod}
use sql_handler.Dataset.Parts.{Section}
use sql_handler.Outcome.{
  Result, ok, err, Outcome, done, raised, internal, internal_fatal, undefined, out_of_fuel,
}
use sql_handler.Prelude.{
  ℕ, zero, suc, ◌+◌, ◌-◌, ◌%◌, ◌≡◌, Bool, true, false, Option, none, some, List, [], ◌∷◌, Text,
  TextMap, lookup, insert_new, put, without, text_eq, is_empty, length, drop, ◌==◌, if◌then◌else◌,
}

-- How a handler of a plugin ends; `threw` is any exception.
pub data Reply : Type 0 where
  returned : Bool → Reply
  threw : Reply

-- A `sql_request_handler` of a plugin, with the sections of the dataset from the actual one on, and
-- all else that it reads and writes.
abbrev pub Handler : Type 0 → Type 0
Handler W = List Section → W → W × Reply

-- `SQLPlugin`: its name and `_handler_list`. Its pointer to the registry is never null behind the
-- constructor.
pub record Plugin (W : Type 0) : Type 0 where
  pub name : Text
  pub handlers : TextMap (Handler W)

-- `SQLPlugin::find_handler`
unfoldable pub find_handler : {W : Type 0} → Plugin W → Text → Option (Handler W)
find_handler p handler_name = lookup handler_name p.handlers

-- SQL_NAME: "sql"
abbrev pub sql_name : Text
sql_name = 115 ∷ 113 ∷ 108 ∷ []

-- The functions that `add_method` is called with.
pub data Method : Type 0 where
  version help wrapper : Method

-- `BESRequestHandler`: the table of methods.
pub record MethodTable (M : Type 0) : Type 0 where
  pub find_method : Text → M → Option Method
  pub add_method : Text → Method → M → M
  pub remove_method : Text → M → M

-- A name that is there keeps its method; a removed name is not there.
pub record MethodLaws {M : Type 0} (t : MethodTable M) : Type 0 where
  pub find_added :
      (k j : Text) (f : Method) (m : M)
      → t.find_method j (t.add_method k f m) ≡ (
          if text_eq k j
          then (elim (t.find_method k m) [ none ↦ some f | some g ↦ some g ])
          else t.find_method j m)
  pub find_removed :
      (k j : Text) (m : M)
      → t.find_method j (t.remove_method k m) ≡ (if text_eq k j then none else t.find_method j m)

-- The constructor of `SQLRequestHandler`: its own methods, for the framework's names of the two commands.
unfoldable pub new_methods : {M : Type 0} → MethodTable M → Text → Text → M → M
new_methods t vers_response help_response m =
    t.add_method help_response help (t.add_method vers_response version m)

-- `_theList`, `_theWrapCount` and the methods
pub record Registry (M W : Type 0) : Type 0 where
  pub plugins : TextMap (Plugin W)
  pub wrap_counts : TextMap ℕ
  pub methods : M

module _ {M W : Type 0} where
  unfoldable pub find_sql_handler : Registry M W → Text → Option (Plugin W)
  find_sql_handler r name = lookup name r.plugins

  unfoldable pub add_sql_handler : Registry M W → Text → Plugin W → Registry M W × Bool
  add_sql_handler r name p = elim (find_sql_handler r name) [
    | none ↦ (record r { plugins = insert_new name p r.plugins }, true)
    | some q ↦ (r, false)
  ]

  -- The plugin of the first section that has one, and the sections from there on.
  unfoldable pub find_sql_plugin :
      Registry M W → List Section → Result (Option (Plugin W)) × List Section
  find_sql_plugin r [] = (ok none, [])
  find_sql_plugin r (s ∷ rest) =
      let later = find_sql_plugin r rest in
      if is_empty s.api
      then (err internal, s ∷ rest)
      else if text_eq s.api sql_name
      then later
      else elim (find_sql_handler r s.api) [ none ↦ later | some p ↦ (ok (some p), s ∷ rest) ]

-- `++` and `--` on a `size_t`; the value says whether the entry is erased.
unfoldable pub update_wrap_count : TextMap ℕ → Text → Bool → Result (TextMap ℕ × Bool)
update_wrap_count m name add = elim (lookup name m) [
  | none ↦ if add then ok (insert_new name 1 m, false) else err internal_fatal
  | some n ↦
      let less = (n + size_mod - 1) % size_mod in
      if add
      then ok (put name ((n + 1) % size_mod) m, false)
      else if less == 0
      then ok (without name m, true)
      else ok (put name less m, false)
]

module _ {M W : Type 0} (t : MethodTable M) where
  unfoldable pub counted :
      Registry M W → Text → Result (TextMap ℕ × Bool) → Outcome (Registry M W × Bool)
  counted r command (ok (m, erased)) =
      done (record r { wrap_counts = m; methods = t.add_method command wrapper r.methods }, true)
  counted r command (err e) = raised e (r, false)

  unfoldable pub add_sql_wrapper : Registry M W → Text → Outcome (Registry M W × Bool)
  add_sql_wrapper r command = elim (find_sql_handler r command) [
    | none ↦ counted r command (update_wrap_count r.wrap_counts command true)
    | some p ↦ done (r, false)
  ]

  unfoldable pub discounted :
      Registry M W → Text → Result (TextMap ℕ × Bool) → Outcome (Registry M W × Bool)
  discounted r command (ok (m, erased)) =
      let methods' = if erased then t.remove_method command r.methods else r.methods in
      done (record r { wrap_counts = m; methods = methods' }, true)
  discounted r command (err e) = raised e (r, false)

  unfoldable pub remove_sql_wrapper : Registry M W → Text → Outcome (Registry M W × Bool)
  remove_sql_wrapper r command = elim (t.find_method command r.methods) [
    | none ↦ done (r, false)
    | some f ↦ discounted r command (update_wrap_count r.wrap_counts command false)
  ]

module _ {M W : Type 0} (r : Registry M W) (command : Text) where
  -- One call of a plugin's handler; an exception counts as a failure.
  unfoldable pub call_handler : Plugin W → List Section → W → W × Bool
  call_handler p sections w = elim (find_handler p command) [
    | none ↦ (w, false)
    | some f ↦ let (w', reply) = f sections w in (w', elim reply [ returned b ↦ b | threw ↦ false ])
  ]

  -- What the loop does with the plugin found and the sections left; `again` is the next round.
  unfoldable pub serve :
      (List Section → W → Result Bool × List Section × W)
      → Result (Option (Plugin W)) × List Section
      → W
      → Result Bool × List Section × W
  serve again (err e, rest) w = (err e, rest, w)
  serve again (ok none, rest) w = (err internal, rest, w)
  serve again (ok (some p), rest) w =
      let (w', res) = call_handler p rest w in
      if res then (ok true, drop 1 rest, w') else again (drop 1 rest) w'

  -- The loop, and the throw behind it, on fuel.
  unfoldable pub run_sections : ℕ → List Section → W → Result Bool × List Section × W
  run_sections zero sections w = (err out_of_fuel, sections, w)
  run_sections (suc n) [] w = (err internal, [], w)
  run_sections (suc n) (s ∷ rest) w = serve (run_sections n) (find_sql_plugin r (s ∷ rest)) w

  -- A round leaves at least one section behind.
  unfoldable pub last_chance_runner : List Section → W → Result Bool × List Section × W
  last_chance_runner sections w = run_sections (length sections + 1) sections w
