-- ===== src/Tests/Plugins.antt =====
-- Runs for a plugin of two commands that is loaded and taken out again.
use sql_handler.Cursor.{size_mod}
use sql_handler.Outcome.{ok, err, internal}
use sql_handler.Prelude.{
  ℕ, ◌+◌, ◌<◌, ◌≡◌, refl, sym, ◌⊎◌, inl, inr, Bool, true, false, none, some, List, [], ◌∷◌, Text,
  TextMap, codes, lookup, text_eq, arith,
}
use sql_handler.Requests.{
  Handler, Method, version, Registry, new_methods, returned, find_sql_handler,
}
use sql_handler.Requests.Plugins.{Linked, remove_handlers, initialize, terminate}
use sql_handler.Requests.Plugins.Loads.{Covers}
use sql_handler.Requests.Plugins.Offers.{held, chosen}
use sql_handler.Requests.Plugins.Terms.{method_left, terminate-initialize}
use sql_handler.Requests.Entries.{Counted, or_wrapper}
use sql_handler.Tests.Servers.{dds, table, table-MethodLaws, registry}

abbrev das : Text
das = codes "das"

abbrev extra : Text
extra = codes "extra"

abbrev answer : Handler (List Text)
answer sections log = (codes "ok" ∷ log, returned true)

abbrev handlers : TextMap (Handler (List Text))
handlers = (dds, answer) ∷ (das, answer) ∷ (dds, answer) ∷ []

abbrev no_others : Text → ℕ
no_others c = 0

extra_unknown : find_sql_handler registry extra ≡ none
unfolding find_sql_handler lookup text_eq
extra_unknown = refl

-- The second function of a command is not taken, and each command is counted once.
loads_once :
    (initialize table true extra handlers registry).0.wrap_counts ≡ (dds, 1) ∷ (das, 1) ∷ []
unfolding initialize sql_handler.Requests.find_handler lookup sql_handler.Requests.add_sql_wrapper
    find_sql_handler text_eq sql_handler.Requests.counted sql_handler.Requests.update_wrap_count
    sql_handler.Prelude.put sql_handler.Prelude.insert_new sql_handler.Requests.add_sql_handler
loads_once = refl

-- A second plugin of a name is refused, and its commands stay wrapped.
loads_again :
    ((initialize table true (codes "odbc") handlers registry).0.wrap_counts
      ≡ (dds, 1) ∷ (das, 1) ∷ [])
    × ((initialize table true (codes "odbc") handlers registry).1 ≡ err internal)
unfolding initialize sql_handler.Requests.find_handler lookup sql_handler.Requests.add_sql_wrapper
    find_sql_handler text_eq sql_handler.Requests.counted sql_handler.Requests.update_wrap_count
    sql_handler.Prelude.put sql_handler.Prelude.insert_new sql_handler.Requests.add_sql_handler
loads_again = (refl, refl)

-- The registry of a new request handler, with the methods of its constructor.
abbrev new_registry : Registry (TextMap Method) (List Text)
new_registry = record {
  plugins = [];
  wrap_counts = [];
  methods = new_methods table (codes "vers") (codes "help") [];
}

-- The five commands of the ODBC plugin.
abbrev odbc_handlers : TextMap (Handler (List Text))
odbc_handlers =
    (das, answer)
    ∷ (dds, answer)
    ∷ (codes "data", answer)
    ∷ (codes "help", answer)
    ∷ (codes "vers", answer)
    ∷ []

abbrev odbc : Text
odbc = codes "odbc"

-- The commands are all names but the module's.
abbrev IsCommand : Text → Type 0
IsCommand c = text_eq odbc c ≡ false

few : (c : Text) → IsCommand c → no_others c + 2 < size_mod
few c h = omega arith

new_registry-Counted :
    (c : Text)
    → IsCommand c
    → Counted table table-MethodLaws c (no_others c) (lookup c new_registry.methods) new_registry
unfolding lookup
new_registry-Counted c h = record { no_plugin = refl; count = refl; method = refl }

odbc_handlers-Covers : Covers IsCommand odbc_handlers
unfolding text_eq
odbc_handlers-Covers = (refl, (refl, (refl, (refl, (refl, tt)))))

odbc_unknown : find_sql_handler new_registry odbc ≡ none
unfolding find_sql_handler lookup
odbc_unknown = refl

terminate-initialize_example :
    (r' : Registry (TextMap Method) (List Text)) × (r'' : Registry (TextMap Method) (List Text))
    × (initialize table true odbc odbc_handlers new_registry ≡ (r', ok tt))
    × (terminate table true odbc r' ≡ (r'', ok tt))
    × ((c : Text)
        → IsCommand c
        → Counted table table-MethodLaws c
            (no_others c + held (lookup c odbc_handlers))
            (chosen
              (lookup c odbc_handlers)
              (or_wrapper (lookup c new_registry.methods))
              (lookup c new_registry.methods))
            r')
    × ((c : Text)
        → IsCommand c
        → Counted table table-MethodLaws c
            (no_others c)
            (method_left (no_others c) (lookup c odbc_handlers) (lookup c new_registry.methods))
            r'')
    × ((n : Text) → find_sql_handler r'' n ≡ find_sql_handler new_registry n)
terminate-initialize_example =
    terminate-initialize table table-MethodLaws IsCommand no_others few new_registry odbc
      odbc_handlers new_registry-Counted odbc_handlers-Covers odbc_unknown λ c h. h

-- The handler's own methods are there while the plugin is loaded, and are gone with it.
own_methods :
    (lookup (codes "vers") (initialize table true odbc odbc_handlers new_registry).0.methods
      ≡ some version)
    × (lookup
          (codes "vers")
          (terminate table true odbc
            (initialize table true odbc odbc_handlers new_registry).0).0.methods
        ≡ none)
unfolding initialize terminate sql_handler.Requests.find_handler lookup
    sql_handler.Requests.add_sql_wrapper find_sql_handler text_eq sql_handler.Requests.counted
    sql_handler.Requests.update_wrap_count sql_handler.Prelude.put sql_handler.Prelude.insert_new
    sql_handler.Requests.add_sql_handler new_methods sql_handler.Requests.remove_sql_wrapper
    sql_handler.Requests.discounted sql_handler.Prelude.without
    sql_handler.Requests.Plugins.remove_sql_handler
own_methods = (refl, refl)
