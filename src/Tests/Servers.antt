-- ===== src/Tests/Servers.antt =====
-- Runs for the registry of the plugins: two interfaces, the first of which always throws.
use sql_handler.Dataset.Parts.{Section, new_section}
use sql_handler.Outcome.{ok}
use sql_handler.Prelude.{
  ◌≡◌, refl, true, List, [], ◌∷◌, Text, TextMap, codes, lookup, insert_new, without, text_eq,
  lookup-insert_new, lookup-without, arith,
}
use sql_handler.Requests.{
  Registry, Plugin, Method, MethodTable, MethodLaws, returned, threw, last_chance_runner,
  find_handler, find_sql_handler,
}
use sql_handler.Requests.Counts.{wrap, unwrap, level}
use sql_handler.Requests.Runner.{first_success, last_chance_runner-eq, last_chance_runner-serves}
use sql_handler.Requests.Wrappers.{Wrapped, run_calls, run_calls-Wrapped}

abbrev pub dds : Text
dds = codes "dds"

abbrev broken : Plugin (List Text)
broken = record {
  name = codes "odbc";
  handlers = (dds, λ sections log. (codes "broken" ∷ log, threw)) ∷ [];
}

abbrev working : Plugin (List Text)
working = record {
  name = codes "lite";
  handlers = (dds, λ sections log. (codes "ok" ∷ log, returned true)) ∷ [];
}

abbrev pub table : MethodTable (TextMap Method)
table = record { find_method = lookup; add_method = insert_new; remove_method = without }

pub table-MethodLaws : MethodLaws table
table-MethodLaws = record { find_added = lookup-insert_new; find_removed = lookup-without }

abbrev pub registry : Registry (TextMap Method) (List Text)
registry = record {
  plugins = (codes "odbc", broken) ∷ (codes "lite", working) ∷ [];
  wrap_counts = [];
  methods = (codes "version", Method.version) ∷ [];
}

abbrev on : Text → Section
on api' = record new_section { api = api' }

abbrev sections : List Section
sections = on (codes "sql") ∷ on (codes "odbc") ∷ on (codes "lite") ∷ []

last_chance_runner-eq_example :
    last_chance_runner registry dds sections [] ≡ first_success registry dds sections []
last_chance_runner-eq_example = last_chance_runner-eq registry dds sections []

last_chance_runner-serves_example : (last_chance_runner registry dds sections []).0 ≡ ok true
unfolding find_sql_handler find_handler lookup text_eq
last_chance_runner-serves_example =
    last_chance_runner-serves registry dds (on (codes "sql") ∷ on (codes "odbc") ∷ [])
      (on (codes "lite")) [] working (λ sections log. (codes "ok" ∷ log, returned true)) []
      (refl, (refl, tt)) refl refl refl refl λ w. refl

dds-Wrapped : Wrapped table table-MethodLaws dds 0 registry
unfolding lookup text_eq
dds-Wrapped = record { no_plugin = refl; count = refl; method = refl }

run_calls-Wrapped_example :
    Wrapped table table-MethodLaws dds
      (level dds (wrap dds ∷ wrap (codes "das") ∷ wrap dds ∷ unwrap dds ∷ []) 0)
      (run_calls table table-MethodLaws registry
        (wrap dds ∷ wrap (codes "das") ∷ wrap dds ∷ unwrap dds ∷ []))
run_calls-Wrapped_example =
    run_calls-Wrapped table table-MethodLaws registry dds 0
      (wrap dds ∷ wrap (codes "das") ∷ wrap dds ∷ unwrap dds ∷ []) dds-Wrapped (omega arith)
