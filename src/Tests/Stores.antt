-- ===== src/Tests/Stores.antt =====
-- Runs for containers: a dataset file of one section, a storage, and the factory.
use sql_handler.Containers.{Container, Files, end, set_next, reset, new_container}
use sql_handler.Containers.Factory.{BesContainer, plain, Storage, Factory, get_container}
use sql_handler.Containers.Ready.{new_container-IsUsable}
use sql_handler.Containers.Sections.{visit, visit-dataset}
use sql_handler.Containers.Served.{get_container-Serves}
use sql_handler.Dataset.{read}
use sql_handler.Dataset.Complete.{IsFilled}
use sql_handler.Dataset.Parts.{new_section, test_part, meets}
use sql_handler.Outcome.{Error, Result, ok, err}
use sql_handler.Prelude.{
  ◌≡◌, refl, true, false, Bool, Option, none, some, [], ◌∷◌, codes, text_eq, text_lt, All, has_any,
}
use sql_handler.Query.{load_attributes}
use sql_handler.Query.Attributes.{new_attribute, name_less}
use sql_handler.Query.Constraints.{Placement}
use sql_handler.SortedSet.{insert}
use sql_handler.StringMatch.{match_vectors, match_set, map_test, get_match}
use sql_handler.Tests.Sample.{sample}

abbrev at_front : Placement
at_front c s = 0

-- One file, last changed at the time 100.
abbrev disk : Files
disk = record {
  rows = λ name. some (
      codes "[section]"
      ∷ codes "api=odbc"
      ∷ codes "server=db"
      ∷ codes "[select]"
      ∷ codes "id,name"
      ∷ codes "[from]"
      ∷ codes "stations"
      ∷ []);
  mtime = λ name. some 100;
  now = 200;
}

abbrev stations : Result Container
stations = new_container sample at_front disk (codes "s") (codes "s.sql") (codes "sql")

abbrev value_of : Result Container → Container
value_of (ok c) = c
value_of (err e) = record {
  symbolic_name = [];
  real_name = [];
  container_type = [];
  constraint = [];
  attributes = [];
  is_ready = false;
  time = 0;
  members = record { dataset = []; where_buffer = []; attribute_buffer = [] };
  actual_section = none;
}

new_container-IsUsable_example :
    ((value_of stations).is_ready ≡ true)
    × ((value_of stations).actual_section ≡ some 0)
    × (has_any (value_of stations).members.dataset ≡ true)
    × All IsFilled (value_of stations).members.dataset
unfolding new_container read text_eq test_part load_attributes match_vectors new_attribute match_set
    map_test get_match meets insert name_less text_lt
new_container-IsUsable_example =
    new_container-IsUsable sample at_front disk (codes "s") (codes "s.sql") (codes "sql")
      (value_of stations) refl

-- A container of two sections, on the second one.
abbrev two_sections : Container
two_sections = record {
  symbolic_name = codes "s";
  real_name = codes "s.sql";
  container_type = codes "sql";
  constraint = codes "id";
  attributes = [];
  is_ready = true;
  time = 100;
  members = record {
    dataset =
        record new_section { api = codes "lite" } ∷ record new_section { api = codes "odbc" } ∷ [];
    where_buffer = [];
    attribute_buffer = [];
  };
  actual_section = some 1;
}

visit-dataset_example :
    (d : Container) × (visit 2 (reset two_sections) ≡ (d, ok two_sections.members.dataset))
    × (end d ≡ true)
    × (set_next d ≡ (d, false))
visit-dataset_example = visit-dataset two_sections refl

-- A storage that holds one container, or none.
abbrev one_place : Storage (Option Container)
one_place = record {
  find = λ name s. (s, ok s);
  delete = λ name s. (none, ok true);
  add = λ c s. (some c, ok tt);
}

abbrev factory : Factory (Option Container)
factory = record { storage = some one_place; select = new_container sample at_front disk }

abbrev any_std : Error → Bool
any_std e = true

abbrev request : BesContainer
request = record {
  symbolic_name = codes "s";
  real_name = codes "s.sql";
  container_type = codes "sql";
  constraint = codes "name";
  attributes = codes "a";
}

get_container-Serves_example :
    (c : Container) × (some
        (record two_sections { constraint = codes "name"; attributes = codes "a" })
      ≡ some c)
    × (c.is_ready ≡ true)
    × (c.constraint ≡ codes "name")
    × (c.attributes ≡ codes "a")
unfolding get_container
get_container-Serves_example =
    get_container-Serves sample at_front disk factory any_std (plain request) (some two_sections)
      (some two_sections)
      (some (record two_sections { constraint = codes "name"; attributes = codes "a" })) refl
