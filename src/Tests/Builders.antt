-- ===== src/Tests/Builders.antt =====
-- A run for the builders of responses.
use sql_handler.Prelude.{◌≡◌, refl, ◌∷◌, ◌++◌, codes}
use sql_handler.Responses.{dataset_name_of}
use sql_handler.Responses.Names.{dataset_name_of-path}

dataset_name_of-path_example :
    (dataset_name_of (codes "data/sql" ++ b'/' ∷ codes "s.sql") ≡ codes "s.sql")
    × (dataset_name_of (codes "s.sql") ≡ codes "s.sql")
dataset_name_of-path_example =
    dataset_name_of-path (codes "data/sql") (codes "s.sql")
      (refl, (refl, (refl, (refl, (refl, tt)))))
