-- ===== src/Responses.antt =====
-- handler/SQLBuildDDS.h, handler/SQLBuildDATA.h and handler/SQLBuildDAS.h: a response is built of the
-- columns of a query.
pub mod Names
use sql_handler.Call.{Call, ◌>>=◌, ◌>>◌, return, modify, check_that}
use sql_handler.Connections.{Handler, connect, query, close, next_type}
use sql_handler.Outcome.{Result, ok, err, internal_fatal, out_of_fuel}
use sql_handler.Prelude.{
  ℕ, zero, suc, ◌+◌, Bool, true, false, Option, none, some, List, [], ◌∷◌, ◌++◌, Text, codes, ltb,
  ◌==◌, if◌then◌else◌,
}

-- What a builder uses of its connector, beside the actions; of the values of libdap that the type
-- factory makes, and of an attribute table.
pub record Source (W C B T : Type 0) : Type 0 where
  pub handler : Handler W C B
  pub is_ready : W → Bool
  pub get_cols : W → ℕ
  pub reset : W → W
  pub get_col_desc : ℕ → Call W Text
  pub server : Call W Text
  pub real_name : Call W Text
  pub name_of : B → Text
  pub type_name_of : B → Text
  pub append_attr : Text → Text → Text → T → Result T

-- A variable of the sequence: of a column, or a place-holder.
pub data Variable (B : Type 0) : Type 0 where
  real : B → Variable B
  dummy : Text → Variable B

-- The connector, the attribute table, and the variables of the sequence so far.
pub record Building (W B T : Type 0) : Type 0 where
  pub connector : W
  pub attributes : T
  pub variables : List (Variable B)

-- `SQLSequence`, and the name of the data set beside it.
pub record Response (B : Type 0) : Type 0 where
  pub sequence_name : Text
  pub sequence_dataset : Text
  pub variables : List (Variable B)
  pub dataset_name : Text

abbrev pub default_name : Text
default_name = codes "DefaultName"

abbrev pub default_type : Text
default_type = codes "String"

abbrev pub default_val : Text
default_val = codes "Place-holder for unread variables"

-- `name.find_last_of('/')`, and the text behind it; all of it where there is none.
unfoldable pub behind_slash : Text → Option Text
behind_slash [] = none
behind_slash (c ∷ s) = elim (behind_slash s) [
  | some t ↦ some t
  | none ↦ if c == b'/' then some s else none
]

-- The name that the data set gets.
unfoldable pub dataset_name_of : Text → Text
unfolding behind_slash
dataset_name_of name = elim (behind_slash name) [ none ↦ name | some t ↦ t ]

module _ {W C B T : Type 0} (x : Source W C B T) where
  abbrev pub with_connector :
      {A : Type 0} → Building W B T → W × Result A → Building W B T × Result A
  with_connector o (w, r) = (record o { connector = w }, r)

  -- A call of the connector.
  abbrev pub on_connector : {A : Type 0} → Call W A → Call (Building W B T) A
  on_connector m o = with_connector o (m o.connector)

  -- `attr.append_attr`
  unfoldable pub add_attr : Text → Text → Text → Call (Building W B T) (Unit {0})
  add_attr name type value o = elim (x.append_attr name type value o.attributes) [
    | err e ↦ (o, err e)
    | ok t ↦ (record o { attributes = t }, ok tt)
  ]

  -- `seq->add_var_nocopy`
  abbrev pub add_var : Variable B → Building W B T → Building W B T
  add_var v o = record o { variables = o.variables ++ v ∷ [] }

  -- The branch for a value.
  unfoldable pub real_column : ℕ → B → Call (Building W B T) (Unit {0})
  unfolding add_attr
  real_column i bt = do
    desc ← on_connector (x.get_col_desc i)
    add_attr (x.name_of bt) (x.type_name_of bt) desc
    modify (add_var (real bt))

  -- The branch for null.
  unfoldable pub dummy_column : Call (Building W B T) (Unit {0})
  unfolding add_attr
  dummy_column = do
    moved ← on_connector x.handler.set_next
    modify (add_var (dummy default_name))
    add_attr default_name default_type default_val

  unfoldable pub typed_column : ℕ → Option B → Call (Building W B T) (Unit {0})
  unfolding real_column dummy_column
  typed_column i none = dummy_column
  typed_column i (some bt) = real_column i bt

  -- One round of the loop.
  unfoldable pub one_column : ℕ → Call (Building W B T) (Unit {0})
  unfolding typed_column
  one_column i = do bt ← on_connector (next_type x.handler false); typed_column i bt

  -- `for (i = …; i < connector->getCols(); i++)`, on fuel.
  unfoldable pub all_columns : ℕ → ℕ → Call (Building W B T) (Unit {0})
  unfolding one_column
  all_columns zero i o = (o, err out_of_fuel)
  all_columns (suc fuel) i o = elim (ltb i (x.get_cols o.connector)) [
    | true ↦ (do one_column i; all_columns fuel (suc i)) o
    | false ↦ (o, ok tt)
  ]

  abbrev pub reset_connector : Building W B T → Building W B T
  reset_connector o = record o { connector = x.reset o.connector }

  -- The constructor of `SQLSequence`.
  abbrev pub reset_if_ready : Building W B T → Building W B T
  reset_if_ready o = if x.is_ready o.connector then reset_connector o else o

  -- The loop, whose fuel is the number of columns and one more.
  abbrev pub every_column : Call (Building W B T) (Unit {0})
  every_column o = all_columns (suc (x.get_cols o.connector)) 0 o

  -- `sql_build_dds`; `has_response` is the cast of the response object.
  unfoldable pub build_dds : Bool → C → Call (Building W B T) (Response B)
  unfolding all_columns dataset_name_of
  build_dds has_response container = do
    connected ← on_connector (connect x.handler container false)
    queried ← on_connector (query x.handler false)
    check_that has_response internal_fatal
    server ← on_connector x.server
    dataset ← on_connector x.real_name
    modify reset_if_ready
    modify reset_connector
    every_column
    modify reset_connector
    name ← on_connector x.real_name
    λ o. (
      o,
      ok (record {
        sequence_name = server;
        sequence_dataset = dataset;
        variables = o.variables;
        dataset_name = dataset_name_of name;
      }),
    )

  -- `sql_build_data`, whose body is the same but for the value of a place-holder, which is not
  -- modelled.
  unfoldable pub build_data : Bool → C → Call (Building W B T) (Response B)
  unfolding build_dds
  build_data = build_dds

  -- The branches of `sql_build_das`: a value gives an attribute of its description in quotes.
  unfoldable pub described_column : ℕ → Option B → Call (Building W B T) (Unit {0})
  unfolding add_attr
  described_column i none = add_attr default_name default_type default_val
  described_column i (some bt) = do
    desc ← on_connector (x.get_col_desc i)
    add_attr (x.name_of bt) default_type (codes "\"" ++ desc ++ codes "\"")

  unfoldable pub all_described : ℕ → ℕ → Call (Building W B T) (Unit {0})
  unfolding described_column
  all_described zero i o = (o, err out_of_fuel)
  all_described (suc fuel) i o = elim (ltb i (x.get_cols o.connector)) [
    | true ↦
        (do
          bt ← on_connector (next_type x.handler false)
          described_column i bt
          all_described fuel (suc i))
          o
    | false ↦ (o, ok tt)
  ]

  abbrev pub every_description : Call (Building W B T) (Unit {0})
  every_description o = all_described (suc (x.get_cols o.connector)) 0 o

  -- `sql_build_das`; the table that the attributes go to is the one of the server's name.
  unfoldable pub build_das : Bool → C → Call (Building W B T) Bool
  unfolding all_described
  build_das has_response container = do
    check_that has_response internal_fatal
    connected ← on_connector (connect x.handler container false)
    queried ← on_connector (query x.handler false)
    server ← on_connector x.server
    modify reset_connector
    every_description
    closed ← on_connector (close x.handler false)
    return true
