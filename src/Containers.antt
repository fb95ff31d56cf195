-- ===== src/Containers.antt =====
-- container/SQLContainer.{h,cc}, container/SQLTextContainer.{h,cc}: the life of a container, from its
-- dataset file to the section in use.
pub mod Factory
pub mod Ready
pub mod Sections
pub mod Served
use sql_handler.Call.{Call, ◌>>=◌, ◌>>◌, return, modify}
use sql_handler.Dataset.Parts.{Section}
use sql_handler.Dataset.State.{Members}
use sql_handler.Dataset.{read}
use sql_handler.Odbc.State.{Params}
use sql_handler.Outcome.{Result, ok, err, Outcome, done, raised, internal, undefined}
use sql_handler.Prelude.{
  ℕ, zero, suc, ◌+◌, Bool, true, false, ◌&&◌, Option, none, some, List, [], ◌∷◌, Text, TextMap,
  lookup, get_elem?, has_any, length, ltb, not, if◌then◌else◌,
}
use sql_handler.Query.Constraints.{Placement}
use sql_handler.Regex.{Regex}
use sql_handler.Sql.{build_query, build_count_query, get_other}

-- What the program sees of the file system: the rows of a file that can be opened, the time of its
-- last change, in seconds, if `stat` succeeds; and the time of day.
pub record Files : Type 0 where
  pub rows : Text → Option (List Text)
  pub mtime : Text → Option ℕ
  pub now : ℕ

-- `SQLTextContainer`, the members of its base classes included. `d_actual_section` is the number of a
-- section, or `none` at the end of the list.
pub record Container : Type 0 where
  pub symbolic_name : Text
  pub real_name : Text
  pub container_type : Text
  pub constraint : Text
  pub attributes : Text
  pub is_ready : Bool
  pub time : ℕ
  pub members : Members
  pub actual_section : Option ℕ

-- `_dataset->begin()`
abbrev pub begin : List Section → Option ℕ
begin [] = none
begin (s ∷ rest) = some 0

-- `reset`
unfoldable pub reset : Container → Container
reset c = record c { actual_section = begin c.members.dataset }

-- `clear`
unfoldable pub clear : Container → Container
clear c = record c { members = record c.members { dataset = [] }; actual_section = none }

-- `end`
unfoldable pub end : Container → Bool
end c = elim c.actual_section [ none ↦ true | some i ↦ false ]

-- `empty`
unfoldable pub empty : Container → Bool
empty c = not (has_any c.members.dataset)

-- `d_actual_section++`
abbrev pub step : List Section → ℕ → Option ℕ
step sections i = if ltb (suc i) (length sections) then some (suc i) else none

-- `setNext`
unfoldable pub set_next : Container → Container × Bool
unfolding end
set_next c = elim c.actual_section [
  | none ↦ (c, false)
  | some i ↦
      let c' : Container = record c { actual_section = step c.members.dataset i } in
      (c', not (end c'))
]

-- `*d_actual_section`; at the end of the list it is undefined.
unfoldable pub section_in_use : Container → Result Section
section_in_use c = elim c.actual_section [
  | none ↦ err undefined
  | some i ↦ elim (get_elem? c.members.dataset i) [ none ↦ err undefined | some s ↦ ok s ]
]

-- `init`
unfoldable pub init : Files → Container → Container
init f c = record c { time = elim (f.mtime c.real_name) [ none ↦ f.now | some t ↦ t ] }

-- _SQLH_CONT_TIME_DIF
abbrev pub time_dif : ℕ
time_dif = 10

-- `fabs(difftime(a, b)) < _SQLH_CONT_TIME_DIF`
abbrev pub close_to : ℕ → ℕ → Bool
close_to a b = ltb a (b + time_dif) && ltb b (a + time_dif)

-- `isUpToDate`
unfoldable pub is_up_to_date : Files → Container → Bool
is_up_to_date f c = elim (f.mtime c.real_name) [ none ↦ false | some t ↦ close_to c.time t ]

-- `SQLTextContainer(const SQLTextContainer &)`, with the constructor of its base
unfoldable pub duplicate : Files → Container → Container
unfolding is_up_to_date
duplicate f c = record c {
  is_ready = c.is_ready && is_up_to_date f c;
  members = record { dataset = c.members.dataset; where_buffer = []; attribute_buffer = [] };
  actual_section = begin c.members.dataset;
}

-- `set_attributes` and `set_constraint`
abbrev pub with_request : Text → Text → Container → Container
with_request attributes constraint c = record c { attributes = attributes; constraint = constraint }

-- `if (!empty()) clear()`
unfoldable pub emptied : Container → Container
unfolding empty clear
emptied c = if empty c then c else clear c

module _ (rx : Regex) (place : Placement) (f : Files) where
  -- `read() && init()`, and what `setup` does with it. A throw leaves the flag as it was.
  unfoldable pub after_read : Container → Outcome (Members × Bool) → Container × Result Bool
  unfolding init reset
  after_read c (done (m, true)) =
      (reset (record (init f (record c { members = m })) { is_ready = true }), ok true)
  after_read c (done (m, false)) = (record c { members = m; is_ready = false }, ok false)
  after_read c (raised e (m, b)) = (record c { members = m }, err e)

  -- `setup`
  unfoldable pub setup : Call Container Bool
  unfolding after_read emptied
  setup c =
      after_read (emptied c) (read rx place (emptied c).members (f.rows (emptied c).real_name))

  -- `if (!setup()) throw BESInternalError`
  unfoldable pub demand_setup : Container × Result Bool → Container × Result (Unit {0})
  demand_setup (c, ok true) = (c, ok tt)
  demand_setup (c, ok false) = (c, err internal)
  demand_setup (c, err e) = (c, err e)

  -- A container before `setup`.
  abbrev pub unread : Text → Text → Text → Container
  unread name real_name type = record {
    symbolic_name = name;
    real_name = real_name;
    container_type = type;
    constraint = [];
    attributes = [];
    is_ready = false;
    time = 0;
    members = record { dataset = []; where_buffer = []; attribute_buffer = [] };
    actual_section = none;
  }

  -- A constructor that throws makes no object.
  abbrev pub constructed : Container × Result (Unit {0}) → Result Container
  constructed (c, ok u) = ok c
  constructed (c, err e) = err e

  -- `SQLTextContainer(name, real_name, type)`
  unfoldable pub new_container : Text → Text → Text → Result Container
  unfolding demand_setup setup
  new_container name real_name type =
      constructed (demand_setup (setup (unread name real_name type)))

  -- What a connector asks its container for; `www2id` unescapes the request.
  unfoldable pub params_of : (Text → Text) → Container → Result Params
  unfolding section_in_use
  params_of www2id c = elim (section_in_use c) [
    | err e ↦ err e
    | ok s ↦ ok (record {
      server = s.server;
      user = s.user;
      pass = s.pass;
      count_query = build_count_query rx place s;
      query_text = build_query rx place s (www2id c.constraint);
    })
  ]
