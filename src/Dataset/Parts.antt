-- ===== src/Dataset/Parts.antt =====
-- The data of container/SQLTextDefinitions.h: sections, and the diary of the parts found.
use sql_handler.Prelude.{Bool, true, false, ◌&&◌, ◌||◌, not, [], Text, TextMap}
use sql_handler.Query.{Query, new_query}

-- `_SQLH_DATASET_PARTS`
pub data Part : Type 0 where
  section_tag api server port dbname user pass select_tag from_tag where_tag other_tag : Part

-- `dataset_section`
pub record Section : Type 0 where
  pub api : Text
  pub server : Text
  pub port : Text
  pub dbname : Text
  pub user : Text
  pub pass : Text
  pub query : Query
  pub other : TextMap Text

-- The default constructor.
unfoldable pub new_section : Section
unfolding new_query
new_section = record {
  api = [];
  server = [];
  port = [];
  dbname = [];
  user = [];
  pass = [];
  query = new_query;
  other = [];
}

-- `std::bitset<_SQLH_DATASET_PARTS_NUM>`
pub record Diary : Type 0 where
  pub section_tag : Bool
  pub api : Bool
  pub server : Bool
  pub port : Bool
  pub dbname : Bool
  pub user : Bool
  pub pass : Bool
  pub select_tag : Bool
  pub from_tag : Bool
  pub where_tag : Bool
  pub other_tag : Bool

-- A bit set with no bit set.
unfoldable pub no_parts : Diary
no_parts = record {
  section_tag = false;
  api = false;
  server = false;
  port = false;
  dbname = false;
  user = false;
  pass = false;
  select_tag = false;
  from_tag = false;
  where_tag = false;
  other_tag = false;
}

-- `set(part, b)`
unfoldable pub set_part : Part → Bool → Diary → Diary
set_part Part.section_tag b d = record d { section_tag = b }
set_part Part.api b d = record d { api = b }
set_part Part.server b d = record d { server = b }
set_part Part.port b d = record d { port = b }
set_part Part.dbname b d = record d { dbname = b }
set_part Part.user b d = record d { user = b }
set_part Part.pass b d = record d { pass = b }
set_part Part.select_tag b d = record d { select_tag = b }
set_part Part.from_tag b d = record d { from_tag = b }
set_part Part.where_tag b d = record d { where_tag = b }
set_part Part.other_tag b d = record d { other_tag = b }

-- `test(part)`
unfoldable pub test_part : Part → Diary → Bool
test_part Part.section_tag d = d.section_tag
test_part Part.api d = d.api
test_part Part.server d = d.server
test_part Part.port d = d.port
test_part Part.dbname d = d.dbname
test_part Part.user d = d.user
test_part Part.pass d = d.pass
test_part Part.select_tag d = d.select_tag
test_part Part.from_tag d = d.from_tag
test_part Part.where_tag d = d.where_tag
test_part Part.other_tag d = d.other_tag

-- `SQLTextContainer::requirements`
unfoldable pub requirements : Diary
unfolding set_part no_parts
requirements = set_part from_tag true (
    set_part select_tag true
      (set_part server true (set_part api true (set_part section_tag true no_parts))))

-- A bit that is required is there.
abbrev implies : Bool → Bool → Bool
implies r c = not r || c

-- `required == (required & complete)`
unfoldable pub meets : Diary → Diary → Bool
meets r c =
    implies r.section_tag c.section_tag
    && implies r.api c.api
    && implies r.server c.server
    && implies r.port c.port
    && implies r.dbname c.dbname
    && implies r.user c.user
    && implies r.pass c.pass
    && implies r.select_tag c.select_tag
    && implies r.from_tag c.from_tag
    && implies r.where_tag c.where_tag
    && implies r.other_tag c.other_tag
