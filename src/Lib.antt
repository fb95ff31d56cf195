-- ===== src/Lib.antt =====
-- The SQL handler: a module of a data server that answers requests from relational databases. A
-- dataset file names, section by section, a database server and the SELECT, FROM and WHERE parts of
-- a query. The container reads the file, and for a request it writes the SQL text. The request
-- handler tries the sections one after the other, with the plugin of each section's interface. A
-- plugin's connector runs the query, and a cursor walks the cells of the result set.
--
-- The files, and the code they are about:
-- Prelude, Outcome, Regex: shared names, lists, maps and texts (a text is the list of its character
--   codes); results, exceptions and the object that a throw leaves; the regular expressions.
-- SortedSet: std::set with a comparator.
-- Cursor: connector/SQLTypeConnector.h. `set_next` is setNext, cut at its two ifs into `next_rows`,
--   `next_column` and `enter_row`. A size_t is a number below 2 ^ 64, with its wrap-around.
-- StringMatch: utils/StringMatch.h and utils/StringMatch.cc. `match_vectors` and `match_set` are the
--   two versions of match. Their fuel is the length of the row and one more: each round erases its
--   match.
-- Query, with Query/Attributes and Query/Constraints: container/SQLQuery.{h,cc},
--   container/SQLAttribute.h and container/SQLConstraint.h.
-- Dataset, with Dataset/Parts, Dataset/State and Dataset/Rows: the reading half of
--   container/SQLTextContainer.cc and container/SQLTextDefinitions.h. `read` is read, and each
--   function that it calls has its own definition. The fuel of `substitute` is the length of the row
--   and one more.
-- Sql: the other half of container/SQLTextContainer.cc: buildQuery, buildCountQuery and
--   comparatorSubst, for the section in use.
-- Requests: SQLRequestHandler.{h,cc}. The container's cursor is the list of the sections from the
--   actual one on: end is its end, and setNext drops its head. The fuel of `last_chance_runner` is
--   the number of sections and one more; `new_methods` are the two methods that the constructor adds,
--   for the framework's names of the commands. Requests/Plugins: SQLPlugin.{h,cc}, the constructor in
--   unixODBC/ODBCPlugin.h and unixODBC/ODBCPluginLoader.cc; a plugin changes the registry that it
--   points to, so its functions go over both (`Linked`). Requests/Wrapping: wrapper of
--   SQLRequestHandler.h, which takes a container from Containers/Factory and runs the request on it.
-- CheckPoint: DEM/SQLCheckPoint.{h,cc}.
-- Actions: action/SQLActionManager.h; `do_actions` is doActions, on fuel, since its loop may go on
--   for ever. Actions/Lists: action/SQLActionList.h, action/SQLStaticActionList.h and
--   action/SQLObjectActionList.h, and the inner loop of doActions over a list of a class (`run_list`,
--   whose fuel is more than the actions left). Actions/Dynamic: action/SQLDynamicActionList.h and
--   action/SQLDynamicActionFactory.h, with the parts of utils/SmartList.h and utils/SmartMap.h that
--   they use. Actions/Errors: DEM/SQLErrorManager.h, DEM/SQLDefaultErrorAction.h,
--   DEM/SQLErrorFactory.h, connector/SQLErrorConnector.h and
--   unixODBC/ODBCErrorFactoryComponent.{h,cc}; for the return codes of ODBC one round is enough.
-- Call: a method that changes its object and returns or throws.
-- Odbc: unixODBC/ODBCConnector.{h,cc} and connector/SQLHandleConnector.h. Odbc/State has the members,
--   clean and getMsg; Odbc/Columns getType, getColSize, getColName and getColDesc, each cut into the
--   loop that fills its array (`load_`), and the look-up behind it (`kept_`); Odbc/Calls connect, query,
--   getRowCount, fetch, getNext and close. `d_buf` is a list of pointers, and what the bound buffers
--   hold is a list beside it. The trigger in these functions has the fuel of one round.
-- Connections: handler/connector/SQLConnectAction.h, SQLQueryAction.h, SQLCloseAction.h and
--   SQLNextTypeAction.h, over any connector; Connections/Odbc puts the ODBC connector in.
--   Connections/Objects: the objects of these classes, whose `action` has an exception specification.
-- Containers: container/SQLContainer.{h,cc} and the rest of container/SQLTextContainer.{h,cc}: setup,
--   clear, the copy, and the walk over the sections, where the iterator is the number of a section.
--   Containers/Factory: container/SQLContainerFactory.{h,cc} and
--   container/SQLContainerStorageVolatile.cc.
-- Responses: handler/SQLBuildDDS.h, handler/SQLBuildDATA.h and handler/SQLBuildDAS.h. The fuel of the
--   loop over the columns is their number and one more.
-- Values: DTM/SQLCastAction.h, action/SQLObjectAction.h, DTM/SQLBaseType.h, DTM/SQLSimpleType.h and
--   DTM/SQLDummySimpleType.h. The three classes are one record with a form; the strings that casts
--   make are a heap. BESDEBUG evaluates its arguments if debugging is on, which `read` is told.
--   Values/Copies: the copies that ptr_duplicate makes, and the destructor of the cast.
--   Values/Factory: unixODBC/ODBCTypeFactoryComponent.{h,cc}, DTM/SQLObjectTypeFactory.h and
--   DTM/SQLTypeManager.h; the factory stops after one round.
-- Sequence: DTM/SQLSequence.h; the loop over the variables is a recursion on their list.
-- Module: SQLModule.{h,cc}, and the construction, the look-up and the destructor of the single
--   instance of SQLRequestHandler.cc. An object is its address, and `live` says which are not deleted.
-- Tests: runs at concrete inputs.
-- The other files below these hold what is proved about them.
--
-- How the parts use each other: Dataset and Sql call Query, which calls StringMatch through
-- Attributes and Constraints; Requests walks the sections that Dataset reads. Containers sets a
-- container up with the reader of Dataset, and gives a connector the texts of Sql. Odbc moves the
-- cursor of Cursor and raises errors through Actions; Connections calls it.
--
-- What stands outside the model, as a parameter: regcomp and regexec (`Regex`), the place at which
-- std::set puts a constraint (`Placement`), the order of the codes of actions (`WeakOrder`), the
-- method table of BESRequestHandler (`MethodTable`, with its laws), the handlers of the plugins
-- (`Plugin`), the functions that take the configuration's lines apart (`Parser`), the return codes
-- and messages of a connector (`ErrorConnector`), the ODBC library (`Driver`, with the laws `Serves`
-- of a query that succeeds), the files (`Files`), the framework's storage of containers (`Storage`)
-- and its lists of storages, catalogs and request handlers (`Framework`, with the laws
-- `FrameworkLaws`), the classes that derive from std::exception (`is_std`), the values of libdap
-- (`Source`, and `Dap` with the law `Takes`), and the unescaping of a request (`www2id`).
-- Exceptions are told apart by class, and their messages are left out. The exception
-- specifications of read of the text container, of the error factory, the container factory and
-- the objects of the connector actions are modelled: an exception that they do not have ends the
-- program (`terminated`). Mutexes are left out, but for the one of the request handler in Module;
-- so are logging and memory, but for the strings that casts make and the bound of d_status, behind
-- which a query or a fetch is undefined.
--
-- Not modelled: the action that holds a function alone (SQLStaticAction); the overflow of a SQLLEN
-- in the row's size, which is undefined; version and help; the constructors of containers from a
-- container of the framework; the templates and the SQLite plugin, which the build does not use.
pub mod Prelude
pub mod Outcome
pub mod Regex
pub mod SortedSet
pub mod Cursor
pub mod StringMatch
pub mod Query
pub mod Dataset
pub mod Sql
pub mod Requests
pub mod CheckPoint
pub mod Actions
pub mod Call
pub mod Odbc
pub mod Connections
pub mod Containers
pub mod Responses
pub mod Module
pub mod Sequence
pub mod Tests
pub mod Values
