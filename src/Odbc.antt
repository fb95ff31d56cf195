-- ===== src/Odbc.antt =====
-- unixODBC/ODBCConnector.{h,cc}: the connector to a server of the ODBC library. The library is a
-- parameter.
pub mod Types
pub mod State
pub mod Columns
pub mod Calls
pub mod Table
pub mod Rows
pub mod Stream
pub mod Reads
pub mod Serves
pub mod Arrays
pub mod Opens
pub mod Opening
pub mod Success
pub mod Result
pub mod Messages
pub mod Filled
pub mod Names
pub mod Totals
pub mod Sizes
