-- ===== src/Odbc/Types.antt =====
-- unixODBC/ODBCConnector.cc: the C type to which a SQL type is bound.

-- The SQL types that the source names, and all others.
pub data SqlType : Type 0 where
  char varchar longvarchar wchar wvarchar wlongvarchar decimal numeric bit tinyint : SqlType
  smallint integer bigint real float double binary varbinary longvarbinary : SqlType
  type_date type_time guid other_type : SqlType

-- The C types; `unset` is the 0 that a new array holds.
pub data CType : Type 0 where
  unset c_char c_wchar c_long c_bit c_tinyint c_short c_sbigint c_float c_double : CType
  c_binary c_type_date c_type_time : CType

-- `getCType`
unfoldable pub get_c_type : SqlType → CType
get_c_type char = c_char
get_c_type varchar = c_char
get_c_type longvarchar = c_char
get_c_type wchar = c_wchar
get_c_type wvarchar = c_wchar
get_c_type wlongvarchar = c_wchar
get_c_type decimal = c_long
get_c_type numeric = c_long
get_c_type bit = c_bit
get_c_type tinyint = c_tinyint
get_c_type smallint = c_short
get_c_type integer = c_long
get_c_type bigint = c_sbigint
get_c_type real = c_float
get_c_type float = c_double
get_c_type double = c_double
get_c_type binary = c_binary
get_c_type varbinary = c_binary
get_c_type longvarbinary = c_binary
get_c_type type_date = c_type_date
get_c_type type_time = c_type_time
get_c_type guid = c_char
get_c_type other_type = c_char
