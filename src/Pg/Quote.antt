-- ===== src/Pg/Quote.antt =====
-- pkg/pg/utils.go, and connectStringValue of pkg/pg/conn_param.go: quoting of names and values.
pub mod Lexing
pub mod RoundTrip
pub mod Constants
use Prim.Native.String.{◌++◌}
use pgfga.Base.{String}
use pgfga.Text.{replace_all}

-- identifier: the name as a quoted SQL identifier
unfoldable pub identifier : String → String
identifier object_name = "\"" ++ (replace_all object_name "\"" "\"\"" ++ "\"")

-- quotedSQLValue: the text as an SQL string constant
unfoldable pub quoted_sql_value : String → String
quoted_sql_value object_name = "'" ++ (replace_all object_name "'" "''" ++ "'")

-- connectStringValue: the text as a value of a connection string
unfoldable pub connect_string_value : String → String
connect_string_value object_name = "'" ++ (replace_all object_name "'" "\\'" ++ "'")
