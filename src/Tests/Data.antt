-- ===== src/Tests/Data.antt =====
-- Columns and parameters at concrete inputs.
use fcgi_cpp_appserver.Database.Columns.{Moment}

abbrev moment : Moment
moment = record { year = 2012; month = 2; day = 29; hour = 7; minute = 5; second = 59 }
