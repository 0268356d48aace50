-- ===== src/Exception.antt =====
-- The exceptions of src/server/fcgi_handler.h and of the standard library that the program throws.
use fcgi_cpp_appserver.Common.{ℕ}
use fcgi_cpp_appserver.Common.Bytes.{Bytes}

-- `fcgi_exception(what, status)`, `std::logic_error(what)` (and `std::out_of_range`, which is one),
-- `std::runtime_error(what)`, and whatever is no `std::exception`.
pub data Exception : Type 0 where
  fcgi_exception : Bytes → ℕ → Exception
  logic_error : Bytes → Exception
  runtime_error : Bytes → Exception
  other_exception : Exception

abbrev pub http_bad_request : ℕ
http_bad_request = 400

abbrev pub http_not_found : ℕ
http_not_found = 404

abbrev pub http_unsupported_media_type : ℕ
http_unsupported_media_type = 415

abbrev pub http_internal_server_error : ℕ
http_internal_server_error = 503
