-- ===== src/Form.antt =====
-- `fcgi_request::parse_form_data` of src/server/fcgi_handler.cpp. The request's body is the list of the
-- bytes that `fcgi_in` has still to give.
pub mod Whole
pub mod Fields
pub mod Reads
use fcgi_cpp_appserver.Common.{
  ℕ, zero, suc, ◌+◌, ◌-◌, ◌*◌, ◌%◌, Bool, true, false, ◌&&◌, ◌||◌, Option, none, some, List, [],
  ◌∷◌, ltb, leb, ◌==◌, if◌then◌else◌, length, take, drop,
}
use fcgi_cpp_appserver.Common.Bytes.{Bytes, codes}
use fcgi_cpp_appserver.Common.Dict.{Dict, lookup}
use fcgi_cpp_appserver.Exception.{Exception, logic_error, runtime_error}
use fcgi_cpp_appserver.Multipart.{Parser, done, thrown, stuck, process_buf}
use fcgi_cpp_appserver.Multipart.Setup.{create}

-- The call's end; `out_of_fuel` is a run that the fuel does not suffice for.
pub data Result : Type 0 where
  returns : Dict Bytes → Result
  throws : Exception → Result
  out_of_fuel : Result

abbrev pub stdin_max : ℕ
stdin_max = 32768

-- `isspace` in the "C" locale.
abbrev is_space : ℕ → Bool
is_space c = c == b' ' || leb 9 c && leb c 13

abbrev is_digit : ℕ → Bool
is_digit c = leb b'0' c && leb c b'9'

-- The number that the digits at the head of `s` add to `n`.
unfoldable pub digits : ℕ → Bytes → ℕ
digits n [] = n
digits n (c ∷ s) = elim (is_digit c) [ true ↦ digits (n * 10 + (c - b'0')) s | false ↦ n ]

-- The result as a 64-bit `unsigned long`; `strtol` stops at LONG_MAX and LONG_MIN.
abbrev signed : Bool → ℕ → ℕ
signed false n = if ltb 9223372036854775807 n then 9223372036854775807 else n
signed true n =
    if ltb 9223372036854775808 n
    then 9223372036854775808
    else (18446744073709551616 - n) % 18446744073709551616

-- `(unsigned long)strtol(s, NULL, 10)`, behind the blanks.
unfoldable pub strtol_sign : Bytes → ℕ
unfolding digits
strtol_sign [] = 0
strtol_sign (c ∷ s) =
    if c == b'-'
    then signed true (digits 0 s)
    else if c == b'+'
    then signed false (digits 0 s)
    else signed false (digits 0 (c ∷ s))

unfoldable pub strtol : Bytes → ℕ
unfolding strtol_sign
strtol [] = 0
strtol (c ∷ s) = if is_space c then strtol s else strtol_sign (c ∷ s)

-- `try { p.upload_process_buf(buf, buf + clen); } catch(...) { }`: the parser after the call.
unfoldable pub process_caught : Parser → Bytes → Option Parser
process_caught p buf = elim (process_buf p buf) [
  | done q ↦ some q
  | thrown q e ↦ some q
  | stuck ↦ none
]

-- `if(clen > 0)` and what it guards, with `clen` bytes read.
unfoldable pub process_chunk : Parser → Bytes → Option Parser
unfolding process_caught
process_chunk p buf = if ltb 0 (length buf) then process_caught p buf else some p

-- The loop: `read` gives up to `clen` bytes, and fewer only at the end of the stream.
unfoldable pub read_loop : ℕ → ℕ → Bytes → Parser → Option Parser
read_loop zero clen input p = none
read_loop (suc fuel) clen input p =
    let buf = take clen input in
    elim (process_chunk p buf) [
      | none ↦ none
      | some q ↦
          let rest = read_loop fuel (length buf) (drop clen input) q in
          if ltb (length input) clen then some q else rest
    ]

-- The parser reads headers of 512 bytes and values of 128 KB. The loop runs once for each `clen` bytes
-- and once more. The `ignore` behind the loop finds the stream at its end.
unfoldable pub parse_form_data : Bytes → Bytes → Bytes → Dict Bytes → Result
parse_form_data content_type content_length input params =
    let clen = strtol content_length in
    let capped = if ltb stdin_max clen then stdin_max else clen in
    if length content_type == 0
    then throws (logic_error (codes "HTTP server is not configured to pass CONTENT_TYPE variable"))
    else if length content_length == 0
    then throws
        (logic_error (codes "HTTP server is not configured to pass CONTENT_LENGTH variable"))
    else if clen == 0
    then throws (runtime_error (codes "can't parse \"CONTENT_LENGTH\n"))
    else elim (create content_type 512 131072 params) [
      | done p ↦ elim (read_loop (length input + 1) capped input p) [
        | none ↦ out_of_fuel
        | some q ↦ returns q.params
      ]
      | thrown p e ↦ throws e
      | stuck ↦ out_of_fuel
    ]

-- What a handler reads from the map that the call fills.
unfoldable pub has_formdata_param : Dict Bytes → Bytes → Bool
has_formdata_param params name = elim (lookup name params) [ none ↦ false | some v ↦ true ]

unfoldable pub get_formdata_param : Dict Bytes → Bytes → Bytes
get_formdata_param params name = elim (lookup name params) [ none ↦ [] | some v ↦ v ]
