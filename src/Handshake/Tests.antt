-- ===== src/Handshake/Tests.antt =====
-- A request, and the answer of a server that switches.
use jetsocket.Prelude.{
  ℕ, ◌+◌, ◌-◌, ◌*◌, ◌≡◌, refl, ◌&&◌, Option, none, some, List, [], ◌∷◌, ◌++◌, map, leb, ◌==◌,
  if◌then◌else◌,
}
use jetsocket.Exceptions.{ok, err, value_error}
use jetsocket.Dict.{get, put}
use jetsocket.Uri.Texts.{Text, literal}
use jetsocket.Handshake.Texts.{starts, is_in, split_once, split_lines, line_end, before_blank, join}
use jetsocket.Handshake.Defs.{
  Python, Handshake, request_lines, build_request, guid, status_part, validate_accept, read_headers,
  extension_list, check_accept, check_headers, check_status, check_part, check_lines, check_section,
  decode_section, parse_response,
}
use jetsocket.Handshake.Answer.{answer, dict_of, PythonLaws, parse_response-answer}

abbrev lower_letter : ℕ → ℕ
lower_letter x = if leb 65 x && leb x 90 then x + 32 else x

abbrev strip_left : Text → Text
strip_left [] = []
strip_left (x ∷ xs) = let rest : Text = strip_left xs in if x == 32 then rest else x ∷ xs

abbrev digits : ℕ → Text → Option ℕ
digits n [] = some n
digits n (x ∷ xs) =
    let rest : Option ℕ = digits (n * 10 + (x - 48)) xs in
    if leb 48 x && leb x 57 then rest else none

-- The functions on ASCII text, with no hashing.
abbrev ascii : Python
ascii = record {
  decode = some;
  encode = λ text. text;
  lower = map lower_letter;
  strip = strip_left;
  to_int = digits 0;
  sha1 = λ octets. octets;
  b64encode = λ octets. octets;
}

ascii_laws : PythonLaws ascii
ascii_laws = record { decode_ascii = λ text h. refl; to_int_101 = refl }

abbrev headers : List (Text × Text)
headers =
    (literal "Upgrade", literal "WebSocket")
    ∷ (literal "Connection", literal "keep-alive, Upgrade")
    ∷ (literal "Sec-WebSocket-Accept", literal "wrong")
    ∷ (literal "SEC-WEBSOCKET-ACCEPT", literal "key" ++ guid)
    ∷ []

parse_response-answer_example :
    parse_response ascii
      (literal "key")
      (answer (literal "Switching Protocols") headers (129 ∷ 0 ∷ []))
    ≡ check_headers ascii (literal "key") (dict_of ascii [] headers)
parse_response-answer_example =
    parse_response-answer ascii ascii_laws (literal "key") (literal "Switching Protocols") headers
      (129 ∷ 0 ∷ []) refl refl

-- The second accept header counts.
accepted :
    check_headers ascii (literal "key") (dict_of ascii [] headers)
    ≡ ok (record {
      status = 101;
      headers = dict_of ascii [] headers;
      subprotocol = none;
      extensions = [];
    })
unfolding check_headers check_accept validate_accept extension_list is_in starts dict_of get put
accepted = refl

not_found :
    parse_response ascii [] (literal "HTTP/1.1 404 Not Found" ++ (line_end ++ line_end))
    ≡ err value_error
unfolding parse_response check_section decode_section before_blank starts split_lines check_lines
    status_part split_once check_part check_status check_headers check_accept read_headers is_in get
not_found = refl

abbrev handshake : Handshake
handshake = record {
  key = literal "key";
  host = literal "a:1";
  path = literal "/";
  origin = some [];
  subprotocols = literal "v1" ∷ literal "v2" ∷ [];
  extensions = [];
  extra_headers = (literal "X", literal "y") ∷ [];
}

request_built :
    split_lines (build_request ascii handshake)
    ≡ literal "GET / HTTP/1.1"
      ∷ literal "Host: a:1"
      ∷ literal "Upgrade: websocket"
      ∷ literal "Connection: Upgrade"
      ∷ literal "Sec-WebSocket-Key: key"
      ∷ literal "Sec-WebSocket-Version: 13"
      ∷ literal "Sec-WebSocket-Protocol: v1, v2"
      ∷ literal "X: y"
      ∷ []
      ∷ []
      ∷ []
unfolding build_request request_lines join split_lines
request_built = refl
