-- ===== src/Handshake/Defs.antt =====
-- `Handshake`, `HandshakeResult` and `validate_accept` of jetsocket/_core.pyx. The str methods that
-- depend on Unicode's tables, the codec and the hash are arguments, and so is the random key.
use jetsocket.Prelude.{ℕ, Bool, Option, none, some, List, [], ◌∷◌, ◌++◌, map, ◌==◌, if◌then◌else◌}
use jetsocket.Exceptions.{Result, ok, err, value_error}
use jetsocket.Dict.{Dict, get, put}
use jetsocket.Uri.Texts.{Text, literal, same_text}
use jetsocket.Handshake.Texts.{
  is_in, split_once, split_all, line_end, split_lines, before_blank, join, text_eq,
}

pub record Python : Type 0 where
  -- bytes.decode("utf-8"), none where it raises, and str.encode("utf-8")
  pub decode : List ℕ → Option Text
  pub encode : Text → List ℕ
  pub lower : Text → Text
  pub strip : Text → Text
  -- int(text); none where it raises, and for a negative number
  pub to_int : Text → Option ℕ
  pub sha1 : List ℕ → List ℕ
  pub b64encode : List ℕ → List ℕ

-- The key is ASCII text.
pub record Handshake : Type 0 where
  pub key : Text
  pub host : Text
  pub path : Text
  pub origin : Option Text
  pub subprotocols : List Text
  pub extensions : List Text
  pub extra_headers : List (Text × Text)

pub record HandshakeResult : Type 0 where
  pub status : ℕ
  pub headers : Dict Text Text
  pub subprotocol : Option Text
  pub extensions : List Text

abbrev pub header_line : Text × Text → Text
header_line (name, value) = name ++ (literal ": " ++ value)

-- `if self._origin` and the like
abbrev pub origin_lines : Option Text → List Text
origin_lines none = []
origin_lines (some []) = []
origin_lines (some (x ∷ xs)) = header_line (literal "Origin", x ∷ xs) ∷ []

abbrev pub joined_lines : Text → Text → List Text → List Text
joined_lines name mark [] = []
joined_lines name mark (text ∷ texts) = header_line (name, join mark (text ∷ texts)) ∷ []

unfoldable pub request_lines : Handshake → List Text
request_lines h =
    (literal "GET " ++ h.path ++ literal " HTTP/1.1")
      ∷ header_line (literal "Host", h.host)
      ∷ literal "Upgrade: websocket"
      ∷ literal "Connection: Upgrade"
      ∷ header_line (literal "Sec-WebSocket-Key", h.key)
      ∷ literal "Sec-WebSocket-Version: 13"
      ∷ origin_lines h.origin
    ++ joined_lines (literal "Sec-WebSocket-Protocol") (literal ", ") h.subprotocols
    ++ joined_lines (literal "Sec-WebSocket-Extensions") (literal "; ") h.extensions
    ++ map header_line h.extra_headers

abbrev pub guid : Text
guid = literal "258EAFA5-E914-47DA-95CA-C5AB0DC85B11"

abbrev pub or_empty : Option Text → Text
or_empty none = []
or_empty (some text) = text

-- parts[1] of line.split(" ", 2)
unfoldable pub status_part : Text → Option Text
unfolding split_once
status_part line = elim (split_once 32 line) [
  | none ↦ none
  | some (version, rest) ↦ elim (split_once 32 rest) [
    | none ↦ some rest
    | some (status, reason) ↦ some status
  ]
]

module _ (py : Python) where
  unfoldable pub build_request : Handshake → List ℕ
  unfolding request_lines join
  build_request h = py.encode (join line_end (request_lines h ++ [] ∷ [] ∷ []))

  unfoldable pub validate_accept : Text → Text → Bool
  validate_accept key accept = same_text (py.b64encode (py.sha1 (key ++ guid))) accept

  -- The body of `for line in lines[1:]`.
  unfoldable pub read_header : Dict Text Text → Text → Dict Text Text
  unfolding split_once put
  read_header headers line = elim (split_once 58 line) [
    | none ↦ headers
    | some (name, value) ↦ put headers (py.lower (py.strip name)) (py.strip value)
  ]

  unfoldable pub read_headers : Dict Text Text → List Text → Dict Text Text
  unfolding read_header
  read_headers headers [] = headers
  read_headers headers (line ∷ lines) = read_headers (read_header headers line) lines

  unfoldable pub extension_list : Text → List Text
  unfolding split_all
  extension_list [] = []
  extension_list (x ∷ xs) = map py.strip (split_all 59 (x ∷ xs))

  unfoldable pub check_accept : Text → Dict Text Text → Option Text → Result HandshakeResult
  unfolding validate_accept extension_list get
  check_accept key headers none = err value_error
  check_accept key headers (some accept) =
      if validate_accept key accept
      then ok (record {
        status = 101;
        headers = headers;
        subprotocol = get headers (literal "sec-websocket-protocol");
        extensions = extension_list (or_empty (get headers (literal "sec-websocket-extensions")));
      })
      else err value_error

  -- The checks of the headers.
  unfoldable pub check_headers : Text → Dict Text Text → Result HandshakeResult
  unfolding check_accept is_in get
  check_headers key headers =
      let upgrade : Text = py.lower (or_empty (get headers (literal "upgrade"))) in
      let connection : Text = py.lower (or_empty (get headers (literal "connection"))) in
      if same_text upgrade (literal "websocket")
      then if is_in (literal "upgrade") connection
        then check_accept key headers (get headers (literal "sec-websocket-accept"))
        else err value_error
      else err value_error

  unfoldable pub check_status : Text → List Text → Option ℕ → Result HandshakeResult
  unfolding check_headers read_headers
  check_status key lines none = err value_error
  check_status key lines (some status) =
      if status == 101 then check_headers key (read_headers [] lines) else err value_error

  unfoldable pub check_part : Text → List Text → Option Text → Result HandshakeResult
  unfolding check_status
  check_part key lines none = err value_error
  check_part key lines (some part) = check_status key lines (py.to_int part)

  -- `split` gives one line at least.
  unfoldable pub check_lines : Text → List Text → Result HandshakeResult
  unfolding check_part status_part
  check_lines key [] = err value_error
  check_lines key (line ∷ lines) = check_part key lines (status_part line)

  unfoldable pub check_section : Text → Option Text → Result HandshakeResult
  unfolding check_lines split_lines
  check_section key none = err value_error
  check_section key (some section) = check_lines key (split_lines section)

  unfoldable pub decode_section : Option (List ℕ) → Option Text
  decode_section none = none
  decode_section (some octets) = py.decode octets

  unfoldable pub parse_response : Text → List ℕ → Result HandshakeResult
  unfolding check_section decode_section before_blank
  parse_response key response = check_section key (decode_section (before_blank response))
