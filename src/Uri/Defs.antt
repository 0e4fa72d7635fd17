-- ===== src/Uri/Defs.antt =====
-- `WebSocketURI` and `parse_uri` of jetsocket/transport/uri.py. What urllib's urlparse gives is an
-- argument.
use jetsocket.Prelude.{
  ℕ, Bool, true, false, ◌&&◌, Option, none, some, [], ◌∷◌, ◌++◌, ltb, leb, ◌==◌, if◌then◌else◌,
}
use jetsocket.Exceptions.{value_error, Result, ok, err}
use jetsocket.Uri.Texts.{Text, literal, same_text, decimal}

-- The attributes of urlparse's result that the code reads. Its `port` raises ValueError where the
-- URI's port is no number up to 65535.
pub record Parsed : Type 0 where
  pub scheme : Text
  pub hostname : Option Text
  pub port : Result (Option ℕ)
  pub path : Text
  pub query : Text
  pub fragment : Text
  pub username : Option Text
  pub password : Option Text

pub data Scheme : Type 0 where
  ws wss : Scheme

pub record WebSocketUri : Type 0 where
  pub scheme : Scheme
  pub host : Text
  pub port : ℕ
  pub path : Text
  pub query : Option Text
  pub fragment : Option Text
  pub userinfo : Option Text

abbrev pub is_secure : WebSocketUri → Bool
is_secure uri = elim uri.scheme [ wss ↦ true | ws ↦ false ]

abbrev pub default_port : Bool → ℕ
default_port secure = if secure then 443 else 80

-- f"{host}:{port}", without a port that is the default.
unfoldable pub host_header : WebSocketUri → Text
host_header uri =
    if uri.port == default_port (is_secure uri)
    then uri.host
    else uri.host ++ literal ":" ++ decimal uri.port

unfoldable pub origin : WebSocketUri → Text
origin uri =
    (if is_secure uri then literal "https" else literal "http")
    ++ literal "://"
    ++ (if uri.port == default_port (is_secure uri)
        then uri.host
        else uri.host ++ literal ":" ++ decimal uri.port)

-- An optional text that is there and not empty.
abbrev pub after : Text → Option Text → Text
after mark none = []
after mark (some []) = []
after mark (some (x ∷ xs)) = mark ++ x ∷ xs

abbrev pub before : Option Text → Text → Text
before none mark = []
before (some []) mark = []
before (some (x ∷ xs)) mark = (x ∷ xs) ++ mark

unfoldable pub resource_name : WebSocketUri → Text
resource_name uri = uri.path ++ after (literal "?") uri.query

abbrev scheme_text : Scheme → Text
scheme_text ws = literal "ws"
scheme_text wss = literal "wss"

-- __str__
unfoldable pub to_text : WebSocketUri → Text
to_text uri =
    scheme_text uri.scheme
    ++ literal "://"
    ++ before uri.userinfo (literal "@")
    ++ host_header uri
    ++ resource_name uri
    ++ after (literal "#") uri.fragment

unfoldable pub with_path : WebSocketUri → Text → WebSocketUri
with_path uri path = record {
  scheme = uri.scheme;
  host = uri.host;
  port = uri.port;
  path = path;
  query = uri.query;
  fragment = uri.fragment;
  userinfo = uri.userinfo;
}

unfoldable pub with_query : WebSocketUri → Option Text → WebSocketUri
with_query uri query = record {
  scheme = uri.scheme;
  host = uri.host;
  port = uri.port;
  path = uri.path;
  query = query;
  fragment = uri.fragment;
  userinfo = uri.userinfo;
}

-- text or None
abbrev pub or_none : Text → Option Text
or_none [] = none
or_none (x ∷ xs) = some (x ∷ xs)

abbrev pub or_slash : Text → Text
or_slash [] = literal "/"
or_slash (x ∷ xs) = x ∷ xs

unfoldable pub user_info : Option Text → Option Text → Option Text
user_info none password = none
user_info (some []) password = none
user_info (some (x ∷ xs)) none = some (x ∷ xs)
user_info (some (x ∷ xs)) (some []) = some (x ∷ xs)
user_info (some (x ∷ xs)) (some (y ∷ ys)) = some ((x ∷ xs) ++ literal ":" ++ y ∷ ys)

abbrev pub scheme_of : Text → Option Scheme
scheme_of text =
    if same_text text (literal "wss")
    then some wss
    else if same_text text (literal "ws")
    then some ws
    else none

abbrev pub secure_scheme : Scheme → Bool
secure_scheme ws = false
secure_scheme wss = true

abbrev pub port_or_default : Scheme → Option ℕ → ℕ
port_or_default scheme none = default_port (secure_scheme scheme)
port_or_default scheme (some port) = port

unfoldable pub with_port : Parsed → Scheme → Text → Result (Option ℕ) → Result WebSocketUri
with_port parsed scheme host (err error) = err error
with_port parsed scheme host (ok given) =
    let port : ℕ = port_or_default scheme given in
    if ltb 0 port && leb port 65535
    then ok (record {
      scheme = scheme;
      host = host;
      port = port;
      path = or_slash parsed.path;
      query = or_none parsed.query;
      fragment = or_none parsed.fragment;
      userinfo = user_info parsed.username parsed.password;
    })
    else err value_error

unfoldable pub with_host : Parsed → Scheme → Option Text → Result WebSocketUri
with_host parsed scheme none = err value_error
with_host parsed scheme (some []) = err value_error
with_host parsed scheme (some (x ∷ xs)) = with_port parsed scheme (x ∷ xs) parsed.port

unfoldable pub with_scheme : Parsed → Option Scheme → Result WebSocketUri
with_scheme parsed none = err value_error
with_scheme parsed (some scheme) = with_host parsed scheme parsed.hostname

unfoldable pub parse_uri : Parsed → Result WebSocketUri
parse_uri parsed = with_scheme parsed (scheme_of parsed.scheme)
