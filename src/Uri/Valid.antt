-- ===== src/Uri/Valid.antt =====
-- What every URI that `parse_uri` gives satisfies.
use jetsocket.Prelude.{
  ℕ, ◌≤◌, ◌<◌, ◌≡◌, arith, true, ◌&&◌, Option, none, some, [], ◌∷◌, ltb, leb, if_either,
}
use jetsocket.Exceptions.{Result, ok, err}
use jetsocket.Uri.Texts.{Text}
use jetsocket.Uri.Defs.{
  Parsed, Scheme, WebSocketUri, or_none, or_slash, port_or_default, user_info, scheme_of, with_port,
  with_host, with_scheme, parse_uri,
}

abbrev IsFilled : Text → Type 0
IsFilled [] = ⊥
IsFilled (x ∷ xs) = Unit {0}

abbrev IsAbsentOrFilled : Option Text → Type 0
IsAbsentOrFilled none = Unit {0}
IsAbsentOrFilled (some text) = IsFilled text

abbrev pub IsValid : WebSocketUri → Type 0
IsValid uri =
    (IsFilled uri.host × IsFilled uri.path)
    × (((0 < uri.port) × (uri.port ≤ 65535))
        × (IsAbsentOrFilled uri.query
            × (IsAbsentOrFilled uri.fragment × IsAbsentOrFilled uri.userinfo)))

abbrev pub IsGood : Result WebSocketUri → Type 0
IsGood (ok uri) = IsValid uri
IsGood (err error) = Unit {0}

or_none-IsAbsentOrFilled : (text : Text) → IsAbsentOrFilled (or_none text)
or_none-IsAbsentOrFilled [] = tt
or_none-IsAbsentOrFilled (x ∷ xs) = tt

or_slash-IsFilled : (text : Text) → IsFilled (or_slash text)
or_slash-IsFilled [] = tt
or_slash-IsFilled (x ∷ xs) = tt

user_info-IsAbsentOrFilled :
    (username password : Option Text) → IsAbsentOrFilled (user_info username password)
unfolding user_info
user_info-IsAbsentOrFilled none password = tt
user_info-IsAbsentOrFilled (some []) password = tt
user_info-IsAbsentOrFilled (some (x ∷ xs)) none = tt
user_info-IsAbsentOrFilled (some (x ∷ xs)) (some []) = tt
user_info-IsAbsentOrFilled (some (x ∷ xs)) (some (y ∷ ys)) = tt

in_range : (port : ℕ) → (ltb 0 port && leb port 65535) ≡ true → (0 < port) × (port ≤ 65535)
in_range port h = ground arith

with_port-IsGood :
    (parsed : Parsed) (scheme : Scheme) (host : Text) (given : Result (Option ℕ))
    → IsFilled host
    → IsGood (with_port parsed scheme host given)
unfolding with_port
with_port-IsGood parsed scheme host (err error) h = tt
with_port-IsGood parsed scheme host (ok given) h =
    let port : ℕ = port_or_default scheme given in
    if_either IsGood (ltb 0 port && leb port 65535)
      (λ e. (
        (h, or_slash-IsFilled parsed.path),
        (
          in_range port e,
          (
            or_none-IsAbsentOrFilled parsed.query,
            (
              or_none-IsAbsentOrFilled parsed.fragment,
              user_info-IsAbsentOrFilled parsed.username parsed.password,
            ),
          ),
        ),
      ))
      (λ e. tt)

with_host-IsGood :
    (parsed : Parsed) (scheme : Scheme) (host : Option Text) → IsGood (with_host parsed scheme host)
unfolding with_host
with_host-IsGood parsed scheme none = tt
with_host-IsGood parsed scheme (some []) = tt
with_host-IsGood parsed scheme (some (x ∷ xs)) =
    with_port-IsGood parsed scheme (x ∷ xs) parsed.port tt

with_scheme-IsGood : (parsed : Parsed) (scheme : Option Scheme) → IsGood (with_scheme parsed scheme)
unfolding with_scheme
with_scheme-IsGood parsed none = tt
with_scheme-IsGood parsed (some scheme) = with_host-IsGood parsed scheme parsed.hostname

-- Whatever urlparse gives, a URI that `parse_uri` returns has a host and a path that are not empty and
-- a port from 1 to 65535, and its query, fragment and userinfo are absent or not empty.
pub parse_uri-IsGood : (parsed : Parsed) → IsGood (parse_uri parsed)
unfolding parse_uri
parse_uri-IsGood parsed = with_scheme-IsGood parsed (scheme_of parsed.scheme)
