-- ===== src/Uri/Tests.antt =====
-- A URI with a port, a query and a user.
use jetsocket.Prelude.{◌≡◌, refl, none, some, []}
use jetsocket.Exceptions.{ok}
use jetsocket.Uri.Texts.{literal, decimal}
use jetsocket.Uri.Defs.{
  Parsed, wss, WebSocketUri, host_header, resource_name, to_text, user_info, with_port, with_host,
  with_scheme, parse_uri,
}

abbrev parsed : Parsed
parsed = record {
  scheme = literal "wss";
  hostname = some (literal "example.com");
  port = ok (some 8080);
  path = [];
  query = literal "token=abc";
  fragment = [];
  username = some (literal "me");
  password = none;
}

abbrev uri : WebSocketUri
uri = record {
  scheme = wss;
  host = literal "example.com";
  port = 8080;
  path = literal "/";
  query = some (literal "token=abc");
  fragment = none;
  userinfo = some (literal "me");
}

parses : parse_uri parsed ≡ ok uri
unfolding parse_uri with_scheme with_host with_port user_info
parses = refl

prints : to_text uri ≡ literal "wss://me@example.com:8080/?token=abc"
unfolding to_text host_header resource_name decimal
prints = refl
