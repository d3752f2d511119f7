-- ===== src/Web/Http/Url.antt =====
-- `Url::Parse` of src/web-ui-client/http.cpp.
use angry_balls.Base.{ℕ, ◌+◌, ◌%◌, ◌^◌, [], ◌∷◌, Option, some, length, ◌==◌, if◌then◌else◌}
use angry_balls.Bytes.{Bytes}
use angry_balls.Web.Http.{◌>>=◌, npos, size_t, text, find, substr}

pub record Url : Type 0 where
  pub scheme : Bytes
  pub host : Bytes
  pub port : ℕ
  pub absolute_path : Bytes
  pub query : Bytes

abbrev pub or_root : Bytes → Bytes
or_root [] = text "/"
or_root (b ∷ bs) = b ∷ bs

-- The end of `Parse`, from the path and the query on.
unfoldable pub split_query : Bytes → Bytes → ℕ → Bytes → Option Url
split_query scheme host port path_and_query =
    let query_separator_pos = find (text "?") path_and_query 0 in
    let whole : Option Url = some (record {
      scheme = scheme;
      host = host;
      port = port;
      absolute_path = path_and_query;
      query = [];
    }) in
    let split : Option Url = do
      absolute_path ← substr path_and_query 0 query_separator_pos
      query ← substr path_and_query (size_t (query_separator_pos + 1)) npos
      some (record {
        scheme = scheme;
        host = host;
        port = port;
        absolute_path = absolute_path;
        query = query;
      })
    in if query_separator_pos == npos then whole else split

-- `std::stoul`, `none` where it throws.
module _ (stoul : Bytes → Option ℕ) where
  -- The host and the port of an authority; `port` is an `unsigned`.
  unfoldable pub parse_authority : Bytes → Option (Bytes × ℕ)
  parse_authority authority =
      let port_separator_pos = find (text ":") authority 0 in
      let split : Option (Bytes × ℕ) = do
        host ← substr authority 0 port_separator_pos
        digits ← substr authority (size_t (port_separator_pos + 1)) npos
        port ← stoul digits
        some (host, port % 2 ^ 32)
      in if port_separator_pos == npos then some (authority, 0) else split

  -- `Parse`; `none` is an exception. The second argument of the `substr` that makes the authority is a
  -- position, where a length is asked for.
  unfoldable pub parse_url : Bytes → Option Url
  unfolding split_query parse_authority
  parse_url url_string =
      let scheme_separator_pos = find (text "://") url_string 0 in
      let authority_start = size_t (scheme_separator_pos + 3) in
      let slash = find (text "/") url_string authority_start in
      let authority_separator_pos = if slash == npos then length url_string else slash in
      let absolute : Option Url = do
        scheme ← substr url_string 0 scheme_separator_pos
        path_and_query ← substr url_string authority_separator_pos npos
        authority ← substr url_string authority_start authority_separator_pos
        (host, port) ← parse_authority authority
        split_query scheme host port (or_root path_and_query)
      in if scheme_separator_pos == npos then split_query [] [] 0 (or_root url_string) else absolute
