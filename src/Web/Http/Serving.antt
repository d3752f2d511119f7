-- ===== src/Web/Http/Serving.antt =====
-- The handlers of src/web-ui-client/handlers.cpp, their table in main.cpp, the default one of
-- webserver.cpp, and `ClientHandler::Serve`.
pub mod Responds
use Prim.Native.String.{String}
use angry_balls.Base.{ℕ, List, [], ◌∷◌, ◌++◌, Bool, Option, none, some, if◌then◌else◌}
use angry_balls.Bytes.{Bytes}
use angry_balls.Double.{Double}
use angry_balls.Protocol.{field_state_message}
use angry_balls.Protocol.Build.{build_json_message}
use angry_balls.Protocol.Json.{Json}
use angry_balls.Web.Http.{text, bytes_eq}
use angry_balls.Web.Http.Message.{
  HttpRequest, HttpResponse, http_header, parsed, throws, running, parse_request, serialize,
}
use angry_balls.Web.Request.{Read, request, error, out_of_range, waiting, read_http_request}
use angry_balls.Web.Response.{Sent, Response, send_http_response}
use angry_balls.Web.Viewer.{Viewer, get_field}

abbrev pub Handler : Type 0
Handler = HttpRequest → HttpResponse

-- `IndexHandler`, `JqueryHandler`, `AppJsHandler` and the end of `FileHandler`: a content with its type.
unfoldable pub content_handler : Bytes → Bytes → Handler
unfolding http_header
content_handler contents content_type req = record {
  version = req.version;
  status_code = 200;
  status_message = text "OK";
  headers = http_header (text "content-type") content_type ∷ [];
  response_body = contents;
}

-- `FileHandler`, of what the file holds, or `none` if it cannot be opened. Then `length` is -1 as a `size_t`
-- and `resize` throws, which is `none`.
unfoldable pub file_handler : Option Bytes → Bytes → HttpRequest → Option HttpResponse
file_handler none content_type req = none
file_handler (some contents) content_type req = some (content_handler contents content_type req)

-- `WebServer::DefaultHttpHandler`.
unfoldable pub default_http_handler : Handler
unfolding http_header
default_http_handler req = record {
  version = req.version;
  status_code = 404;
  status_message = text "Not found";
  headers = http_header (text "Content-Type") (text "text/plain; charset=utf-8") ∷ [];
  response_body = text "Requested path: " ++ (req.url.absolute_path ++ text " was not found");
}

-- The contents that the build makes of the scripts and pages, and those of the files of the same names,
-- which are there.
pub record Contents : Type 0 where
  pub index_html : Bytes
  pub jquery_js : Bytes
  pub app_js : Bytes

module _ {N V : Type 0} ⦃d : Double N⦄ (j : Json N V) where
  -- `GameStateHandler`.
  unfoldable pub game_state_handler : (String → Bytes) → Viewer N → Handler
  unfolding content_handler get_field
  game_state_handler bytes_of client =
      let (field, have_field) = get_field client in
      let body =
        if have_field
        then bytes_of (build_json_message j (field_state_message field))
        else text "null" in
      content_handler body (text "application/json; charset=utf-8")

  -- The table of `main`, in which `find` looks for a path.
  unfoldable pub url_handler :
      (String → Bytes) → Contents → Contents → Bool → Viewer N → Bytes → Option Handler
  unfolding game_state_handler
  url_handler bytes_of generated files developer_mode client path =
      let page : Contents = if developer_mode then files else generated in
      let html : Bytes =
        if developer_mode then text "text/html" else text "text/html; charset=utf-8" in
      let script : Bytes =
        if developer_mode then text "text/javascript" else text "text/javascript; charset=utf-8" in
      if bytes_eq path (text "/")
      then some (content_handler page.index_html html)
      else if bytes_eq path (text "/jquery.js")
      then some (content_handler page.jquery_js script)
      else if bytes_eq path (text "/app.js")
      then some (content_handler page.app_js script)
      else if bytes_eq path (text "/game_state")
      then some (game_state_handler bytes_of client)
      else none

-- How `Serve` ends: the request is not read, an exception leaves it, it is still at work, or it has
-- sent its response as `SendHttpResponse` says.
pub data Served : Type 0 where
  not_read thrown busy : Served
  responded : Response → Served

-- The handler that the table has for a path, or the default one.
abbrev pub handler_for : (Bytes → Option Handler) → Bytes → Handler
handler_for url_handlers path = elim (url_handlers path) [
  | none ↦ default_http_handler
  | some handler ↦ handler
]

abbrev pub response_to : (Bytes → Option Handler) → HttpRequest → HttpResponse
response_to url_handlers r = handler_for url_handlers r.url.absolute_path r

unfoldable pub serve :
    (Bytes → Option ℕ) → (ℕ → Bytes) → (Bytes → Option Handler) → List Read → List Sent → Served
serve stoul decimal url_handlers reads sends = elim (read_http_request reads) [
  | error ↦ not_read
  | out_of_range ↦ thrown
  | waiting result dfa ↦ busy
  | request body ↦ elim (parse_request stoul body) [
    | throws ↦ thrown
    | running ↦ busy
    | parsed r ↦
        responded (send_http_response (serialize decimal (response_to url_handlers r)) sends)
  ]
]
