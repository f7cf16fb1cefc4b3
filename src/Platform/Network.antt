-- ===== src/Platform/Network.antt =====
-- A network with one server behind a base URL. It fills the parameter `HttpClient`, so that what a
-- client of one service sends is what the server of another handles. The part of a URL behind the
-- base URL is taken for the path as it stands: it is one for ids without '?', '#' and '%'.
use Prim.Native.Char.{code}
use Prim.Native.String
use Prim.Native.String.{String, len, slice}
use package.text.Mathlib.Text.{starts_with}
use package.text.Mathlib.TextPositions.{starts_with-append, len-append, slice-append_right}
use psr_pl.Base.{refl, ◌≡◌, ◌≢◌, [], if◌then◌else◌}
use psr_pl.Go.{Result, ok, Exec, text}
use psr_pl.Http.{Payload, Request, HttpResponse, HttpClient}
use psr_pl.Web.{Incoming, Response, Handler, IsPlain}

-- The text needs no percent escapes in a URL's path, and has none.
abbrev pub IsVerbatim : String → Type 0
IsVerbatim String.[] = Unit
IsVerbatim (String.◌∷◌ c s) = (code c ≢ b'%') × (code c ≢ b'?') × (code c ≢ b'#') × IsVerbatim s

-- An id that stands in a path as it is, such as a UUID.
pub record IsPathId (id : String) : Type 0 where
  pub plain : IsPlain id
  pub verbatim : IsVerbatim id

-- What the server gets of a request.
abbrev pub incoming : String → Request → Incoming
incoming base_url r = record {
  method = r.method;
  path = slice r.url (len base_url) (len r.url);
  headers = r.headers;
  payload = r.payload;
  request_id = "";
}

module _ {S : Type 0} (base_url : String) (server : Handler S) where
  abbrev pub received : Response × S → Result HttpResponse × S
  received (r, s) = (ok (record { status = r.status; payload = r.payload }), s)

  unfoldable pub deliver : Request → Exec S HttpResponse
  deliver r s =
      if starts_with r.url base_url
      then received (server (incoming base_url r) [] s)
      else (Result.err (text "no such host"), s)

  -- The client of `net/http` on this network, with an encoder of JSON.
  unfoldable pub http_client : (Payload → Result String) → HttpClient S
  http_client encode = record { encode = encode; new_request = λ method url. ok tt; send = deliver }

-- What the server behind the base URL gets of a request for a path.
abbrev pub for_path : Request → String → Incoming
for_path r path = record {
  method = r.method;
  path = path;
  headers = r.headers;
  payload = r.payload;
  request_id = "";
}

pub deliver-append :
    {S : Type 0} (base_url path : String) (server : Handler S) (r : Request) (s : S)
    → r.url ≡ String.◌++◌ base_url path
    → deliver base_url server r s ≡ received base_url server (server (for_path r path) [] s)
unfolding deliver
deliver-append base_url path server r s e =
    rw
      (
        e,
        starts_with-append base_url path,
        len-append base_url path,
        slice-append_right base_url path,
      )
      refl
