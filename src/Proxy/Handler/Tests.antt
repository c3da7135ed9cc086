-- ===== src/Proxy/Handler/Tests.antt =====
-- Runs of one exchange of the proxy.
use cachy.Proxy.Paths.{join_path}
use cachy.Proxy.Headers.{
  copy_headers_with_policy, copy_request_headers, canonical_from, is_token_byte, canonical_key,
  values, header_get,
}
use cachy.Base.{◌≡◌, refl, true, false, [], ◌∷◌}
use cachy.Text.{trim_left, trim_right, equal, has_prefix, codes}
use cachy.Text.Ascii.{upper_byte, to_lower, plain_tables}
use cachy.Http.{Request}
use cachy.Proxy.Handler.{Url, upstream_request, upstream_url, is_event_stream}

abbrev target : Url
target = record {
  scheme = codes "https";
  host = codes "host";
  path = codes "/api/";
  raw_query = [];
}

abbrev request : Request
request = record {
  method = codes "GET";
  path = codes "/v1/models";
  raw_query = codes "n=1";
  headers = [];
  body = [];
}

upstream_request_run : upstream_request plain_tables target false request ≡ record {
  method = codes "GET";
  url = record {
    scheme = codes "https";
    host = codes "host";
    path = codes "/api/v1/models";
    raw_query = codes "n=1";
  };
  host = codes "host";
  headers = [];
  body = [];
}
unfolding upstream_request upstream_url join_path copy_request_headers trim_right
    copy_headers_with_policy equal trim_left
upstream_request_run = refl

is_event_stream_run :
    is_event_stream plain_tables target false
      ((codes "Content-Type", codes "text/event-stream" ∷ []) ∷ [])
    ≡ true
unfolding is_event_stream has_prefix to_lower header_get values equal canonical_key is_token_byte
    canonical_from upper_byte
is_event_stream_run = refl
