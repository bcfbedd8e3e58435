-- ===== src/CacheKey/Tests.antt =====
-- The theorems about the cache keys at concrete inputs.
use sokol_traefik_plugin.Prelude.{◌≡◌, ◌≢◌, ◌⊎◌, refl, false, [], arith}
use sokol_traefik_plugin.Text.{Bytes, codes}
use sokol_traefik_plugin.Wire.{EvaluationRequest}
use sokol_traefik_plugin.CacheKey.{evaluation_cache_key, hashed}
use sokol_traefik_plugin.CacheKey.Fields.{SameTarget, IsNulFree, evaluation_cache_key-SameTarget}

abbrev plain_digest : Bytes → Bytes
plain_digest s = s

abbrev request : EvaluationRequest
request = record {
  request_id = codes "r1";
  client_ip = codes "192.0.2.1";
  client_ip_source = codes "direct";
  method = codes "GET";
  scheme = codes "https";
  host = codes "h";
  path = codes "/";
  query = [];
  headers = [];
  cookies = [];
  header_mode = [];
  cookie_mode = [];
  allowlisted_headers = [];
  allowlisted_cookies = [];
  headers_truncated = false;
  cookies_truncated = false;
  protocol_type = codes "http";
  http_version = codes "HTTP/1.1";
  body = [];
  body_truncated = false;
  resource_hint = [];
}

abbrev again : EvaluationRequest
again = record request { request_id = codes "r2" }

request-IsNulFree : IsNulFree request
request-IsNulFree = omega arith

again-IsNulFree : IsNulFree again
again-IsNulFree = omega arith

evaluation_cache_key-SameTarget_example :
    SameTarget request again
    ⊎ ((hashed plain_digest request ≢ hashed plain_digest again)
        × (plain_digest (hashed plain_digest request) ≡ plain_digest (hashed plain_digest again)))
unfolding evaluation_cache_key
evaluation_cache_key-SameTarget_example =
    evaluation_cache_key-SameTarget plain_digest request again request-IsNulFree again-IsNulFree
      refl
