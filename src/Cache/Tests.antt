-- ===== src/Cache/Tests.antt =====
-- The theorems about the decision cache at concrete inputs.
use sokol_traefik_plugin.Prelude.{
  ℕ, suc, ◌≡◌, refl, true, false, List, [], ◌∷◌, map, none, some, All, Any, arith, pos, bytes_beq,
  bytes_eq, int64,
}
use sokol_traefik_plugin.Prelude.GoMap.{lookup, insert, delete, has}
use sokol_traefik_plugin.Text.{Bytes, codes, to_lower, format_uint}
use sokol_traefik_plugin.Text.Order.{sort_by}
use sokol_traefik_plugin.Wire.{EvaluationRequest, EvaluationResponse, no_response}
use sokol_traefik_plugin.CacheKey.{evaluation_cache_key, cache_composite_key}
use sokol_traefik_plugin.Cache.{
  DecisionCacheEntry, DecisionCache, new_decision_cache, delete_entry, indexes, purge,
  forget_previous, evict, make_room, use_entry, get, put, store, refuses, advance, entry_of,
  time_to_live, oldest_from,
}
use sokol_traefik_plugin.Cache.Invariant.{IsValid}
use sokol_traefik_plugin.Cache.History.{Call, put_call, after, after-IsValid}
use sokol_traefik_plugin.Cache.Hits.{Explains, IsBelow, get-after-Explains, get-after_newest}
use sokol_traefik_plugin.Cache.Reads.{get-put}
use sokol_traefik_plugin.Cache.Confused.{get-put_moved}
use sokol_traefik_plugin.Cache.Eviction.{IsOldest, IsWithout, make_room-IsOldest}

program : Unit {0}
unfolding lookup insert delete has to_lower format_uint sort_by evaluation_cache_key
    cache_composite_key new_decision_cache delete_entry indexes purge forget_previous evict
    make_room use_entry get put store refuses advance entry_of time_to_live oldest_from bytes_beq
    after int64
program = tt

-- A digest for the tests: the text itself, without the NUL byte.
abbrev plain_digest : Bytes → Bytes
plain_digest = map suc

abbrev request : EvaluationRequest
request = record {
  request_id = codes "r1";
  client_ip = codes "192.0.2.1";
  client_ip_source = codes "direct";
  method = codes "GET";
  scheme = codes "https";
  host = codes "example.com";
  path = codes "/";
  query = [];
  headers = (codes "accept", codes "a") ∷ [];
  cookies = [];
  header_mode = [];
  cookie_mode = [];
  allowlisted_headers = [];
  allowlisted_cookies = [];
  headers_truncated = false;
  cookies_truncated = false;
  protocol_type = codes "http";
  http_version = codes "HTTP/1.1";
  body = [];
  body_truncated = false;
  resource_hint = [];
}

abbrev deny : EvaluationResponse
deny = record no_response {
  decision = codes "block";
  status = pos 403;
  request_id = codes "r1";
  public_reason = codes "waf";
  cache_ttl_ms = pos 1;
  cacheable = true;
  cache_key = codes "k";
  cache_key_scope = codes "request";
  decision_scope = codes "site";
  policy_revision = 7;
}

abbrev empty : DecisionCache
empty = new_decision_cache 1 5_000_000_000

abbrev calls : List Call
calls = put_call request deny 100 ∷ []

-- The decision is served until its millisecond is over, under the ID of the new request.
served :
    (get plain_digest (after plain_digest 1 5_000_000_000 calls) request (codes "r2") 1_000_099).1
    ≡ some (record deny { request_id = codes "r2" })
unfolding program
served = refl

expired :
    (get plain_digest (after plain_digest 1 5_000_000_000 calls) request (codes "r2") 1_000_100).1
    ≡ none
unfolding program
expired = refl

get-put_example :
    (get plain_digest (put plain_digest empty request deny 100) request (codes "r2") 900).1
    ≡ some (record deny { request_id = codes "r2" })
unfolding refuses new_decision_cache time_to_live bytes_beq int64
get-put_example =
    get-put plain_digest empty request deny 100 refl (omega arith) (omega arith) (codes "r2") 900
      (omega arith)

after-IsValid_example : IsValid (after plain_digest 1 5_000_000_000 calls)
after-IsValid_example = after-IsValid plain_digest 1 5_000_000_000 calls

get-after-Explains_example :
    Any
      (Explains plain_digest 5_000_000_000 request
        (codes "r2")
        900
        (record deny { request_id = codes "r2" }))
      calls
unfolding program
get-after-Explains_example =
    get-after-Explains plain_digest 1 5_000_000_000 calls request (codes "r2") 900
      (record deny { request_id = codes "r2" }) refl

get-after_newest_example : All (IsBelow 1 5_000_000_000 7) calls
unfolding program
get-after_newest_example =
    get-after_newest plain_digest 1 5_000_000_000 calls request (codes "r2") 900
      (record deny { request_id = codes "r2" }) refl

abbrev entry_at : ℕ → Bytes → DecisionCacheEntry
entry_at created_at key = record {
  response = deny;
  request_fingerprint = key;
  composite_key = key;
  expires_at = 900;
  created_at = created_at;
}

abbrev full : DecisionCache
full = record {
  entries = (codes "a", entry_at 30 (codes "a")) ∷ (codes "b", entry_at 20 (codes "b")) ∷ [];
  request_index = [];
  maximum_entries = 2;
  maximum_ttl = 900;
  latest_revision = 7;
}

make_room-IsOldest_example :
    (key : Bytes) × (least : ℕ) × IsOldest key least full.entries
    × IsWithout key full (make_room (codes "c") full)
unfolding lookup bytes_beq
make_room-IsOldest_example =
    make_room-IsOldest (codes "c") full (refl, (refl, tt)) ((λ e. cc), ((λ e. cc), tt)) refl
      (omega arith) (omega arith)

abbrev fields : List (Bytes × Bytes)
fields = (codes "a", codes "b") ∷ []

get-put_moved_example :
    (get plain_digest
      (put plain_digest empty (record request { headers = fields; cookies = [] }) deny 100)
      (record request { headers = []; cookies = fields })
      (codes "r2")
      900).1
    ≡ some (record deny { request_id = codes "r2" })
unfolding refuses new_decision_cache time_to_live bytes_beq int64
get-put_moved_example =
    get-put_moved plain_digest empty request fields deny 100 (codes "r2") 900 refl (omega arith)
      (omega arith) (omega arith)
