-- ===== src/Transport/Tests.antt =====
-- The theorems about the way to the Agent at a concrete network.
use sokol_traefik_plugin.Prelude.{
  ◌+◌, ◌≤◌, ◌≡◌, refl, Bool, leb, arith, true, false, [], ◌∷◌, none, some, ◌==◌, bytes_eq,
  bytes_beq, if◌then◌else◌, length, take, drop, any, All,
}
use sokol_traefik_plugin.Text.{Bytes, codes, contains_byte, trim}
use sokol_traefik_plugin.Net.{Ip, to4, ip_equal}
use sokol_traefik_plugin.Net.Kinds.{is_loopback, is_private, is_link_local_unicast}
use sokol_traefik_plugin.Transport.{
  Network, connected, failed, refused, local_agent_ip, check_host, check_url,
  validate_agent_endpoint, dial_candidates, dial_name, dial_local_agent,
}
use sokol_traefik_plugin.Transport.Dialling.{IsLocalAddress, dial_local_agent-AllLocal}
use sokol_traefik_plugin.Transport.Timely.{IsDialer, ConnectsTo, dial_local_agent-ConnectsTo}

program : Unit {0}
unfolding bytes_beq take drop any contains_byte trim to4 ip_equal is_loopback is_private
    is_link_local_unicast local_agent_ip check_host check_url validate_agent_endpoint
    dial_candidates dial_name dial_local_agent
program = tt

-- A name with a public address, one that does not answer and one that does.
abbrev net : Network
net = record {
  parse_url = λ s. some (record {
    scheme = codes "http";
    has_user = false;
    host = codes "agent:8080";
    path = [];
    raw_query = [];
    fragment = [];
  });
  hostname = λ u. codes "agent";
  paths = record {
    is_abs = λ s. false;
    clean = λ s. s;
    abs = λ s. some s;
    join = λ r s. s;
    rel = λ r s. none;
  };
  parse_ip = λ s. none;
  split_address = λ s. some (codes "agent", codes "8080");
  lookup_ip = λ now s. (
    some ((8 ∷ 8 ∷ 8 ∷ 8 ∷ []) ∷ (10 ∷ 0 ∷ 0 ∷ 1 ∷ []) ∷ (172 ∷ 17 ∷ 0 ∷ 2 ∷ []) ∷ []),
    now + 20,
  );
  dial = λ now ip port.
      (if ip == (10 ∷ 0 ∷ 0 ∷ 1 ∷ []) then (false, now + 100) else (leb (now + 5) 500, now + 5));
}

dial_run :
    dial_local_agent net 0 (codes "agent:8080")
    ≡ (connected (172 ∷ 17 ∷ 0 ∷ 2 ∷ []), (10 ∷ 0 ∷ 0 ∷ 1 ∷ []) ∷ (172 ∷ 17 ∷ 0 ∷ 2 ∷ []) ∷ [])
unfolding program
dial_run = refl

-- The address that does not answer takes the time that is left, and the next gets none.
late_run :
    dial_local_agent net 450 (codes "agent:8080")
    ≡ (failed refused, (10 ∷ 0 ∷ 0 ∷ 1 ∷ []) ∷ (172 ∷ 17 ∷ 0 ∷ 2 ∷ []) ∷ [])
unfolding program
late_run = refl

dial_local_agent-AllLocal_example :
    All IsLocalAddress (dial_local_agent net 0 (codes "agent:8080")).1
    × (length (dial_local_agent net 0 (codes "agent:8080")).1 ≤ 16)
dial_local_agent-AllLocal_example = dial_local_agent-AllLocal net 0 (codes "agent:8080")

abbrev accepts : Ip → Bytes → Bool
accepts ip port = if ip == (10 ∷ 0 ∷ 0 ∷ 1 ∷ []) then false else true

net-IsDialer : IsDialer net 100 500 accepts
net-IsDialer = record {
  bounded = λ now ip port. ground arith;
  connects = λ now ip port open' soon. ground arith;
}

dial_local_agent-ConnectsTo_example :
    ConnectsTo
      (dial_local_agent net 0 (codes "agent:8080")).0
      ((8 ∷ 8 ∷ 8 ∷ 8 ∷ []) ∷ (10 ∷ 0 ∷ 0 ∷ 1 ∷ []) ∷ (172 ∷ 17 ∷ 0 ∷ 2 ∷ []) ∷ [])
unfolding program
dial_local_agent-ConnectsTo_example =
    dial_local_agent-ConnectsTo net 100 500 accepts net-IsDialer 0 (codes "agent:8080")
      (codes "agent") (codes "8080")
      ((8 ∷ 8 ∷ 8 ∷ 8 ∷ []) ∷ (10 ∷ 0 ∷ 0 ∷ 1 ∷ []) ∷ (172 ∷ 17 ∷ 0 ∷ 2 ∷ []) ∷ [])
      ((8 ∷ 8 ∷ 8 ∷ 8 ∷ []) ∷ (10 ∷ 0 ∷ 0 ∷ 1 ∷ []) ∷ []) [] (172 ∷ 17 ∷ 0 ∷ 2 ∷ []) refl refl refl
      refl refl refl (omega arith)
