-- ===== src/Challenge/Granted.antt =====
-- Under what conditions a verification sets the trust cookie.
use sokol_traefik_plugin.Prelude.{
  ℕ, ◌≤◌, ◌<◌, ◌≡◌, ◌≢◌, inl, inr, refl, true, false, not, ◌||◌, List, [], some, ltb, ◌==◌, nat_eq,
  bytes_eq, int_eq, bytes_beq_iff, length, ℤ, pos, negsuc, ltb_ℤ, Bool-cases, arith,
}
use sokol_traefik_plugin.Net.{Ip, IpNet, Request}
use sokol_traefik_plugin.Agent.{AgentResult, ok, err}
use sokol_traefik_plugin.Challenge.{
  ChallengeVerifyRequest, ChallengeVerifyResponse, BrowserVerifyRequest, Submission, too_large,
  undecodable, decoded, Cookie, ChallengeEnv, trust_cookie, check_verified, agent_challenge_verify,
  valid_challenge_fields, conclude_verify, same_origin_submission, verify_request,
  verify_submission, challenge_verify,
}

-- The one cookie that may be set, for at most a week.
pub record IsTrustCookie (c : Cookie) : Type 0 where
  pub name : c.name ≡ trust_cookie
  pub value_given : c.value ≢ []
  pub value_short : length c.value ≤ 4096
  pub age : (seconds : ℕ) × (c.max_age ≡ pos seconds) × (0 < seconds) × (seconds ≤ 604_800)

-- The tests that a verified answer has passed.
check_verified_passed :
    (r output : ChallengeVerifyResponse)
    → check_verified (ok r) ≡ ok output
    → output.verified ≡ true
    → (ltb_ℤ output.cookie_max_age (pos 0) ≡ false)
      × (ltb_ℤ (pos 604_800) output.cookie_max_age ≡ false)
      × (ltb 4096 (length output.cookie_value) ≡ false)
      × (output.cookie_name == trust_cookie ≡ true)
      × (output.cookie_value == [] ≡ false)
      × (output.cookie_max_age == pos 0 ≡ false)
unfolding check_verified
check_verified_passed r output h v = ground arith

age_between :
    (a : ℤ)
    → ltb_ℤ a (pos 0) ≡ false
    → ltb_ℤ (pos 604_800) a ≡ false
    → a == pos 0 ≡ false
    → (seconds : ℕ) × (a ≡ pos seconds) × (0 < seconds) × (seconds ≤ 604_800)
age_between (pos n) h k z = (n, refl, ground arith, ground arith)
age_between (negsuc n) h k z = absurd (ground arith)

check_verified-IsTrustCookie :
    (answer : AgentResult ChallengeVerifyResponse) (output : ChallengeVerifyResponse)
    → check_verified answer ≡ ok output
    → output.verified ≡ true
    → IsTrustCookie (record {
      name = output.cookie_name;
      value = output.cookie_value;
      max_age = output.cookie_max_age;
    })
unfolding check_verified
check_verified-IsTrustCookie (err e) output h v = absurd (ground arith)
check_verified-IsTrustCookie (ok r) output h v =
    let (not_negative, at_most, short, named, given, not_zero) =
      check_verified_passed r output h v in
    record {
      name = (bytes_beq_iff output.cookie_name trust_cookie).0 named;
      value_given = λ e. ground (arith, given, bytes_beq_iff output.cookie_value []);
      value_short = ground arith;
      age = age_between output.cookie_max_age not_negative at_most not_zero;
    }

-- The Agent verified what the browser sent from a page of the same origin.
pub record IsGranted (env : ChallengeEnv) (trusted : List IpNet) (maximum : ℕ) (request : Request)
    (client_ip : Ip) (c : Cookie) : Type 0 where
  pub same_origin : same_origin_submission env trusted maximum request ≡ true
  pub input : BrowserVerifyRequest
  pub submitted : env.read_submission maximum request.body ≡ decoded input true
  pub fields :
      valid_challenge_fields input.challenge_token input.resource_id input.site_id input.path ≡ true
  pub output : ChallengeVerifyResponse
  pub answered :
      agent_challenge_verify env.verify_json env.verify_send
        (verify_request env trusted maximum request client_ip input)
      ≡ ok output
  pub verified : output.verified ≡ true
  pub trust : IsTrustCookie c

module _ (env : ChallengeEnv) (trusted : List IpNet) (maximum : ℕ) (request : Request)
    (client_ip : Ip) (c : Cookie) where
  conclude_verify_cookie :
      (input : ChallengeVerifyRequest) (answer : AgentResult ChallengeVerifyResponse)
      → (conclude_verify input answer).cookie ≡ some c
      → (output : ChallengeVerifyResponse) × (answer ≡ ok output)
        × (output.verified ≡ true)
        × (c ≡ record {
          name = output.cookie_name;
          value = output.cookie_value;
          max_age = output.cookie_max_age;
        })
  unfolding conclude_verify
  conclude_verify_cookie input (err e) h = absurd (ground arith)
  conclude_verify_cookie input (ok output) h = (output, refl, ground arith, ground arith)

  verify_submission-IsGranted :
      (submission : Submission)
      → same_origin_submission env trusted maximum request ≡ true
      → env.read_submission maximum request.body ≡ submission
      → (verify_submission env trusted maximum request client_ip submission).cookie ≡ some c
      → IsGranted env trusted maximum request client_ip c
  unfolding verify_submission agent_challenge_verify
  verify_submission-IsGranted too_large origin read h = absurd (ground arith)
  verify_submission-IsGranted undecodable origin read h = absurd (ground arith)
  verify_submission-IsGranted (decoded input at_end) origin read h =
      let refused =
        not at_end
        || not (
            valid_challenge_fields input.challenge_token input.resource_id input.site_id input.path)
        || ltb (length input.payload) 2
        || ltb maximum (length input.payload) in
      elim (Bool-cases refused) [
        | inl no_good ↦ absurd (ground arith)
        | inr good ↦
            let (output, answered, verified, same) =
              conclude_verify_cookie (verify_request env trusted maximum request client_ip input)
                (agent_challenge_verify env.verify_json env.verify_send
                  (verify_request env trusted maximum request client_ip input))
                (ground arith) in
            record {
              same_origin = origin;
              input = input;
              submitted = ground arith;
              fields = ground arith;
              output = output;
              answered = answered;
              verified = verified;
              trust = rw same (check_verified-IsTrustCookie _ output answered verified);
            }
      ]

  -- A verification sets a cookie only when the browser submitted it from a page of the same origin,
  -- whole and with valid fields, and the Agent verified it for the address of the client that the
  -- middleware found; and then it is the trust cookie, with a value of at most 4096 bytes, for at
  -- most a week.
  pub challenge_verify-IsGranted :
      (challenge_verify env trusted maximum request client_ip).cookie ≡ some c
      → IsGranted env trusted maximum request client_ip c
  unfolding challenge_verify
  challenge_verify-IsGranted h =
      elim (Bool-cases (same_origin_submission env trusted maximum request)) [
        | inl same ↦ verify_submission-IsGranted _ same refl (ground arith)
        | inr other ↦ absurd (ground arith)
      ]
