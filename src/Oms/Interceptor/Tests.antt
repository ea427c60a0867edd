-- ===== src/Oms/Interceptor/Tests.antt =====
-- The interceptor and the revocations at concrete inputs.
use aipx.Prelude.{
  eq_iff, str_eq, ℕ, ◌≡◌, ◌≢◌, ◌↔◌, refl, String, true, false, Option, none, some, List, [], ◌∷◌,
  ◌*◌,
}
use aipx.Prelude.Int.{pos}
use aipx.Prelude.Text.{Text, codes}
use aipx.Prelude.Dict.{lookup}
use aipx.Oms.Interceptor.Revocations.{
  Redis, lives, is_member, add_member, sadd_revoked, set_key, revoke_token, Cleaning, cleanup_one,
}
use aipx.Oms.Interceptor.{
  Claims, SigningMethod, AuthInterceptor, Context, CallEnv, intercept, token_revoked,
}
use aipx.Oms.Interceptor.Accepted.{IsAuthorized, intercept_iff}
use aipx.Oms.Interceptor.Revoked.{
  Event, revoke, clean, run, IsRevokedIn, revoked_stays, revocation_is_lost,
}

abbrev nothing : Redis
nothing = record { revoked_tokens = []; blocked_users = []; revoked_keys = [] }

abbrev alice : Claims
alice = record {
  exp = some (pos 100);
  nbf = none;
  iat = some (pos 10);
  iss = some "aipx";
  aud = some "oms";
  sub = some "alice";
  jti = some "t1";
}

-- Every token is alice's, where the key function gives the secret 7 for HS256.
abbrev parse_abc : (SigningMethod → Option ℕ) → Text → Option Claims
parse_abc key t = elim (key (record { is_hmac = true; alg = "HS256" })) [
  | none ↦ none
  | some k ↦ some alice
]

abbrev guard : Redis → AuthInterceptor ℕ
guard r = record {
  jwt_secret = 7;
  expected_iss = "aipx";
  expected_aud = "oms";
  redis_client = some r;
}

abbrev env : CallEnv
env = record { now = 20 * 1000000000; answers_revoked = true; answers_blocked = true }

abbrev place_order : Context
place_order = record { authorization = some (codes "BEARER abc" ∷ []); user_id = none }

abbrev seen : Context
seen = record place_order { user_id = some "alice" }

intercept_alice :
    intercept parse_abc (guard nothing) env "/oms/Place" place_order ≡ (none, some seen)
unfolding intercept is_member
intercept_alice = refl

intercept_revoked :
    intercept parse_abc (guard (sadd_revoked "t1" nothing)) env "/oms/Place" place_order
    ≡ (some token_revoked, none)
unfolding intercept is_member add_member
intercept_revoked = refl

intercept_iff_example :
    (intercept parse_abc (guard nothing) env "/oms/Place" place_order ≡ (none, some seen)) ↔ (
      (user : String) × IsAuthorized parse_abc (guard nothing) env place_order user
      × (seen ≡ record place_order { user_id = some user }))
intercept_iff_example =
    intercept_iff parse_abc (guard nothing) env "/oms/Place" place_order seen refl

-- Another token is revoked, and a cleanup runs, in the lifetime of the key of the first.
abbrev later_events : List (ℕ × Event)
later_events = (10, revoke true true "t2" 5) ∷ (20, clean true (λ i. true) (λ i. true)) ∷ []

other : (j k : String) → str_eq j k ≡ false → j ≢ k
other j k e same = let t = (eq_iff j k).1 same in absurd cc

revoked_stays_example :
    IsRevokedIn "t1"
      (some 150)
      (run 100 later_events (revoke_token true true 100 "t1" 50 (some nothing)).1)
revoked_stays_example =
    revoked_stays 100 "t1" 50 nothing later_events (other "t1" "t2" refl, tt) refl

abbrev racing : Cleaning
racing = record {
  lists = true;
  checks = λ i. true;
  removes = λ i. true;
  meanwhile = λ i. set_key 100 "t1" 50;
}

revocation_is_lost_example :
    (revoke_token true true 100 "t1" 50 (some nothing)
      ≡ (true, some (racing.meanwhile 0 (sadd_revoked "t1" nothing))))
    × (is_member "t1" (cleanup_one racing 100 0 "t1" (sadd_revoked "t1" nothing)).revoked_tokens
        ≡ false)
    × (lives 100
          (lookup "t1" (cleanup_one racing 100 0 "t1" (sadd_revoked "t1" nothing)).revoked_keys)
        ≡ true)
unfolding lookup
revocation_is_lost_example = revocation_is_lost racing 100 0 "t1" 50 nothing refl refl refl refl
