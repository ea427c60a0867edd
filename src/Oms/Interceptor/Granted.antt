-- ===== src/Oms/Interceptor/Granted.antt =====
-- What the claims of a token must be for the interceptor of auth.go to let its user through.
use aipx.Prelude.{
  ℕ, ◌+◌, ◌≡◌, ◌≢◌, ◌↔◌, inl, inr, refl, sym, ap, ◌∙◌, String, str_eq, eq_iff, eq_refl, Bool, true,
  false, Option, none, some, arith, Bool-cases, Option-cases,
}
use aipx.Prelude.Int.{ℤ}
use aipx.Prelude.Text.{Text}
use aipx.Oms.Interceptor.Revocations.{Redis, is_member}
use aipx.Oms.Interceptor.{
  Claims, SigningMethod, AuthInterceptor, valid, CallEnv, is_before, is_after, is_some_after,
  clock_skew, is_value, check_times, is_user_blocked, says_so, check_jti, validate_claims,
}

-- The time claims of a token, as the clock stands.
pub record IsTimely (now : ℕ) (c : Claims) : Type 0 where
  pub expires : (e : ℤ) × (c.exp ≡ some e) × (is_before e now ≡ false)
  pub begun : (s : ℤ) → c.nbf ≡ some s → is_after s now ≡ false
  pub issued : (s : ℤ) → c.iat ≡ some s → is_after s (now + clock_skew) ≡ false

is_some_after_iff :
    (o : Option ℤ) (now : ℕ)
    → (is_some_after o now ≡ false) ↔ ((s : ℤ) → o ≡ some s → is_after s now ≡ false)
is_some_after_iff none now = (λ h s e. absurd cc, λ h. refl)
is_some_after_iff (some t) now = (λ h s e. cc, λ h. h t refl)

check_times_iff : (now : ℕ) (c : Claims) → (check_times now c ≡ none) ↔ IsTimely now c
unfolding check_times
check_times_iff now c = (
  elim (Option-cases c.exp) [
    | inl e ↦ rw (e, check_times) (λ h. absurd cc)
    | inr (t, e) ↦ elim (Bool-cases (is_before t now)) [
      | inl b ↦ rw (e, b, check_times) (λ h. absurd cc)
      | inr b ↦ elim (Bool-cases (is_some_after c.nbf now)) [
        | inl n ↦ rw (e, b, n, check_times) (λ h. absurd cc)
        | inr n ↦ elim (Bool-cases (is_some_after c.iat (now + clock_skew))) [
          | inl i ↦ rw (e, b, n, i, check_times) (λ h. absurd cc)
          | inr i ↦ λ h. record {
            expires = (t, e, b);
            begun = (is_some_after_iff c.nbf now).0 n;
            issued = (is_some_after_iff c.iat (now + clock_skew)).0 i;
          }
        ]
      ]
    ]
  ],
  λ h.
      let (t, e, b) = h.expires in
      let n = (is_some_after_iff c.nbf now).1 h.begun in
      let i = (is_some_after_iff c.iat (now + clock_skew)).1 h.issued in
      rw (e, check_times, b, n, i) refl,
)

check_jti_iff :
    (client : Option Redis) (up : Bool) (jti : Option String)
    → (check_jti client up jti ≡ false) ↔ (
        (r : Redis) (j : String)
        → client ≡ some r
        → up ≡ true
        → jti ≡ some j
        → j ≢ ""
        → is_member j r.revoked_tokens ≡ false)
check_jti_iff client up none = (λ h r j c u e. absurd cc, λ h. refl)
check_jti_iff none up (some j) = (λ h r k c u e. absurd cc, λ h. ground arith)
check_jti_iff (some r) false (some j) = (λ h r' k c u e. absurd cc, λ h. ground arith)
check_jti_iff (some r) true (some j) = elim (Bool-cases (str_eq j "")) [
  | inl e ↦ (
    λ h r' k c u same other. let t : j ≡ "" = (eq_iff j "").0 e in absurd (other cc),
    λ h. rw e refl,
  )
  | inr e ↦ (
    λ h r' k c u same other. let h' = rw e at h in cc,
    λ h. rw e (h r j refl refl refl (λ same. let t = rw (same, eq_refl "") at e in absurd cc)),
  )
]

says_so_iff :
    (client : Option Redis) (up : Bool) (user : String)
    → (says_so (is_user_blocked client up user) ≡ false)
      ↔ ((r : Redis) → client ≡ some r → up ≡ true → is_member user r.blocked_users ≡ false)
says_so_iff none up user = (λ h r e u. absurd cc, λ h. refl)
says_so_iff (some r) true user = (λ h r' e u. cc, λ h. h r refl refl)
says_so_iff (some r) false user = (λ h r' e u. absurd cc, λ h. refl)

is_value_iff : (o : Option String) (s : String) → (is_value o s ≡ true) ↔ (o ≡ some s)
is_value_iff none s = (λ h. absurd cc, λ h. absurd cc)
is_value_iff (some t) s = (λ h. ap some ((eq_iff t s).0 h), λ h. ground (arith, eq_iff t s))

module _ {K : Type 0} (parse : (SigningMethod → Option K) → Text → Option Claims) where
  -- What the claims of a token must be for a user to be let through.
  pub record IsGranted (i : AuthInterceptor K) (env : CallEnv) (user : String) (c : Claims)
      : Type 0 where
    pub timely : IsTimely env.now c
    pub issuer : c.iss ≡ some i.expected_iss
    pub audience : c.aud ≡ some i.expected_aud
    pub subject : (c.sub ≡ some user) × (user ≢ "")
    pub not_revoked :
        (r : Redis) (j : String)
        → i.redis_client ≡ some r
        → env.answers_revoked ≡ true
        → c.jti ≡ some j
        → j ≢ ""
        → is_member j r.revoked_tokens ≡ false
    pub not_blocked :
        (r : Redis)
        → i.redis_client ≡ some r
        → env.answers_blocked ≡ true
        → is_member user r.blocked_users ≡ false

  -- The part of a claim's tests that follows the subject.
  granted_subject :
      (i : AuthInterceptor K) (env : CallEnv) (user u : String) (c : Claims)
      → check_times env.now c ≡ none
      → is_value c.iss i.expected_iss ≡ true
      → is_value c.aud i.expected_aud ≡ true
      → c.sub ≡ some u
      → validate_claims parse i env c ≡ valid user
      → IsGranted i env user c
  unfolding validate_claims
  granted_subject i env user u c t b a s = elim (Bool-cases (str_eq u "")) [
    | inl e ↦ rw (t, validate_claims, b, a, s, e) (λ h. absurd cc)
    | inr e ↦ elim (Bool-cases (check_jti i.redis_client env.answers_revoked c.jti)) [
      | inl l ↦ rw (t, validate_claims, b, a, s, e, l) (λ h. absurd cc)
      | inr l ↦ elim (Bool-cases (says_so (is_user_blocked i.redis_client env.answers_blocked u))) [
        | inl k ↦ rw (t, validate_claims, b, a, s, e, l, k) (λ h. absurd cc)
        | inr k ↦ λ h.
            let h' = rw (t, validate_claims, b, a, s, e, l, k) at h in
            let same : u ≡ user = cc in
            record {
              timely = (check_times_iff env.now c).0 t;
              issuer = (is_value_iff c.iss i.expected_iss).0 b;
              audience = (is_value_iff c.aud i.expected_aud).0 a;
              subject = (s ∙ ap some same, ground (arith, eq_iff u ""));
              not_revoked = (check_jti_iff i.redis_client env.answers_revoked c.jti).0 l;
              not_blocked = rw (sym same) ((says_so_iff i.redis_client env.answers_blocked u).0 k);
            }
      ]
    ]
  ]

  pub granted :
      (i : AuthInterceptor K) (env : CallEnv) (user : String) (c : Claims)
      → validate_claims parse i env c ≡ valid user
      → IsGranted i env user c
  unfolding validate_claims
  granted i env user c = elim (Option-cases (check_times env.now c)) [
    | inr (x, t) ↦ rw (t, validate_claims) (λ h. absurd cc)
    | inl t ↦ elim (Bool-cases (is_value c.iss i.expected_iss)) [
      | inr b ↦ rw (t, validate_claims, b) (λ h. absurd cc)
      | inl b ↦ elim (Bool-cases (is_value c.aud i.expected_aud)) [
        | inr a ↦ rw (t, validate_claims, b, a) (λ h. absurd cc)
        | inl a ↦ elim (Option-cases c.sub) [
          | inl s ↦ rw (t, validate_claims, b, a, s) (λ h. absurd cc)
          | inr (u, s) ↦ granted_subject i env user u c t b a s
        ]
      ]
    ]
  ]

  pub claims_iff :
      (i : AuthInterceptor K) (env : CallEnv) (user : String) (c : Claims)
      → (validate_claims parse i env c ≡ valid user) ↔ IsGranted i env user c
  unfolding validate_claims
  claims_iff i env user c = (
    granted i env user c,
    λ h.
        let t = (check_times_iff env.now c).1 h.timely in
        let a = (is_value_iff c.aud i.expected_aud).1 h.audience in
        let b = (is_value_iff c.iss i.expected_iss).1 h.issuer in
        let (s, named) = h.subject in
        let l = (check_jti_iff i.redis_client env.answers_revoked c.jti).1 h.not_revoked in
        let k = (says_so_iff i.redis_client env.answers_blocked user).1 h.not_blocked in
        let e : str_eq user "" ≡ false = ground (arith, eq_iff user "") in
        rw (t, validate_claims, b, a, s, e, l, k) refl,
  )
