-- ===== src/Oms/Interceptor/Accepted.antt =====
-- Which calls the interceptor of auth.go lets through.
use aipx.Prelude.{
  ◌≡◌, ◌↔◌, inl, inr, refl, sym, ap, ◌∙◌, ◌++◌, String, true, false, Option, none, some, List, [],
  ◌∷◌, Option-cases,
}
use aipx.Prelude.Text.{Text, codes}
use aipx.Oms.Interceptor.{
  Claims, SigningMethod, AuthInterceptor, Validated, valid, invalid, Context, CallEnv, is_public,
  equal_fold, bearer_token, key_of, validate_token, intercept,
}
use aipx.Oms.Interceptor.Bearer.{bearer_token_iff}
use aipx.Oms.Interceptor.Granted.{IsGranted, granted, claims_iff}

module _ {K : Type 0} (parse : (SigningMethod → Option K) → Text → Option Claims) where
  -- An independent account of the calls that have a user.
  pub record IsAuthorized (i : AuthInterceptor K) (env : CallEnv) (ctx : Context) (user : String)
      : Type 0 where
    pub scheme : Text
    pub token : Text
    pub others : List Text
    pub claims : Claims
    pub has_header : ctx.authorization ≡ some ((scheme ++ b' ' ∷ token) ∷ others)
    pub is_bearer : equal_fold scheme (codes "bearer") ≡ true
    pub is_signed : parse (key_of parse i.jwt_secret) token ≡ some claims
    pub is_granted : IsGranted parse i env user claims

  validate_token_iff :
      (i : AuthInterceptor K) (env : CallEnv) (ctx : Context) (user : String)
      → (validate_token parse i env ctx ≡ valid user) ↔ IsAuthorized i env ctx user
  unfolding validate_token
  validate_token_iff i env ctx user = (go ctx.authorization refl, back)
    where
      go :
          (o : Option (List Text))
          → ctx.authorization ≡ o
          → validate_token parse i env ctx ≡ valid user
          → IsAuthorized i env ctx user
      go none e = rw (e, validate_token) (λ h. absurd cc)
      go (some []) e = rw (e, validate_token) (λ h. absurd cc)
      go (some (header ∷ others)) e = elim (Option-cases (bearer_token header)) [
        | inl b ↦ rw (e, validate_token, b) (λ h. absurd cc)
        | inr (token, b) ↦ elim (Option-cases (parse (key_of parse i.jwt_secret) token)) [
          | inl p ↦ rw (e, validate_token, b, p) (λ h. absurd cc)
          | inr (claims, p) ↦ λ h.
              let h' = rw (e, validate_token, b, p) at h in
              let (scheme, same, fold) = (bearer_token_iff header token).0 b in
              record {
                scheme = scheme;
                token = token;
                others = others;
                claims = claims;
                has_header = e ∙ ap (λ t. some (t ∷ others)) same;
                is_bearer = fold;
                is_signed = p;
                is_granted = granted parse i env user claims h';
              }
        ]
      ]

      back : IsAuthorized i env ctx user → validate_token parse i env ctx ≡ valid user
      back a =
          let b =
            (bearer_token_iff (a.scheme ++ b' ' ∷ a.token) a.token).1
              (a.scheme, refl, a.is_bearer) in
          let e = a.has_header in
          let p = a.is_signed in
          rw (e, validate_token, b, p) ((claims_iff parse i env user a.claims).1 a.is_granted)

  -- A call of a method that is not public reaches its handler exactly where it carries a token that
  -- the key function's secret verifies, after a scheme that is `bearer` in any case, whose claims
  -- are timely, are of the expected issuer and audience, and name a user that is not the empty
  -- text; neither that user nor the token, unless its id is the empty text, may be on the list of
  -- Redis, where there is a Redis and it answers. The handler then sees that user.
  pub intercept_iff :
      (i : AuthInterceptor K) (env : CallEnv) (full_method : String) (ctx seen : Context)
      → is_public full_method ≡ false
      → (intercept parse i env full_method ctx ≡ (none, some seen)) ↔ (
          (user : String) × IsAuthorized i env ctx user
          × (seen ≡ record ctx { user_id = some user }))
  unfolding intercept
  intercept_iff i env full_method ctx seen guarded =
      (go (validate_token parse i env ctx) refl, back)
    where
      go :
          (v : Validated)
          → validate_token parse i env ctx ≡ v
          → intercept parse i env full_method ctx ≡ (none, some seen)
          → (user : String) × IsAuthorized i env ctx user
            × (seen ≡ record ctx { user_id = some user })
      go (invalid x) e = λ h. let h' = rw (guarded, intercept, e) at h in absurd cc
      go (valid user) e = λ h.
          let h' = rw (guarded, intercept, e) at h in
          (user, (validate_token_iff i env ctx user).0 e, cc)

      back :
          ((user : String) × IsAuthorized i env ctx user
            × (seen ≡ record ctx { user_id = some user }))
          → intercept parse i env full_method ctx ≡ (none, some seen)
      back (user, a, same) =
          let e = (validate_token_iff i env ctx user).1 a in
          rw (guarded, intercept, e) (ap (λ c. (none, some c)) (sym same))
