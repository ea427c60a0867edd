-- ===== src/Oms/Server/Callers.antt =====
-- As whom a call runs that goes through the chain of server.go.
use aipx.Prelude.{
  ◌≡◌, refl, String, str_eq, Option, none, some, List, [], ◌∷◌, Bool-cases, inl, inr, if◌then◌else◌,
}
use aipx.Oms.Server.{
  Metadata, StreamContext, StatusError, metadata_not_found, invalid_token, Ended, returned,
  StreamHandler, first_or_empty, recovered, validate_token, serve,
}

-- The user of a call, or what the call is refused with.
pub data Caller : Type 0 where
  runs_as : String → Caller
  refused : StatusError → Caller

abbrev pub token_caller : List String → String → Caller
token_caller [] named = runs_as named
token_caller (token ∷ _) named =
    if str_eq token "" then refused invalid_token else runs_as "user-123"

abbrev pub caller : Option Metadata → Caller
caller none = refused metadata_not_found
caller (some md) = token_caller md.authorization (first_or_empty md.user_id)

-- How the call of a caller ends.
abbrev pub run_as : String → StreamHandler → StreamContext → Caller → Ended
run_as request_id handler ctx (refused e) = returned (some e)
run_as request_id handler ctx (runs_as user) =
    recovered (handler (record ctx { request_id_key = some request_id; user_id_key = some user }))

-- A call through the whole chain ends as its caller's call of the handler does, with the ids of the
-- request and the user in the context, where a panic becomes an error; or it is refused. The caller
-- is the user named in the metadata where no token comes with it, one fixed user where a token that
-- is not the empty text does, and none with an empty token or without metadata.
pub serve-caller :
    (request_id : String) (handler : StreamHandler) (ctx : StreamContext)
    → serve request_id handler ctx ≡ run_as request_id handler ctx (caller ctx.metadata)
unfolding serve validate_token
serve-caller request_id handler ctx = go ctx.metadata refl
  where
    go :
        (m : Option Metadata)
        → ctx.metadata ≡ m
        → serve request_id handler ctx ≡ run_as request_id handler ctx (caller ctx.metadata)
    go none e = simp (e, serve) refl
    go (some md) e = with_tokens md.authorization refl
      where
        with_tokens :
            (tokens : List String)
            → md.authorization ≡ tokens
            → serve request_id handler ctx ≡ run_as request_id handler ctx (caller ctx.metadata)
        with_tokens [] a = simp (e, serve, a) refl
        with_tokens (token ∷ tokens) a = elim (Bool-cases (str_eq token "")) [
          | inl b ↦ simp (e, serve, a, validate_token, b) refl
          | inr b ↦ simp (e, serve, a, validate_token, b) refl
        ]
