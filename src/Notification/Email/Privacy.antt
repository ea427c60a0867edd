-- ===== src/Notification/Email/Privacy.antt =====
-- What is said to the SMTP server before and after TLS begins (email.go).
use aipx.Prelude.{
  ℕ, suc, Bool, true, false, ◌&&◌, ◌||◌, List, [], ◌∷◌, ◌++◌, ◌≡◌, refl, ◌∙◌, Bool-cases, inl, inr,
  if◌then◌else◌,
}
use aipx.Notification.Email.{
  EmailConfig, Command, dial, tls_dial, new_client, hello, start_tls, mail, authentication,
  run_commands,
}

-- The commands that say nothing of the account or of the mail, and those of them that begin TLS.
abbrev pub is_quiet : Command → Bool
is_quiet dial = true
is_quiet tls_dial = true
is_quiet new_client = true
is_quiet hello = true
is_quiet start_tls = true
is_quiet _ = false

abbrev pub begins_tls : Command → Bool
begins_tls tls_dial = true
begins_tls start_tls = true
begins_tls _ = false

-- Whether nothing of the account or of the mail is said outside of TLS; the flag tells whether TLS
-- has begun.
abbrev pub is_private : Bool → List Command → Bool
is_private secure [] = true
is_private secure (c ∷ cs) = (secure || is_quiet c) && is_private (secure || begins_tls c) cs

is_private_secure : (cs : List Command) → is_private true cs ≡ true
is_private_secure [] = refl
is_private_secure (c ∷ cs) = is_private_secure cs

-- A session that starts with TLS.
tls_private :
    (server : ℕ → Bool) (i : ℕ) (cs : List Command)
    → is_private false (run_commands server i (tls_dial ∷ cs)).0 ≡ true
unfolding run_commands
tls_private server i cs = elim (Bool-cases (server i)) [
  | inl e ↦ rw (e, run_commands) (is_private_secure (run_commands server (suc i) cs).0)
  | inr e ↦ rw (e, run_commands) refl
]

-- A first command that says nothing.
quiet_private :
    (server : ℕ → Bool) (i : ℕ) (c : Command) (cs : List Command)
    → ((ds : List Command) → is_private false (c ∷ ds) ≡ is_private false ds)
    → is_private false (run_commands server (suc i) cs).0 ≡ true
    → is_private false (run_commands server i (c ∷ cs)).0 ≡ true
unfolding run_commands
quiet_private server i c cs quiet h = elim (Bool-cases (server i)) [
  | inl e ↦ rw (e, run_commands) (quiet (run_commands server (suc i) cs).0 ∙ h)
  | inr e ↦ rw (e, run_commands) refl
]

start_tls_first :
    (server : ℕ → Bool) (i : ℕ) (cs : List Command)
    → is_private false (run_commands server i (start_tls ∷ cs)).0 ≡ true
unfolding run_commands
start_tls_first server i cs = elim (Bool-cases (server i)) [
  | inl e ↦ rw (e, run_commands) (is_private_secure (run_commands server (suc i) cs).0)
  | inr e ↦ rw (e, run_commands) refl
]

-- What comes in front of the recipients.
abbrev pub front_of : EmailConfig → List Command
front_of config =
    (if config.use_tls
      then tls_dial ∷ new_client ∷ []
      else dial ∷ hello ∷ (if config.use_start_tls then start_tls ∷ [] else []))
    ++ (authentication config ++ mail config.from_email ∷ [])

pub front_private :
    (config : EmailConfig) (server : ℕ → Bool) (cs : List Command)
    → (config.use_tls || config.use_start_tls) ≡ true
    → is_private false (run_commands server 0 (front_of config ++ cs)).0 ≡ true
front_private config server cs = elim (Bool-cases config.use_tls) [
  | inl e ↦ rw e (λ h. tls_private server 0 _)
  | inr e ↦ rw e (λ starts. rw starts (
      quiet_private server 0 dial _ (λ ds. refl)
        (quiet_private server 1 hello _ (λ ds. refl) (start_tls_first server 2 _))))
]
