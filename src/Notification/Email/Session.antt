-- ===== src/Notification/Email/Session.antt =====
-- What sendEmail of email.go asks of the SMTP server, and when.
use aipx.Prelude.{
  ℕ, suc, String, Bool, true, false, ◌||◌, none, List, [], ◌∷◌, ◌++◌, ◌≡◌, refl, ap, sym, ◌∙◌,
  arith, Bool-cases, inl, inr, append_assoc, append-nil,
}
use aipx.Notification.Email.Privacy.{is_private, front_of, front_private}
use aipx.Notification.Email.{
  EmailConfig, EmailMessage, Command, rcpt, start_data, write_data, close_data, rcpts, tls_commands,
  start_tls_commands, run_commands, send_email,
}

-- The recipients that the server has taken, and whether the mail was written.
abbrev pub taken : Command → List String
taken (rcpt to) = to ∷ []
taken _ = []

abbrev pub accepted : List Command → List String
accepted [] = []
accepted (c ∷ cs) = taken c ++ accepted cs

abbrev pub is_write : Command → Bool
is_write write_data = true
is_write _ = false

abbrev pub has_written : List Command → Bool
has_written [] = false
has_written (c ∷ cs) = is_write c || has_written cs

-- What was done is a beginning of the commands, and all of them where none failed.
run_commands_all :
    (server : ℕ → Bool) (i : ℕ) (cs : List Command)
    → (run_commands server i cs).1 ≡ none
    → (run_commands server i cs).0 ≡ cs
unfolding run_commands
run_commands_all server i [] = λ h. refl
run_commands_all server i (c ∷ cs) = elim (Bool-cases (server i)) [
  | inl e ↦ rw (e, run_commands) (λ h. ap (λ x. c ∷ x) (run_commands_all server (suc i) cs h))
  | inr e ↦ rw (e, run_commands) (λ h. cc)
]

run_true :
    (server : ℕ → Bool) (i : ℕ) (c : Command) (cs : List Command)
    → server i ≡ true
    → (run_commands server i (c ∷ cs)).0 ≡ c ∷ (run_commands server (suc i) cs).0
unfolding run_commands
run_true server i c cs e = rw (e, run_commands) refl

run_false :
    (server : ℕ → Bool) (i : ℕ) (c : Command) (cs : List Command)
    → server i ≡ false
    → (run_commands server i (c ∷ cs)).0 ≡ []
unfolding run_commands
run_false server i c cs e = rw (e, run_commands) refl

-- Where the mail was written, the commands `pre` in front of it were all done.
run_past :
    (server : ℕ → Bool) (i : ℕ) (pre cs : List Command)
    → has_written pre ≡ false
    → has_written (run_commands server i (pre ++ cs)).0 ≡ true
    → (j : ℕ) × ((run_commands server i (pre ++ cs)).0 ≡ pre ++ (run_commands server j cs).0)
run_past server i [] cs unwritten h = (i, refl)
run_past server i (c ∷ pre) cs unwritten h = elim (Bool-cases (server i)) [
  | inl e ↦
      let done = run_true server i c (pre ++ cs) e in
      let h' = rw done at h in
      let (j, same) = run_past server (suc i) pre cs (ground arith) (ground arith) in
      (j, done ∙ ap (λ x. c ∷ x) same)
  | inr e ↦ let h' = rw (run_false server i c (pre ++ cs) e) at h in absurd (ground arith)
]

accepted-append : (xs ys : List Command) → accepted (xs ++ ys) ≡ accepted xs ++ accepted ys
accepted-append [] ys = refl
accepted-append (x ∷ xs) ys =
    rw (accepted-append xs ys) (sym (append_assoc (taken x) (accepted xs) (accepted ys)))

has_written-append :
    (xs ys : List Command) → has_written (xs ++ ys) ≡ (has_written xs || has_written ys)
has_written-append [] ys = refl
has_written-append (x ∷ xs) ys = ground (arith, has_written-append xs ys)

accepted-rcpts : (rs : List String) → accepted (rcpts rs) ≡ rs
accepted-rcpts [] = refl
accepted-rcpts (r ∷ rs) = ap (λ x. r ∷ x) (accepted-rcpts rs)

has_written-rcpts : (rs : List String) → has_written (rcpts rs) ≡ false
has_written-rcpts [] = refl
has_written-rcpts (r ∷ rs) = has_written-rcpts rs

abbrev ending : List Command
ending = start_data ∷ write_data ∷ close_data ∷ []

-- After the recipients nothing more is accepted.
accepted_ending : (server : ℕ → Bool) (i : ℕ) → accepted (run_commands server i ending).0 ≡ []
unfolding run_commands
accepted_ending server i = ground arith

written_accepted :
    (server : ℕ → Bool) (front : List Command) (rs : List String)
    → has_written front ≡ false
    → accepted front ≡ []
    → has_written (run_commands server 0 (front ++ (rcpts rs ++ ending))).0 ≡ true
    → accepted (run_commands server 0 (front ++ (rcpts rs ++ ending))).0 ≡ rs
written_accepted server front rs unwritten none_yet =
    rw (sym (append_assoc front (rcpts rs) ending)) (λ h.
      let quiet : has_written (front ++ rcpts rs) ≡ false =
        rw (has_written-append front (rcpts rs), unwritten, has_written-rcpts rs) refl in
      let (j, same) = run_past server 0 (front ++ rcpts rs) ending quiet h in
      rw
        (
          same,
          accepted-append (front ++ rcpts rs) (run_commands server j ending).0,
          accepted_ending server j,
          accepted-append front (rcpts rs),
          none_yet,
          accepted-rcpts rs,
        )
        (append-nil rs))

send_email_commands :
    (config : EmailConfig) (server : ℕ → Bool) (msg : EmailMessage)
    → send_email config server msg
      ≡ run_commands server 0 (front_of config ++ (rcpts ((msg.to ++ msg.cc) ++ msg.bcc) ++ ending))
unfolding send_email tls_commands start_tls_commands
send_email_commands config server msg = ground arith

front_unwritten : (config : EmailConfig) → has_written (front_of config) ≡ false
front_unwritten config = ground arith

front_accepts : (config : EmailConfig) → accepted (front_of config) ≡ []
front_accepts config = ground arith

all_written :
    (config : EmailConfig) (rs : List String)
    → has_written (front_of config ++ (rcpts rs ++ ending)) ≡ true
all_written config rs =
    rw (has_written-append (front_of config) (rcpts rs ++ ending), front_unwritten config)
      (rw (has_written-append (rcpts rs) ending, has_written-rcpts rs) refl)

-- In one session of `sendEmail`, whatever the server refuses: with UseTLS or UseStartTLS, neither
-- the account nor anything of the mail is said before TLS has begun; the mail is written only where
-- the server has taken every recipient, in the order To, Cc, Bcc; and no error is reported only
-- where the mail was written.
pub send_email_session :
    (config : EmailConfig) (server : ℕ → Bool) (msg : EmailMessage)
    → ((config.use_tls || config.use_start_tls) ≡ true
        → is_private false (send_email config server msg).0 ≡ true)
      × (has_written (send_email config server msg).0 ≡ true
          → accepted (send_email config server msg).0 ≡ (msg.to ++ msg.cc) ++ msg.bcc)
      × ((send_email config server msg).1 ≡ none
          → has_written (send_email config server msg).0 ≡ true)
send_email_session config server msg =
    let rs = (msg.to ++ msg.cc) ++ msg.bcc in
    let whole = front_of config ++ (rcpts rs ++ ending) in
    rw (send_email_commands config server msg) (
      front_private config server (rcpts rs ++ ending),
      written_accepted server (front_of config) rs (front_unwritten config) (front_accepts config),
      λ h. rw (run_commands_all server 0 whole h) (all_written config rs),
    )
