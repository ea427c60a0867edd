-- ===== src/Notification/Rendered.antt =====
-- services/notification-service/internal/consumer/notification_consumer.go: the two parts of a
-- rendered template.
use aipx.Prelude.{
  Bool, true, false, Option, none, some, [], ◌∷◌, ◌++◌, ◌≡◌, ◌⊎◌, refl, ap, arith, Bool-cases,
  Option-cases, inl, inr, ◌==◌, if◌then◌else◌,
}
use aipx.Prelude.Text.{Text}

-- `parseRenderedTemplate`, on the bytes from the first on; none where no newline follows.
unfoldable pub split_line : Text → Option (Text × Text)
split_line [] = none
split_line (b ∷ bs) = elim (split_line bs) [
  | none ↦ if b == b'\n' then some ([], bs) else none
  | some (line, rest) ↦ if b == b'\n' then some ([], bs) else some (b ∷ line, rest)
]

unfoldable pub parse_rendered_template : Text → Text × Text
unfolding split_line
parse_rendered_template rendered = elim (split_line rendered) [
  | none ↦ (rendered, rendered)
  | some (title, message) ↦ (title, message)
]

abbrev pub has_newline : Text → Bool
has_newline [] = false
has_newline (b ∷ bs) = if b == b'\n' then true else has_newline bs

-- A line up to a newline, and what follows.
split_line_read :
    (t : Text)
    → ((split_line t ≡ none) × (has_newline t ≡ false))
      ⊎ ((line : Text) × (rest : Text) × (split_line t ≡ some (line, rest))
          × (has_newline line ≡ false)
          × (line ++ b'\n' ∷ rest ≡ t))
unfolding split_line
split_line_read [] = inl (refl, refl)
split_line_read (b ∷ bs) = elim (Bool-cases (b == b'\n')) [
  | inl e ↦
      let here : b'\n' ≡ b = ground arith in inr ([], bs, found bs e, refl, ap (λ x. x ∷ bs) here)
  | inr e ↦ elim (split_line_read bs) [
    | inl (h, h') ↦ inl (rw (h, split_line) (rw e refl), rw e h')
    | inr (line, rest, h, h', h'') ↦
        inr (b ∷ line, rest, rw (h, split_line) (rw e refl), rw e h', ap (λ x. b ∷ x) h'')
  ]
]
  where
    found : (bs : Text) → (b == b'\n') ≡ true → split_line (b ∷ bs) ≡ some ([], bs)
    found bs e = elim (Option-cases (split_line bs)) [
      | inl f ↦ rw (f, split_line) (rw e refl)
      | inr (x, f) ↦ rw (f, split_line) (rw e refl)
    ]

-- `parseRenderedTemplate` gives a title with no newline in it; and either the two parts, with a
-- newline between them, are the rendered text, or that has no newline and both parts are all of it.
pub parse_rendered_template_parts :
    (t : Text)
    → let parts = parse_rendered_template t in
      (has_newline parts.0 ≡ false)
      × ((parts.0 ++ b'\n' ∷ parts.1 ≡ t) ⊎ ((parts.0 ≡ t) × (parts.1 ≡ t)))
unfolding parse_rendered_template
parse_rendered_template_parts t = elim (split_line_read t) [
  | inl (h, h') ↦ rw (h, parse_rendered_template) (h', inr (refl, refl))
  | inr (line, rest, h, h', h'') ↦ rw (h, parse_rendered_template) (h', inl h'')
]
