-- ===== src/Notification/Telegram/Escape.antt =====
-- What Telegram reads of a text that escapeTelegramMarkdown of telegram.go has escaped.
use aipx.Prelude.{
  ℕ, zero, suc, ◌<◌, Bool, true, false, Option, none, some, List, [], ◌∷◌, map, if◌then◌else◌, ◌==◌,
  ◌≡◌, refl, ap, arith, length, Bool-cases, inl, inr,
}
use aipx.Prelude.Text.{Text, codes}
use aipx.Notification.Telegram.{
  escape_chars, escape_html, is_one_of, escape_telegram_markdown, markdown_chars, markdown_v2_chars,
}

-- A character as Markdown reads it: escaped by a backslash, or bare.
pub record Token : Type 0 where
  pub escaped : Bool
  pub char : ℕ

abbrev pub tokens : Text → List Token
tokens [] = []
tokens (c ∷ []) = record { escaped = false; char = c } ∷ []
tokens (c ∷ d ∷ cs) =
    let plain = tokens (d ∷ cs) in
    let skipped = tokens cs in
    if c == b'\\'
    then record { escaped = true; char = d } ∷ skipped
    else record { escaped = false; char = c } ∷ plain

-- Each special character escaped, and no other.
abbrev pub marked : Text → Text → List Token
marked special t = map (λ c. record { escaped = is_one_of c special; char = c }) t

bare_token :
    (c : ℕ) (cs : Text)
    → (c == b'\\') ≡ false
    → tokens (c ∷ cs) ≡ record { escaped = false; char = c } ∷ tokens cs
bare_token c [] h = refl
bare_token c (d ∷ cs) h = rw h refl

escape_chars-tokens :
    (special t : Text)
    → is_one_of b'\\' special ≡ false
    → is_one_of b'\\' t ≡ false
    → tokens (escape_chars special t) ≡ marked special t
unfolding escape_chars is_one_of
escape_chars-tokens special [] none_special none_in = refl
escape_chars-tokens special (c ∷ cs) none_special none_in =
    let plain_head : (c == b'\\') ≡ false = ground arith in
    let plain_tail : is_one_of b'\\' cs ≡ false = ground arith in
    let rest = escape_chars-tokens special cs none_special plain_tail in
    elim (Bool-cases (is_one_of c special)) [
      | inl e ↦ rw e (rw rest refl)
      | inr e ↦ rw e (rw (bare_token c (escape_chars special cs) plain_head) (rw rest refl))
    ]

-- `&amp;`, `&lt;` and `&gt;` read back, with fuel for each character.
abbrev pub strip : Text → Text → Option Text
strip [] t = some t
strip (p ∷ ps) [] = none
strip (p ∷ ps) (c ∷ cs) = let rest = strip ps cs in if p == c then rest else none

abbrev pub read_entities : ℕ → Text → Text
read_entities zero t = []
read_entities (suc fuel) [] = []
read_entities (suc fuel) (c ∷ cs) =
    if c == b'&'
    then elim (strip (codes "amp;") cs) [
      | some rest ↦ b'&' ∷ read_entities fuel rest
      | none ↦ elim (strip (codes "lt;") cs) [
        | some rest ↦ b'<' ∷ read_entities fuel rest
        | none ↦ elim (strip (codes "gt;") cs) [
          | some rest ↦ b'>' ∷ read_entities fuel rest
          | none ↦ c ∷ read_entities fuel cs
        ]
      ]
    ]
    else c ∷ read_entities fuel cs

same_head : (c d : ℕ) (cs : Text) → (c == d) ≡ true → d ∷ cs ≡ c ∷ cs
same_head c d cs h = ap (λ x. x ∷ cs) (ground arith)

read_entities-escape_html :
    (t : Text) (fuel : ℕ) → length t < fuel → read_entities fuel (escape_html t) ≡ t
unfolding escape_html
read_entities-escape_html [] zero h = refl
read_entities-escape_html [] (suc fuel) h = refl
read_entities-escape_html (c ∷ cs) zero h = elim h [ ]
read_entities-escape_html (c ∷ cs) (suc fuel) h =
    let rest = read_entities-escape_html cs fuel (omega arith) in
    elim (Bool-cases (c == b'&')) [
      | inl e ↦ rw e (rw rest (same_head c b'&' cs e))
      | inr e ↦ rw e (elim (Bool-cases (c == b'<')) [
        | inl f ↦ rw f (rw rest (same_head c b'<' cs f))
        | inr f ↦ rw f (elim (Bool-cases (c == b'>')) [
          | inl g ↦ rw g (rw rest (same_head c b'>' cs g))
          | inr g ↦ rw g (rw e (rw rest refl))
        ])
      ])
    ]

-- A backslash of the text itself is read as the escape of the backslash that the replacer adds.
escape_chars_after_backslash :
    (special : Text) (c : ℕ) (t : Text)
    → is_one_of b'\\' special ≡ false
    → is_one_of c special ≡ true
    → tokens (escape_chars special (b'\\' ∷ c ∷ t))
      ≡ record { escaped = true; char = b'\\' }
        ∷ record { escaped = false; char = c }
        ∷ tokens (escape_chars special t)
unfolding escape_chars
escape_chars_after_backslash special c t none_special h = elim (Bool-cases (c == b'\\')) [
  | inl e ↦ let same : c ≡ b'\\' = ground arith in absurd (true_false (rw same at h) none_special)
  | inr e ↦ rw none_special (
      rw h (
        ap (λ x. record { escaped = true; char = b'\\' } ∷ x)
          (bare_token c (escape_chars special t) e)))
]
  where
    true_false : {b : Bool} → b ≡ true → b ≡ false → ⊥
    true_false h h' = cc

-- A text with no backslash, escaped for `Markdown` or `MarkdownV2`, is read as itself, with just
-- the characters escaped that the mode escapes; and a text escaped for `HTML` is read as itself,
-- whatever is in it. But a backslash before a special character undoes the escape in `MarkdownV2`:
-- that character is read bare.
pub escape_telegram_markdown_read :
    (t : Text)
    → (is_one_of b'\\' t ≡ false
        → (tokens (escape_telegram_markdown "Markdown" t) ≡ marked markdown_chars t)
          × (tokens (escape_telegram_markdown "MarkdownV2" t) ≡ marked markdown_v2_chars t))
      × (read_entities (suc (length t)) (escape_telegram_markdown "HTML" t) ≡ t)
      × ((c : ℕ)
          → is_one_of c markdown_v2_chars ≡ true
          → tokens (escape_telegram_markdown "MarkdownV2" (b'\\' ∷ c ∷ t))
            ≡ record { escaped = true; char = b'\\' }
              ∷ record { escaped = false; char = c }
              ∷ tokens (escape_telegram_markdown "MarkdownV2" t))
unfolding escape_telegram_markdown is_one_of
escape_telegram_markdown_read t = (
  λ h.
      (escape_chars-tokens markdown_chars t refl h, escape_chars-tokens markdown_v2_chars t refl h),
  read_entities-escape_html t (suc (length t)) (omega arith),
  λ c h. escape_chars_after_backslash markdown_v2_chars c t refl h,
)
