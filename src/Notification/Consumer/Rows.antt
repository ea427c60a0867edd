-- ===== src/Notification/Consumer/Rows.antt =====
-- What notification_consumer.go leaves in the history.
use aipx.Prelude.{
  ℕ, String, List, [], ◌∷◌, ◌++◌, ◌≡◌, refl, ap, sym, ◌∙◌, map, append_assoc, append-nil,
  if◌then◌else◌, Bool-cases, inl, inr,
}
use aipx.Prelude.Dict.{Dict}
use aipx.Prelude.Text.{Text}
use aipx.Notification.Consumer.{Preference, World, History, Progress, is_target, notify, notify_all}

-- What a row says of the notification, but for its payload.
pub record Row : Type 0 where
  pub user_id : String
  pub channel : String
  pub event_type : String
  pub title : Text
  pub message : Text

abbrev pub row_of : History → Row
row_of h = record {
  user_id = h.user_id;
  channel = h.channel;
  event_type = h.event_type;
  title = h.title;
  message = h.message;
}

abbrev pub targets : List String → List Preference → List Preference
targets available [] = []
targets available (p ∷ ps) =
    if is_target available p then p ∷ targets available ps else targets available ps

map-append {ℓ κ} :
    {A : Type ℓ} {B : Type κ} (f : A → B) (xs ys : List A) → map f (xs ++ ys) ≡ map f xs ++ map f ys
map-append f [] ys = refl
map-append f (x ∷ xs) ys = ap (λ l. f x ∷ l) (map-append f xs ys)

abbrev pub expected : String → String → Text → Text → Preference → Row
expected user_id event_type title message pref = record {
  user_id = user_id;
  channel = pref.channel;
  event_type = event_type;
  title = title;
  message = message;
}

module _ {S E : Type 0} (world : World S E) (available : List String) (now : ℕ)
    (user_id event_type : String) (title message : Text) where
  pub notify_all_rows :
      (prefs : List Preference) (p : Progress S)
      → map row_of (notify_all world available now user_id event_type title message prefs p).history
        ≡ map row_of p.history
          ++ map (expected user_id event_type title message) (targets available prefs)
  unfolding notify_all
  notify_all_rows [] p = sym (append-nil (map row_of p.history))
  notify_all_rows (pref ∷ prefs) p = elim (Bool-cases (is_target available pref)) [
    | inl e ↦
        let q = notify world available now user_id event_type title message pref p in
        rw e (
          notify_all_rows prefs q
          ∙ (ap
                (λ l.
                  l ++ map (expected user_id event_type title message) (targets available prefs))
                (map-append row_of p.history _)
              ∙ append_assoc (map row_of p.history)
                  (expected user_id event_type title message pref ∷ [])
                  (map (expected user_id event_type title message) (targets available prefs))))
    | inr e ↦ rw e (notify_all_rows prefs p)
  ]
