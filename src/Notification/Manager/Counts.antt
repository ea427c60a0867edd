-- ===== src/Notification/Manager/Counts.antt =====
-- What the goroutines of manager.go come to together, in whatever order they run.
use aipx.Prelude.{ℕ, ◌+◌, Option, none, some, List, [], ◌∷◌, ◌++◌, ◌≡◌, refl, ap, sym, ◌∙◌, arith}
use aipx.Notification.Manager.Sends.{
  Action, add_sent, add_failed, add_success, bump_successes, bump_failures, put_error, Sends,
  perform, Step, act, done, Reach, here, next,
}

-- `k` added to a counter that is there.
abbrev pub raise : ℕ → Option ℕ → Option ℕ
raise k none = none
raise k (some n) = some (k + n)

raise_add : (j k : ℕ) (o : Option ℕ) → raise (j + k) o ≡ raise k (raise j o)
raise_add j k none = refl
raise_add j k (some n) = ap some (omega arith)

raise_zero : (o : Option ℕ) → raise 0 o ≡ o
raise_zero none = refl
raise_zero (some n) = ap some (omega arith)

raise_combine :
    {t u : ℕ} {x : Option ℕ} (left k : ℕ) (y : Option ℕ)
    → t ≡ left
    → x ≡ raise k y
    → u ≡ k + left
    → raise t x ≡ raise u y
raise_combine left k y e f g = rw (e, f, g) (sym (raise_add k left y))

module _ {E : Type 0} where
  pub perform_tasks : (a : Action E) (s : Sends E) → (perform a s).tasks ≡ s.tasks
  perform_tasks add_sent s = refl
  perform_tasks add_failed s = refl
  perform_tasks add_success s = refl
  perform_tasks (bump_successes name) s = refl
  perform_tasks (bump_failures name) s = refl
  perform_tasks (put_error name e) s = refl

  abbrev pub total_task : (Action E → ℕ) → List (Action E) → ℕ
  total_task w [] = 0
  total_task w (a ∷ rest) = w a + total_task w rest

  -- The weight of what is left to do.
  abbrev pub total : (Action E → ℕ) → List (List (Action E)) → ℕ
  total w [] = 0
  total w (t ∷ ts) = total_task w t + total w ts

  total_act :
      (w : Action E → ℕ) (before after : List (List (Action E))) (a : Action E)
      (rest : List (Action E))
      → total w (before ++ (a ∷ rest) ∷ after) ≡ w a + total w (before ++ rest ∷ after)
  total_act w [] after a rest = omega arith
  total_act w (t ∷ ts) after a rest = omega (arith, total_act w ts after a rest)

  total_finished :
      (w : Action E → ℕ) (before after : List (List (Action E)))
      → total w (before ++ [] ∷ after) ≡ total w (before ++ after)
  total_finished w [] after = omega arith
  total_finished w (t ∷ ts) after = omega (arith, total_finished w ts after)

  -- A counter to which each action adds its weight ends with the weight of all the actions.
  module _ (w : Action E → ℕ) (counter : Sends E → Option ℕ)
      (adds : (a : Action E) (s : Sends E) (ts : List (List (Action E)))
        → counter (perform a (record s { tasks = ts })) ≡ raise (w a) (counter s))
      (keeps : (s : Sends E) (ts : List (List (Action E)))
        → counter (record s { tasks = ts }) ≡ counter s) where
    Step-total :
        {s t : Sends E}
        → Step s t
        → raise (total w t.tasks) (counter t) ≡ raise (total w s.tasks) (counter s)
    Step-total (act s before after a rest e) =
        let left = before ++ rest ∷ after in
        raise_combine (total w left) (w a) (counter s)
          (ap (total w) (perform_tasks a (record s { tasks = left }))) (adds a s left)
          (ap (total w) e ∙ total_act w before after a rest)
    Step-total (done s before after e) =
        raise_combine (total w (before ++ after)) 0 (counter s) refl
          (keeps s (before ++ after) ∙ sym (raise_zero (counter s)))
          (ap (total w) e ∙ omega (arith, total_finished w before after))

    Reach-total :
        (s : Sends E) {t : Sends E}
        → Reach s t
        → raise (total w t.tasks) (counter t) ≡ raise (total w s.tasks) (counter s)
    Reach-total s here = refl
    Reach-total s (next r step) = Step-total step ∙ Reach-total s r

    pub done_total :
        (s t : Sends E) → Reach s t → t.tasks ≡ [] → counter t ≡ raise (total w s.tasks) (counter s)
    done_total s t r d =
        sym (raise_zero (counter t))
        ∙ (ap (λ ts. raise (total w ts) (counter t)) (sym d) ∙ Reach-total s r)
