-- ===== src/Oms/Interceptor/Revoked.antt =====
-- What becomes of a revocation, on the revoked tokens of auth.go.
use aipx.Prelude.{
  ℕ, zero, suc, ◌+◌, ◌≤◌, ◌≡◌, ◌≢◌, inl, inr, refl, sym, ap, ◌∙◌, String, eq_iff, eq_refl, Bool,
  true, false, Option, none, some, List, [], ◌∷◌, arith, Bool-cases,
}
use aipx.Prelude.Dict.{lookup, lookup-insert, lookup-insert_self}
use aipx.Oms.Interceptor.Revocations.{
  Redis, is_member, add_member, lives, end_of, sadd_revoked, set_key, srem_revoked, revoke_token,
  Cleaning, cleanup_one, cleanup_loop, cleanup_expired_tokens,
}
use aipx.Oms.Interceptor.Members.{member-add_member, member-remove_member, member-remove_self}

-- The token is on the list, and its key ends then.
pub record IsRevoked (jti : String) (ending : Option ℕ) (r : Redis) : Type 0 where
  listed : is_member jti r.revoked_tokens ≡ true
  keyed : lookup jti r.revoked_keys ≡ some ending

-- What can happen to the lists after a revocation, each as a whole: another revocation, a cleanup.
pub data Event : Type 0 where
  revoke : (adds sets : Bool) → String → ℕ → Event
  clean : Bool → (checks removes : ℕ → Bool) → Event

abbrev cleaning : Bool → (ℕ → Bool) → (ℕ → Bool) → Cleaning
cleaning lists checks removes = record {
  lists = lists;
  checks = checks;
  removes = removes;
  meanwhile = λ i r. r;
}

happen : ℕ → Event → Option Redis → Option Redis
unfolding revoke_token cleanup_expired_tokens
happen now (revoke adds sets jti d) r = (revoke_token adds sets now jti d r).1
happen now (clean lists checks removes) r =
    cleanup_expired_tokens (cleaning lists checks removes) now r

-- Each event after its wait.
pub run : ℕ → List (ℕ × Event) → Option Redis → Option Redis
unfolding happen
run now [] r = r
run now (e ∷ es) r = run (now + e.0) es (happen (now + e.0) e.1 r)

-- The time at the end.
abbrev pub end_time : ℕ → List (ℕ × Event) → ℕ
end_time now [] = now
end_time now (e ∷ es) = end_time (now + e.0) es

abbrev pub IsOther : String → List (ℕ × Event) → Type 0
IsOther jti [] = Unit
IsOther jti ((wait, revoke adds sets k d) ∷ es) = (jti ≢ k) × IsOther jti es
IsOther jti ((wait, clean lists checks removes) ∷ es) = IsOther jti es

abbrev pub IsRevokedIn : String → Option ℕ → Option Redis → Type 0
IsRevokedIn jti ending none = false ≡ true
IsRevokedIn jti ending (some r) = IsRevoked jti ending r

lives_before :
    (ending : Option ℕ) (now later : ℕ)
    → now ≤ later
    → lives later (some ending) ≡ true
    → lives now (some ending) ≡ true
lives_before none now later le h = refl
lives_before (some t) now later le h = ground arith

module _ (jti : String) (ending : Option ℕ) where
  set_key-IsRevoked :
      (now : ℕ) (k : String) (d : ℕ) (r : Redis)
      → jti ≢ k
      → IsRevoked jti ending r
      → IsRevoked jti ending (set_key now k d r)
  set_key-IsRevoked now k d r other h = record {
    listed = h.listed;
    keyed =
        ground (arith, lookup-insert jti k (end_of now d) r.revoked_keys, eq_iff jti k, h.keyed);
  }

  sadd_revoked-IsRevoked :
      (k : String) (r : Redis) → IsRevoked jti ending r → IsRevoked jti ending (sadd_revoked k r)
  sadd_revoked-IsRevoked k r h = record {
    listed = ground (arith, member-add_member jti k r.revoked_tokens, h.listed);
    keyed = h.keyed;
  }

  revoke_token-IsRevoked :
      (adds sets : Bool) (now : ℕ) (k : String) (d : ℕ) (r : Option Redis)
      → jti ≢ k
      → IsRevokedIn jti ending r
      → IsRevokedIn jti ending (revoke_token adds sets now k d r).1
  unfolding revoke_token
  revoke_token-IsRevoked adds sets now k d none other h = absurd cc
  revoke_token-IsRevoked false sets now k d (some r) other h = h
  revoke_token-IsRevoked true false now k d (some r) other h = sadd_revoked-IsRevoked k r h
  revoke_token-IsRevoked true true now k d (some r) other h =
      set_key-IsRevoked now k d (sadd_revoked k r) other (sadd_revoked-IsRevoked k r h)

  module _ (now : ℕ) (alive : lives now (some ending) ≡ true) (lists : Bool)
      (checks removes : ℕ → Bool) where
    cleanup_one-IsRevoked :
        (i : ℕ) (k : String) (r : Redis)
        → IsRevoked jti ending r
        → IsRevoked jti ending (cleanup_one (cleaning lists checks removes) now i k r)
    unfolding cleanup_one
    cleanup_one-IsRevoked i k r h = elim (Bool-cases (checks i)) [
      | inr c ↦ rw (cleanup_one, c) h
      | inl c ↦ elim (Bool-cases (lives now (lookup k r.revoked_keys))) [
        | inl l ↦ rw (cleanup_one, c, l) h
        | inr l ↦ elim (Bool-cases (removes i)) [
          | inr d ↦ rw (cleanup_one, c, l, d) h
          | inl d ↦
              let other : jti ≢ k =
                λ same. let l' = rw (sym same, h.keyed, alive) at l in absurd cc in
              rw (cleanup_one, c, l, d)
                (record {
                  listed = member-remove_member jti k r.revoked_tokens other ∙ h.listed;
                  keyed = h.keyed;
                })
        ]
      ]
    ]

    cleanup_loop-IsRevoked :
        (i : ℕ) (ks : List String) (r : Redis)
        → IsRevoked jti ending r
        → IsRevoked jti ending (cleanup_loop (cleaning lists checks removes) now i ks r)
    unfolding cleanup_loop
    cleanup_loop-IsRevoked i [] r h = h
    cleanup_loop-IsRevoked i (k ∷ ks) r h =
        cleanup_loop-IsRevoked (suc i) ks (cleanup_one (cleaning lists checks removes) now i k r)
          (cleanup_one-IsRevoked i k r h)

    cleanup-IsRevoked :
        (r : Option Redis)
        → IsRevokedIn jti ending r
        → IsRevokedIn jti ending (cleanup_expired_tokens (cleaning lists checks removes) now r)
    unfolding cleanup_expired_tokens
    cleanup-IsRevoked none h = absurd cc
    cleanup-IsRevoked (some r) h = elim (Bool-cases lists) [
      | inl l ↦ rw (cleanup_expired_tokens, l) (cleanup_loop-IsRevoked 0 r.revoked_tokens r h)
      | inr l ↦ rw (cleanup_expired_tokens, l) h
    ]

  end_time_later : (now : ℕ) (es : List (ℕ × Event)) → now ≤ end_time now es
  end_time_later now [] = omega arith
  end_time_later now (e ∷ es) = let h = end_time_later (now + e.0) es in omega arith

  run-IsRevoked :
      (now : ℕ) (es : List (ℕ × Event)) (r : Option Redis)
      → IsOther jti es
      → lives (end_time now es) (some ending) ≡ true
      → IsRevokedIn jti ending r
      → IsRevokedIn jti ending (run now es r)
  unfolding run happen
  run-IsRevoked now [] r other alive h = h
  run-IsRevoked now ((wait, revoke adds sets k d) ∷ es) r (differs, other) alive h =
      run-IsRevoked (now + wait) es (happen (now + wait) (revoke adds sets k d) r) other alive
        (revoke_token-IsRevoked adds sets (now + wait) k d r differs h)
  run-IsRevoked now ((wait, clean lists checks removes) ∷ es) r other alive h =
      let alive' =
        lives_before ending (now + wait) (end_time (now + wait) es) (end_time_later (now + wait) es)
          alive in
      run-IsRevoked (now + wait) es (happen (now + wait) (clean lists checks removes) r) other alive
        (cleanup-IsRevoked (now + wait) alive' lists checks removes r h)

-- A token whose revocation Redis has answered is on the list until its key ends (for ever, where the
-- expiration is zero), through whatever revocations of other tokens and cleanups come in between,
-- with any answers of Redis, each done as a whole.
pub revoked_stays :
    (now : ℕ) (jti : String) (expiration : ℕ) (r : Redis) (es : List (ℕ × Event))
    → IsOther jti es
    → lives (end_time now es) (some (end_of now expiration)) ≡ true
    → IsRevokedIn jti
        (end_of now expiration)
        (run now es (revoke_token true true now jti expiration (some r)).1)
unfolding revoke_token
revoked_stays now jti expiration r es other alive =
    run-IsRevoked jti (end_of now expiration) now es
      (revoke_token true true now jti expiration (some r)).1 other alive
      (record {
        listed = ground (arith, member-add_member jti jti r.revoked_tokens, eq_refl jti);
        keyed = lookup-insert_self jti (end_of now expiration) r.revoked_keys;
      })

just_set : (now expiration : ℕ) → lives now (some (end_of now expiration)) ≡ true
just_set now zero = refl
just_set now (suc d) = ground arith

-- A cleanup that looks for the key of a token between the two requests of that token's revocation,
-- and removes the token after the second, undoes the revocation, which reports no error and whose
-- key lives: the token has no living key before, Redis does whatever it is asked for, and the
-- expiration is not over at once.
pub revocation_is_lost :
    (w : Cleaning) (now i : ℕ) (jti : String) (expiration : ℕ) (r : Redis)
    → lives now (lookup jti r.revoked_keys) ≡ false
    → w.checks i ≡ true
    → w.removes i ≡ true
    → w.meanwhile i ≡ set_key now jti expiration
    → (revoke_token true true now jti expiration (some r)
        ≡ (true, some (w.meanwhile i (sadd_revoked jti r))))
      × (is_member jti (cleanup_one w now i jti (sadd_revoked jti r)).revoked_tokens ≡ false)
      × (lives now (lookup jti (cleanup_one w now i jti (sadd_revoked jti r)).revoked_keys) ≡ true)
unfolding revoke_token cleanup_one
revocation_is_lost w now i jti expiration r absent checks removes sets =
    let same : cleanup_one w now i jti (sadd_revoked jti r)
        ≡ srem_revoked jti (set_key now jti expiration (sadd_revoked jti r)) =
      rw (cleanup_one, checks, absent, removes, sets) refl in
    (
      ap (λ f. (true, some (f (sadd_revoked jti r)))) (sym sets),
      rw same (member-remove_self jti (add_member jti r.revoked_tokens)),
      rw (same, lookup-insert_self jti (end_of now expiration) r.revoked_keys)
          (just_set now expiration),
    )
