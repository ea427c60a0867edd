-- ===== src/Shared/Lock/Exclusion.antt =====
-- A lock of lock.go keeps the others out until it ends.
use aipx.Prelude.{
  ℕ, ◌+◌, ◌<◌, String, str_eq, eq_iff, Bool, false, Option, none, some, List, [], ◌∷◌, ◌≡◌, ◌≢◌,
  ◌⊎◌, refl, sym, ◌∙◌, arith, Bool-cases, inl, inr,
}
use aipx.Prelude.Dict.{Dict, lookup, insert, erase, lookup-erase, lookup-insert_ne}
use aipx.Shared.Lock.{
  Lock, Entry, LockResult, done, not_obtained, not_held, failed, held, is_own, acquire, release,
  refresh, milliseconds,
}

pub data Operation : Type 0 where
  on_acquire on_release on_refresh : Bool → ℕ → Lock → Operation

pub perform : Operation → Dict Entry → LockResult × Dict Entry
unfolding acquire release refresh
perform (on_acquire up now l) d = acquire up now l d
perform (on_release up now l) d = release up now l d
perform (on_refresh up now l) d = refresh up now l d

abbrev pub lock_of : Operation → Lock
lock_of (on_acquire up now l) = l
lock_of (on_release up now l) = l
lock_of (on_refresh up now l) = l

abbrev pub time_of : Operation → ℕ
time_of (on_acquire up now l) = now
time_of (on_release up now l) = now
time_of (on_refresh up now l) = now

module _ (k v : String) (end : ℕ) where
  -- The lock is `v`'s, until `end`.
  abbrev pub IsHeld : Dict Entry → Type 0
  IsHeld d = lookup k d ≡ some (record { value = v; expires_at = some end })

  -- Operations of locks with other values, before the end.
  abbrev pub AllForeign : List Operation → Type 0
  AllForeign [] = Unit
  AllForeign (o ∷ os) = ((lock_of o).value ≢ v) × (time_of o < end) × AllForeign os

  -- None of the operations on this key succeeds, and the lock stays with its holder.
  abbrev pub AllDenied : List Operation → Dict Entry → Type 0
  AllDenied [] d = IsHeld d
  AllDenied (o ∷ os) d =
      ((lock_of o).key ≡ k → (perform o d).0 ≢ done) × AllDenied os (perform o d).1

  foreign_held : (now : ℕ) (d : Dict Entry) → now < end → IsHeld d → held now (lookup k d) ≡ some v
  foreign_held now d early h = rw h (ground arith)

  not_done : (x : LockResult) → (x ≡ not_obtained) ⊎ ((x ≡ not_held) ⊎ (x ≡ failed)) → x ≢ done
  not_done x (inl e) h = cc
  not_done x (inr (inl e)) h = cc
  not_done x (inr (inr e)) h = cc

  key-cases : (l : Lock) → (l.key ≡ k) ⊎ (l.key ≢ k)
  key-cases l = elim (Bool-cases (str_eq l.key k)) [
    | inl e ↦ inl ((eq_iff l.key k).0 e)
    | inr e ↦ inr (λ same. ground (arith, eq_iff l.key k))
  ]

  -- A key that is not this one leaves the entry alone.
  insert-IsHeld :
      (j : String) (e : Entry) (d : Dict Entry) → j ≢ k → IsHeld d → IsHeld (insert j e d)
  insert-IsHeld j e d other h = lookup-insert_ne k j e d (λ same. other (sym same)) ∙ h

  erase-IsHeld : (j : String) (d : Dict Entry) → j ≢ k → IsHeld d → IsHeld (erase j d)
  erase-IsHeld j d other h = ground (arith, lookup-erase k j d, eq_iff k j)

  -- To a lock with another value the key is not its own.
  foreign_own :
      (now : ℕ) (l : Lock) (d : Dict Entry)
      → l.value ≢ v
      → now < end
      → IsHeld d
      → l.key ≡ k
      → is_own l.value (held now (lookup l.key d)) ≡ false
  foreign_own now l d differs early h same =
      rw (same, foreign_held now d early h) (ground (arith, eq_iff v l.value))

  foreign_acquire :
      (up : Bool) (now : ℕ) (l : Lock) (d : Dict Entry)
      → now < end
      → IsHeld d
      → (l.key ≡ k → (acquire up now l d).0 ≢ done) × IsHeld (acquire up now l d).1
  unfolding acquire
  foreign_acquire up now l d early h = elim (key-cases l) [
    | inl same ↦
        let there : held now (lookup l.key d) ≡ some v = rw same (foreign_held now d early h) in
        rw (there, acquire) (λ e. not_done _ (ground arith), h)
    | inr other ↦ (λ same. absurd (other same), kept (held now (lookup l.key d)) refl other)
  ]
    where
      kept :
          (x : Option String)
          → held now (lookup l.key d) ≡ x
          → l.key ≢ k
          → IsHeld (acquire up now l d).1
      kept (some w) e other = rw (e, acquire) h
      kept none e other =
          rw (e, acquire)
            (elim (Bool-cases up) [
              | inl yes_up ↦ rw yes_up (insert-IsHeld l.key _ d other h)
              | inr down ↦ rw down h
            ])

  foreign_release :
      (up : Bool) (now : ℕ) (l : Lock) (d : Dict Entry)
      → l.value ≢ v
      → now < end
      → IsHeld d
      → (l.key ≡ k → (release up now l d).0 ≢ done) × IsHeld (release up now l d).1
  unfolding release
  foreign_release up now l d differs early h = elim (key-cases l) [
    | inl same ↦
        rw (foreign_own now l d differs early h same, release)
          (λ e. not_done _ (ground arith), ground arith)
    | inr other ↦ (λ same. absurd (other same), ground (arith, erase-IsHeld l.key d other h))
  ]

  foreign_refresh :
      (up : Bool) (now : ℕ) (l : Lock) (d : Dict Entry)
      → l.value ≢ v
      → now < end
      → IsHeld d
      → (l.key ≡ k → (refresh up now l d).0 ≢ done) × IsHeld (refresh up now l d).1
  unfolding refresh
  foreign_refresh up now l d differs early h = elim (key-cases l) [
    | inl same ↦
        rw (foreign_own now l d differs early h same, refresh)
          (λ e. not_done _ (ground arith), ground arith)
    | inr other ↦ (
      λ same. absurd (other same),
      ground (
        arith,
        erase-IsHeld l.key d other h,
        insert-IsHeld l.key
            (record { value = l.value; expires_at = some (now + milliseconds l.ttl) }) d other h,
      ),
    )
  ]

  foreign_step :
      (o : Operation) (d : Dict Entry)
      → (lock_of o).value ≢ v
      → time_of o < end
      → IsHeld d
      → ((lock_of o).key ≡ k → (perform o d).0 ≢ done) × IsHeld (perform o d).1
  unfolding perform
  foreign_step (on_acquire up now l) d differs early h = foreign_acquire up now l d early h
  foreign_step (on_release up now l) d differs early h = foreign_release up now l d differs early h
  foreign_step (on_refresh up now l) d differs early h = foreign_refresh up now l d differs early h

  -- While a lock is held and its end has not come, whatever locks with other values do, in whatever
  -- order: none of them acquires, releases or refreshes the key, and the lock stays its holder's,
  -- with the same end.
  pub lock_excludes :
      (os : List Operation) (d : Dict Entry) → AllForeign os → IsHeld d → AllDenied os d
  lock_excludes [] d a h = h
  lock_excludes (o ∷ os) d (differs, early, rest) h =
      let (denied, still) = foreign_step o d differs early h in
      (denied, lock_excludes os (perform o d).1 rest still)
