-- ===== src/Shared/Lock/Holding.antt =====
-- A lock of lock.go from its acquisition to its release.
use aipx.Prelude.{
  ℕ, ◌+◌, ◌≤◌, ◌<◌, String, eq_refl, true, false, none, some, List, [], ◌∷◌, ◌≡◌, refl, ◌∙◌, ap,
  arith, ◌==◌,
}
use aipx.Prelude.Dict.{Dict, lookup, erase, lookup-insert_self, lookup-erase_self}
use aipx.Shared.Lock.{
  Lock, Entry, done, held, is_own, acquire, release, refresh, set_end, milliseconds,
}
use aipx.Shared.Lock.Exclusion.{Operation, perform, IsHeld, AllForeign, AllDenied, lock_excludes}

-- The state after the operations of others.
pub perform_all : List Operation → Dict Entry → Dict Entry
perform_all [] d = d
perform_all (o ∷ os) d = perform_all os (perform o d).1

perform_all-IsHeld :
    (k v : String) (end : ℕ) (os : List Operation) (d : Dict Entry)
    → AllDenied k v end os d
    → IsHeld k v end (perform_all os d)
unfolding perform_all
perform_all-IsHeld k v end [] d h = h
perform_all-IsHeld k v end (o ∷ os) d h = perform_all-IsHeld k v end os (perform o d).1 h.1

acquires :
    (now : ℕ) (o : Lock) (d : Dict Entry)
    → held now (lookup o.key d) ≡ none
    → (acquire true now o d).0 ≡ done
unfolding acquire
acquires now o d free = rw (free, acquire)

module _ (l : Lock) where
  -- Before its end the holder's key is its own.
  own_held :
      (now end : ℕ) (d : Dict Entry)
      → now < end
      → IsHeld l.key l.value end d
      → is_own l.value (held now (lookup l.key d)) ≡ true
  own_held now end d early h = rw h (ground (arith, eq_refl l.value))

  release_own :
      (now end : ℕ) (d : Dict Entry)
      → now < end
      → IsHeld l.key l.value end d
      → release true now l d ≡ (done, erase l.key d)
  unfolding release
  release_own now end d early h = rw (own_held now end d early h, release)

  acquire_free :
      (now end : ℕ) (d : Dict Entry)
      → held now (lookup l.key d) ≡ none
      → set_end now l.ttl ≡ some end
      → (acquire true now l d).0 ≡ done × IsHeld l.key l.value end (acquire true now l d).1
  unfolding acquire
  acquire_free now end d free ends =
      rw (free, acquire)
        (
          refl,
          lookup-insert_self l.key (record { value = l.value; expires_at = set_end now l.ttl }) d
              ∙ ap (λ x. some (record { value = l.value; expires_at = x })) ends,
        )

  -- A lock with a `ttl` of a millisecond or more whose key nobody holds is acquired, Redis answering.
  -- Whatever locks with other values do before its end, it can then be extended and is its holder's
  -- until the new end, and it can be released, after which nobody holds the key.
  pub acquire-release :
      (now now' end : ℕ) (os : List Operation) (d : Dict Entry)
      → held now (lookup l.key d) ≡ none
      → set_end now l.ttl ≡ some end
      → 1000000 ≤ l.ttl
      → AllForeign l.key l.value end os
      → now' < end
      → let (result, d') = acquire true now l d in
        let later = perform_all os d' in
        (result ≡ done)
        × ((refresh true now' l later).0 ≡ done)
        × IsHeld l.key l.value (now' + milliseconds l.ttl) (refresh true now' l later).1
        × ((release true now' l later).0 ≡ done)
        × (lookup l.key (release true now' l later).1 ≡ none)
  unfolding refresh
  acquire-release now now' end os d free ends long foreign early =
      let (acquired, mine) = acquire_free now end d free ends in
      let d' = (acquire true now l d).1 in
      let later = perform_all os d' in
      let still =
        perform_all-IsHeld l.key l.value end os d'
          (lock_excludes l.key l.value end os d' foreign mine) in
      let own = own_held now' end later early still in
      let some_time : (milliseconds l.ttl == 0) ≡ false = ground arith in
      let released = release_own now' end later early still in
      (
        acquired,
        rw (own, refresh),
        rw (own, refresh)
            (rw some_time (
              lookup-insert_self l.key
                (record { value = l.value; expires_at = some (now' + milliseconds l.ttl) }) later)),
        ap (λ t. t.0) released,
        ap (λ t. lookup l.key t.1) released ∙ lookup-erase_self l.key later,
      )

  -- A lock whose `ttl` is under a millisecond loses its key when its holder
  -- extends it: `Refresh` reports success, and the next one to acquire the key gets it.
  pub refresh_drops :
      (now end : ℕ) (other : Lock) (d : Dict Entry)
      → l.ttl < 1000000
      → now < end
      → IsHeld l.key l.value end d
      → other.key ≡ l.key
      → ((refresh true now l d).0 ≡ done)
        × ((acquire true now other (refresh true now l d).1).0 ≡ done)
  unfolding refresh
  refresh_drops now end other d short early mine same =
      let own = own_held now end d early mine in
      let no_time : (milliseconds l.ttl == 0) ≡ true = ground arith in
      let gone : held now (lookup other.key (erase l.key d)) ≡ none =
        rw (same, lookup-erase_self l.key d) in
      (rw (own, refresh), rw (own, refresh) (rw no_time (acquires now other (erase l.key d) gone)))
