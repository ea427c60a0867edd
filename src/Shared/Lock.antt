-- ===== src/Shared/Lock.antt =====
-- shared/go/pkg/redis/lock.go: a lock that lies in Redis under a key, with the value of its holder
-- and an end. Redis keeps time in milliseconds; a `ttl` is in nanoseconds.
pub mod Exclusion
pub mod Holding
mod Tests
use aipx.Prelude.{
  ℕ, zero, suc, ◌+◌, ◌/◌, String, str_eq, Bool, true, false, Option, none, some, List, [], ◌∷◌,
  if◌then◌else◌, leb, ◌==◌,
}
use aipx.Prelude.Dict.{Dict, lookup, insert, erase}

pub record Lock : Type 0 where
  pub key : String
  pub value : String
  pub ttl : ℕ

pub record Entry : Type 0 where
  pub value : String
  pub expires_at : Option ℕ

pub data LockResult : Type 0 where
  done not_obtained not_held failed : LockResult

-- `Milliseconds`
abbrev pub milliseconds : ℕ → ℕ
milliseconds d = d / 1000000

-- The end that go-redis gives a key: none for a `ttl` of zero, and at least a millisecond.
abbrev pub set_end : ℕ → ℕ → Option ℕ
set_end now zero = none
set_end now (suc d) = let ms = milliseconds (suc d) in some (now + (if ms == 0 then 1 else ms))

-- The value that Redis still holds.
abbrev pub held : ℕ → Option Entry → Option String
held now none = none
held now (some e) = elim e.expires_at [
  | none ↦ some e.value
  | some end ↦ if leb end now then none else some e.value
]

-- Whether the key is this lock's: `redis.call("get", KEYS[1]) == ARGV[1]`.
abbrev pub is_own : String → Option String → Bool
is_own v none = false
is_own v (some w) = str_eq w v

-- `Acquire`, with SET NX; the flag tells whether Redis answers.
pub acquire : Bool → ℕ → Lock → Dict Entry → LockResult × Dict Entry
acquire up now l d = elim (held now (lookup l.key d)) [
  | some v ↦ (if up then not_obtained else failed, d)
  | none ↦
      if up
      then (done, insert l.key (record { value = l.value; expires_at = set_end now l.ttl }) d)
      else (failed, d)
]

-- `Release`, with its script.
pub release : Bool → ℕ → Lock → Dict Entry → LockResult × Dict Entry
release up now l d =
    if up
    then (if is_own l.value (held now (lookup l.key d))
        then (done, erase l.key d)
        else (not_held, d))
    else (failed, d)

-- `Refresh`, with its script; PEXPIRE with no time at all removes the key.
pub refresh : Bool → ℕ → Lock → Dict Entry → LockResult × Dict Entry
refresh up now l d =
    let ms = milliseconds l.ttl in
    let extended : Dict Entry =
      if ms == 0
      then erase l.key d
      else insert l.key (record { value = l.value; expires_at = some (now + ms) }) d in
    if up
    then (if is_own l.value (held now (lookup l.key d)) then (done, extended) else (not_held, d))
    else (failed, d)

-- `TryAcquire`: for each round, whether Redis answers, the time, and what others do to Redis in the
-- wait that follows.
pub record Round : Type 0 where
  pub up : Bool
  pub now : ℕ
  pub wait : Dict Entry → Dict Entry

pub try_acquire : List Round → Lock → Dict Entry → LockResult × Dict Entry
unfolding acquire
try_acquire [] l d = (not_obtained, d)
try_acquire (r ∷ rs) l d =
    let (result, d') = acquire r.up r.now l d in
    elim result [ done ↦ (done, d') | _ ↦ try_acquire rs l (r.wait d') ]

-- `WithLock`: the function gives whether it succeeds, and what it and others do to Redis meanwhile;
-- then come the answer and the time of the release, whose result is dropped.
pub with_lock :
    Bool
    → ℕ
    → Bool
    → ℕ
    → (Dict Entry → Bool × Dict Entry)
    → Lock
    → Dict Entry
    → LockResult × Bool × Dict Entry
unfolding acquire release
with_lock up now up' now' f l d =
    let (result, d') = acquire up now l d in
    elim result [
      | done ↦ (done, (f d').0, (release up' now' l (f d').1).1)
      | not_obtained ↦ (not_obtained, false, d')
      | not_held ↦ (not_held, false, d')
      | failed ↦ (failed, false, d')
    ]
