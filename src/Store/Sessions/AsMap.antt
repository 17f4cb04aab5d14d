-- ===== src/Store/Sessions/AsMap.antt =====
-- The repository of the sessions (internal/store/postgres/session_repository.go) against its
-- abstract view: a map from identifiers to sessions.
pub mod Rows
pub mod Refinement
use opentrusty.Store.Sessions as Repo
use opentrusty.Prelude.{
  Bool, List, Option, String, [], consistent, false, find_row, if◌then◌else◌, is_some, ltb, none,
  not, some, suc, true, ℕ, ◌+◌, ◌==◌, ◌||◌, ◌∷◌, ◌≡◌,
}
use opentrusty.Domain.Sessions.{Session, SessionRow}
use opentrusty.World.{Env, Result, World, err, ok, stored_time}

-- The calls of the repository.
pub data Call : Type 0 where
  creates updates : Session → Call
  reads deletes deletes_user : String → Call
  deletes_expired : Call

-- Whether a call succeeds, or the session that is read.
pub data Answer : Type 0 where
  done : Bool → Answer
  found : Option Session → Answer

abbrev pub Sessions : Type 0
Sessions = String → Option SessionRow

abbrev pub succeeds : {A : Type 0} → Result A → Bool
succeeds (ok a) = true
succeeds (err e) = false

abbrev pub session_of : Result Session → Option Session
session_of (ok s) = some s
session_of (err e) = none

abbrev pub same_id : SessionRow → SessionRow → Bool
same_id a r = Repo.has_id a.id r

-- No two rows have the same identifier.
abbrev pub unique : List SessionRow → Bool
unique rows = consistent (λ r. true) same_id rows

abbrev pub view : World → Sessions
view w sid = find_row (Repo.has_id sid) w.sessions

-- The map without the sessions that pass a test.
abbrev pub without : (SessionRow → Bool) → Option SessionRow → Option SessionRow
without drop none = none
without drop (some r) = if drop r then none else some r

abbrev pub changed : (SessionRow → SessionRow) → Option SessionRow → Option SessionRow
changed change none = none
changed change (some r) = some (change r)

abbrev pub scanned : Option SessionRow → Option Session
scanned none = none
scanned (some r) = some (Repo.scan r)

abbrev pub touch : Session → SessionRow → SessionRow
touch s r = record r { last_seen_at = stored_time s.last_seen_at }

module _ ⦃env : Env⦄ where
  abbrev pub run_call : Call → World → Answer × World
  run_call (creates s) w = let (r, w') = Repo.create s w in (done (succeeds r), w')
  run_call (updates s) w = let (r, w') = Repo.update s w in (done (succeeds r), w')
  run_call (reads sid) w = let (r, w') = Repo.get sid w in (found (session_of r), w')
  run_call (deletes sid) w = let (r, w') = Repo.delete sid w in (done (succeeds r), w')
  run_call (deletes_user uid) w =
      let (r, w') = Repo.delete_by_user_id uid w in (done (succeeds r), w')
  run_call deletes_expired w = let (r, w') = Repo.delete_expired w in (done (succeeds r), w')

  -- The same on a map, where the call n of the program is the first that this one makes.
  abbrev pub map_call : Call → ℕ → Sessions → Answer × Sessions
  map_call (creates s) n m =
      if env.outage n || is_some (m s.id)
      then (done false, m)
      else (done true, λ x. if s.id == x then some (Repo.to_row s) else m x)
  map_call (updates s) n m =
      if env.outage n || not (is_some (m s.id))
      then (done false, m)
      else (done true, λ x. if s.id == x then changed (touch s) (m x) else m x)
  map_call (reads sid) n m = (found (if env.outage n then none else scanned (m sid)), m)
  map_call (deletes sid) n m =
      if env.outage n then (done false, m) else (done true, λ x. if sid == x then none else m x)
  map_call (deletes_user uid) n m =
      if env.outage n
      then (done false, m)
      else (done true, λ x. without (λ r. r.user_id == uid) (m x))
  map_call deletes_expired n m =
      if env.outage (suc n)
      then (done false, m)
      else (done true, λ x. without (λ r. ltb r.expires_at (stored_time (env.clock n))) (m x))

  -- How often a call leaves the program.
  abbrev pub calls : Call → ℕ
  calls deletes_expired = 2
  calls _ = 1

  abbrev pub answers : List Call → World → List Answer
  answers [] w = []
  answers (c ∷ cs) w = let (a, w') = run_call c w in a ∷ answers cs w'

  abbrev pub map_answers : List Call → ℕ → Sessions → List Answer
  map_answers [] n m = []
  map_answers (c ∷ cs) n m = let (a, m') = map_call c n m in a ∷ map_answers cs (n + calls c) m'

  -- What a call does, against the map.
  pub record Agrees (c : Call) (w : World) (m : Sessions) : Type 0 where
    pub answer : (run_call c w).0 ≡ (map_call c w.events m).0
    pub next : (x : String) → view (run_call c w).1 x ≡ (map_call c w.events m).1 x
    pub keys : unique (run_call c w).1.sessions ≡ true
    pub events : (run_call c w).1.events ≡ w.events + calls c
