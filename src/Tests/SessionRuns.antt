-- ===== src/Tests/SessionRuns.antt =====
-- Sessions of the scene.
use opentrusty.Session as Sessions
use opentrusty.Session.Lookup as Lookup
use opentrusty.Session.Lifecycle as Lifecycle
use opentrusty.Store.Sessions as Repo
use opentrusty.Prelude.{[], arith, delete_rows, find_row, inl, none, refl, some, ◌-◌, ◌∷◌, ◌≡◌, ◌≤◌}
use opentrusty.Domain.Errors.{session_expired}
use opentrusty.Domain.Sessions.{Session, SessionRow}
use opentrusty.Tests.Scene.{demo, old_session, open_session, scene}
use opentrusty.World.{World, err, ok, tick}

abbrev service : Sessions.Service
service = record { lifetime = 500; idle_timeout = 60 }

abbrev longer : Sessions.Service
longer = record { lifetime = 5000; idle_timeout = 600 }

abbrev later : World
later = tick (tick (tick scene))

get_live_example :
    (r : SessionRow) × (find_row (Repo.has_id "s1") scene.sessions ≡ some r)
    × (Repo.scan r ≡ Repo.scan open_session)
    × (101 ≤ 1000)
    × (102 - 100 ≤ 60)
    × (later ≡ later)
unfolding Sessions.get Repo.get
get_live_example =
    Lookup.get_live ⦃env = demo⦄ service "s1" scene later (Repo.scan open_session) refl

get_stale_example :
    ((Sessions.get ⦃env = demo⦄ service "s2" scene).0 ≡ err session_expired)
    × ((Sessions.get ⦃env = demo⦄ service "s2" scene).1.sessions
        ≡ delete_rows (Repo.has_id "s2") scene.sessions)
    × (find_row (Repo.has_id "s2") (Sessions.get ⦃env = demo⦄ service "s2" scene).1.sessions ≡ none)
get_stale_example =
    Lookup.get_stale ⦃env = demo⦄ service "s2" scene old_session (λ n. refl) refl
      (inl (omega arith))

-- Bob's new session, as `create` returns it.
abbrev created : Session
created = record {
  id = "ab.";
  tenant_id = some "t1";
  user_id = "bob";
  ip_address = "ip";
  user_agent = "agent";
  expires_at = 5101;
  created_at = 102;
  last_seen_at = 103;
  namespace = "auth";
}

abbrev with_created : World
with_created = record scene {
  events = 5;
  sessions = open_session ∷ old_session ∷ Repo.to_row created ∷ [];
}

get-create_example :
    Sessions.get ⦃env = demo⦄ longer "ab." with_created
    ≡ (ok (Lifecycle.read_back ⦃env = demo⦄ created), tick (tick (tick with_created)))
unfolding Sessions.create Sessions.generate_session_id Repo.create
get-create_example =
    Lifecycle.get-create ⦃env = demo⦄ longer (some "t1") "bob" "ip" "agent" "auth" scene
      with_created created refl refl (omega arith) (omega arith)
