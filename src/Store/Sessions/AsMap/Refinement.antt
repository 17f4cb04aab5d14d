-- ===== src/Store/Sessions/AsMap/Refinement.antt =====
-- The repository of the sessions (internal/store/postgres/session_repository.go) is a map.
use opentrusty.Store.Sessions as Repo
use opentrusty.Prelude.{
  Bool, List, String, [], arith, consistent-append, consistent-delete, consistent-update, ltb, refl,
  true, ◌==◌, ◌∷◌, ◌≡◌,
}
use opentrusty.Domain.Sessions.{Session, SessionRow}
use opentrusty.Store.Sessions.AsMap.{
  Agrees, Call, Sessions, answers, creates, deletes, deletes_expired, deletes_user, map_answers,
  map_call, reads, run_call, same_id, touch, unique, updates, view,
}
use opentrusty.Store.Sessions.AsMap.Rows.{
  find-any_row, find-delete, find-snoc, find-update_one, same_id_sym, without_found,
}
use opentrusty.World.{Env, World, stored_time}

module _ ⦃env : Env⦄ where
  module _ (w : World) (m : Sessions) (keys : unique w.sessions ≡ true)
      (same : (x : String) → view w x ≡ m x) where
    creates-Agrees : (s : Session) → Agrees (creates s) w m
    unfolding Repo.create
    creates-Agrees s =
        let there = find-any_row s.id w.sessions in
        let here = same s.id in
        record {
          answer = ground arith;
          next = λ x. ground (arith, same x, find-snoc x w.sessions (Repo.to_row s));
          keys = ground (
            arith,
            consistent-append (λ r. true) same_id same_id_sym w.sessions (Repo.to_row s) keys refl,
          );
          events = ground arith;
        }

    reads-Agrees : (sid : String) → Agrees (reads sid) w m
    unfolding Repo.get
    reads-Agrees sid =
        let here = same sid in
        record {
          answer = ground arith;
          next = λ x. ground (arith, same x);
          keys = ground arith;
          events = ground arith;
        }

    updates-Agrees : (s : Session) → Agrees (updates s) w m
    unfolding Repo.update
    updates-Agrees s =
        let there = find-any_row s.id w.sessions in
        let here = same s.id in
        record {
          answer = ground arith;
          next =
              λ x. ground (arith, same x, find-update_one x s.id (touch s) (λ r. refl) w.sessions);
          keys = ground (
            arith,
            consistent-update (λ r. true) same_id (Repo.has_id s.id) (touch s) (λ a. refl)
                (λ a b. refl) (λ a b. refl) w.sessions keys,
          );
          events = ground arith;
        }

    deletes-Agrees : (sid : String) → Agrees (deletes sid) w m
    unfolding Repo.delete
    deletes-Agrees sid = record {
      answer = ground arith;
      next = λ x. ground (
        arith,
        same x,
        find-delete x (Repo.has_id sid) w.sessions keys,
        without_found x sid w.sessions,
      );
      keys =
          ground (arith, consistent-delete (λ r. true) same_id (Repo.has_id sid) w.sessions keys);
      events = ground arith;
    }

    deletes_user-Agrees : (uid : String) → Agrees (deletes_user uid) w m
    unfolding Repo.delete_by_user_id
    deletes_user-Agrees uid =
        let drop : SessionRow → Bool = λ r. r.user_id == uid in
        record {
          answer = ground arith;
          next = λ x. ground (arith, same x, find-delete x drop w.sessions keys);
          keys = ground (arith, consistent-delete (λ r. true) same_id drop w.sessions keys);
          events = ground arith;
        }

    deletes_expired-Agrees : Agrees deletes_expired w m
    unfolding Repo.delete_expired
    deletes_expired-Agrees =
        let drop : SessionRow → Bool = λ r. ltb r.expires_at (stored_time (env.clock w.events)) in
        record {
          answer = ground arith;
          next = λ x. ground (arith, same x, find-delete x drop w.sessions keys);
          keys = ground (arith, consistent-delete (λ r. true) same_id drop w.sessions keys);
          events = ground arith;
        }

    call-Agrees : (c : Call) → Agrees c w m
    call-Agrees (creates s) = creates-Agrees s
    call-Agrees (updates s) = updates-Agrees s
    call-Agrees (reads sid) = reads-Agrees sid
    call-Agrees (deletes sid) = deletes-Agrees sid
    call-Agrees (deletes_user uid) = deletes_user-Agrees uid
    call-Agrees deletes_expired = deletes_expired-Agrees

  -- Whatever is called, in whatever order and whichever statements fail, the session repository
  -- answers as a map from identifiers to sessions does, if at first no two rows have the same
  -- identifier and the map holds the rows.
  pub answers-map_answers :
      (cs : List Call) (w : World) (m : Sessions)
      → unique w.sessions ≡ true
      → ((x : String) → view w x ≡ m x)
      → answers cs w ≡ map_answers cs w.events m
  answers-map_answers [] w m keys same = refl
  answers-map_answers (c ∷ cs) w m keys same =
      let a = call-Agrees w m keys same c in
      let rest = answers-map_answers cs (run_call c w).1 (map_call c w.events m).1 a.keys a.next in
      ground (arith, rest, a.answer, a.events)
