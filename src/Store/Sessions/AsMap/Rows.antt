-- ===== src/Store/Sessions/AsMap/Rows.antt =====
-- Where a row is found after a statement of the repository of the sessions
-- (internal/store/postgres/session_repository.go).
use opentrusty.Store.Sessions as Repo
use opentrusty.Prelude.{
  ==_iff, Bool, Bool-cases, List, Option-cases, String, [], any_row, ap, arith, delete_rows,
  eq_of_==, find_row, find_row_passes, if◌then◌else◌, inl, inr, is_some, none, refl, some, true,
  update_rows, ◌++◌, ◌==◌, ◌∙◌, ◌∷◌, ◌≡◌,
}
use opentrusty.Domain.Sessions.{SessionRow}
use opentrusty.Store.Sessions.AsMap.{changed, same_id, unique, without}

pub find-any_row :
    (sid : String) (rows : List SessionRow)
    → any_row (Repo.has_id sid) rows ≡ is_some (find_row (Repo.has_id sid) rows)
find-any_row sid [] = refl
find-any_row sid (r ∷ more) = ground (arith, find-any_row sid more)

pub find-snoc :
    (sid : String) (rows : List SessionRow) (a : SessionRow)
    → find_row (Repo.has_id a.id) rows ≡ none
    → find_row (Repo.has_id sid) (rows ++ a ∷ [])
      ≡ (if a.id == sid then some a else find_row (Repo.has_id sid) rows)
find-snoc sid [] a h = ground arith
find-snoc sid (r ∷ more) a h =
    ground (arith, find-snoc sid more a, ==_iff a.id sid, ==_iff r.id sid, ==_iff r.id a.id)

find-update :
    (sid : String) (wide : SessionRow → Bool) (change : SessionRow → SessionRow)
    → ((r : SessionRow) → (change r).id ≡ r.id)
    → (rows : List SessionRow)
    → find_row (Repo.has_id sid) (update_rows wide change rows)
      ≡ changed (λ r. if wide r then change r else r) (find_row (Repo.has_id sid) rows)
find-update sid wide change h [] = refl
find-update sid wide change h (r ∷ more) = ground (arith, find-update sid wide change h more, h r)

pub find-delete :
    (sid : String) (drop : SessionRow → Bool) (rows : List SessionRow)
    → unique rows ≡ true
    → find_row (Repo.has_id sid) (delete_rows drop rows)
      ≡ without drop (find_row (Repo.has_id sid) rows)
find-delete sid drop [] h = refl
find-delete sid drop (r ∷ more) h =
    let rest = find-delete sid drop more (ground arith) in
    elim (Bool-cases (r.id == sid)) [
      | inl e ↦ ground (
        arith,
        rest,
        find-any_row sid more,
        ap (λ x. any_row (Repo.has_id x) more) (eq_of_== r.id sid e),
      )
      | inr e ↦ ground (arith, rest)
    ]

-- A row that is found has the identifier.
has_id_found :
    (x sid : String) (rows : List SessionRow) (r : SessionRow)
    → find_row (Repo.has_id x) rows ≡ some r
    → Repo.has_id sid r ≡ (sid == x)
has_id_found x sid rows r h =
    let found_id = find_row_passes (Repo.has_id x) rows r h in
    ground (arith, found_id, ==_iff r.id x, ==_iff r.id sid, ==_iff sid x)

changed_found :
    (x sid : String) (rows : List SessionRow) (f : SessionRow → SessionRow)
    → changed (λ r. if Repo.has_id sid r then f r else r) (find_row (Repo.has_id x) rows) ≡ (
        if sid == x
        then changed f (find_row (Repo.has_id x) rows)
        else find_row (Repo.has_id x) rows)
changed_found x sid rows f = elim (Option-cases (find_row (Repo.has_id x) rows)) [
  | inl e ↦ ground arith
  | inr (r, e) ↦ ground (arith, has_id_found x sid rows r e)
]

pub find-update_one :
    (x sid : String) (change : SessionRow → SessionRow)
    → ((r : SessionRow) → (change r).id ≡ r.id)
    → (rows : List SessionRow)
    → find_row (Repo.has_id x) (update_rows (Repo.has_id sid) change rows) ≡ (
        if sid == x
        then changed change (find_row (Repo.has_id x) rows)
        else find_row (Repo.has_id x) rows)
find-update_one x sid change h rows =
    find-update x (Repo.has_id sid) change h rows ∙ changed_found x sid rows change

pub without_found :
    (x sid : String) (rows : List SessionRow)
    → without (Repo.has_id sid) (find_row (Repo.has_id x) rows)
      ≡ (if sid == x then none else find_row (Repo.has_id x) rows)
without_found x sid rows = elim (Option-cases (find_row (Repo.has_id x) rows)) [
  | inl e ↦ ground arith
  | inr (r, e) ↦ ground (arith, has_id_found x sid rows r e)
]

pub same_id_sym : (a b : SessionRow) → same_id a b ≡ true → same_id b a ≡ true
same_id_sym a b h = ground (arith, ==_iff a.id b.id, ==_iff b.id a.id)
