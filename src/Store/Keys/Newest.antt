-- ===== src/Store/Keys/Newest.antt =====
-- Which key is the active one (internal/store/postgres/key_repository.go).
use opentrusty.Prelude.{
  Bool, Bool-cases, List, [], ap, arith, false, find_rows, inl, inr, leb, ltb, refl, some, subst,
  sym, true, ◌&&◌, ◌∙◌, ◌∷◌, ◌≡◌, ◌≤◌, ◌⊎◌,
}
use opentrusty.Domain.Oauth2.{Key}
use opentrusty.Store.Keys.{first_row, get_active_key, insert_newest, is_valid_at, newest_first}
use opentrusty.World.{Env, World, ok}

-- No key of the list is newer.
abbrev pub all_older : Key → List Key → Bool
all_older k [] = true
all_older k (d ∷ ds) = leb d.created_at k.created_at && all_older k ds

abbrev is_sorted : List Key → Bool
is_sorted [] = true
is_sorted (k ∷ ks) = all_older k ks && is_sorted ks

abbrev pub IsIn : Key → List Key → Type 0
IsIn k [] = true ≡ false
IsIn k (d ∷ ds) = (k ≡ d) ⊎ IsIn k ds

all_older_trans :
    (c d : Key) (ds : List Key)
    → d.created_at ≤ c.created_at
    → all_older d ds ≡ true
    → all_older c ds ≡ true
all_older_trans c d [] h e = refl
all_older_trans c d (x ∷ xs) h e = ground (arith, all_older_trans c d xs h)

all_older-insert :
    (k c : Key) (ds : List Key)
    → all_older k (insert_newest c ds) ≡ (leb c.created_at k.created_at && all_older k ds)
unfolding insert_newest
all_older-insert k c [] = refl
all_older-insert k c (d ∷ ds) = ground (arith, all_older-insert k c ds)

insert-is_sorted :
    (c : Key) (ds : List Key) → is_sorted ds ≡ true → is_sorted (insert_newest c ds) ≡ true
unfolding insert_newest
insert-is_sorted c [] h = refl
insert-is_sorted c (d ∷ ds) h = elim (Bool-cases (ltb c.created_at d.created_at)) [
  | inl e ↦ ground (arith, all_older-insert d c ds, insert-is_sorted c ds)
  | inr e ↦ ground (arith, all_older_trans c d ds (ground arith))
]

newest_first-is_sorted : (ks : List Key) → is_sorted (newest_first ks) ≡ true
unfolding newest_first
newest_first-is_sorted [] = refl
newest_first-is_sorted (k ∷ ks) = insert-is_sorted k (newest_first ks) (newest_first-is_sorted ks)

all_older-newest_first : (k : Key) (ks : List Key) → all_older k (newest_first ks) ≡ all_older k ks
unfolding newest_first
all_older-newest_first k [] = refl
all_older-newest_first k (c ∷ cs) =
    all_older-insert k c (newest_first cs) ∙ ground (arith, all_older-newest_first k cs)

IsIn-insert : (k c : Key) (ds : List Key) → IsIn k (insert_newest c ds) → (k ≡ c) ⊎ IsIn k ds
unfolding insert_newest
IsIn-insert k c [] h = h
IsIn-insert k c (d ∷ ds) h = elim (Bool-cases (ltb c.created_at d.created_at)) [
  | inl e ↦
      let same_list : insert_newest c (d ∷ ds) ≡ d ∷ insert_newest c ds = ground arith in
      let step : IsIn k (d ∷ insert_newest c ds) = subst (IsIn k) same_list h in
      elim step [
        | inl same ↦ inr (inl same)
        | inr later ↦ elim (IsIn-insert k c ds later) [ inl x ↦ inl x | inr x ↦ inr (inr x) ]
      ]
  | inr e ↦
      let same_list : insert_newest c (d ∷ ds) ≡ c ∷ d ∷ ds = ground arith in
      subst (IsIn k) same_list h
]

IsIn-newest_first : (k : Key) (ks : List Key) → IsIn k (newest_first ks) → IsIn k ks
unfolding newest_first
IsIn-newest_first k [] h = h
IsIn-newest_first k (c ∷ cs) h = elim (IsIn-insert k c (newest_first cs) h) [
  | inl same ↦ inl same
  | inr later ↦ inr (IsIn-newest_first k cs later)
]

IsIn-find_rows :
    (k : Key) (test : Key → Bool) (ks : List Key)
    → IsIn k (find_rows test ks)
    → IsIn k ks × (test k ≡ true)
IsIn-find_rows k test [] h = absurd (ground arith)
IsIn-find_rows k test (c ∷ cs) h = elim (Bool-cases (test c)) [
  | inr e ↦
      let (there, passes) = IsIn-find_rows k test cs (subst (IsIn k) (ground arith) h) in
      (inr there, passes)
  | inl e ↦
      let same_list : find_rows test (c ∷ cs) ≡ c ∷ find_rows test cs = ground arith in
      let step : IsIn k (c ∷ find_rows test cs) = subst (IsIn k) same_list h in
      elim step [
        | inl same ↦ (inl same, ap test same ∙ e)
        | inr later ↦ let (there, passes) = IsIn-find_rows k test cs later in (inr there, passes)
      ]
]

first_row-is_sorted :
    (k : Key) (ks : List Key)
    → is_sorted ks ≡ true
    → first_row ks ≡ some k
    → IsIn k ks × (all_older k ks ≡ true)
first_row-is_sorted k [] sorted h = absurd (ground arith)
first_row-is_sorted k (c ∷ cs) sorted h =
    let same : k ≡ c = ground arith in
    (inl same, ground (arith, ap (λ x. all_older x (c ∷ cs)) same))

first_row_lem :
    (k : Key) (ks : List Key)
    → first_row (newest_first ks) ≡ some k
    → IsIn k ks × (all_older k ks ≡ true)
first_row_lem k ks h =
    let (there, newest) = first_row-is_sorted k (newest_first ks) (newest_first-is_sorted ks) h in
    (IsIn-newest_first k ks there, sym (all_older-newest_first k ks) ∙ newest)

module _ ⦃env : Env⦄ where
  -- The active key is a stored one that has not expired, and no stored key that has not expired is
  -- newer.
  pub get_active_key_lem :
      (k : Key) (w w' : World)
      → get_active_key w ≡ (ok k, w')
      → IsIn k w.keys
        × (is_valid_at (env.clock w.events) k ≡ true)
        × (all_older k (find_rows (is_valid_at (env.clock w.events)) w.keys) ≡ true)
  unfolding get_active_key
  get_active_key_lem k w w' h =
      let rows = find_rows (is_valid_at (env.clock w.events)) w.keys in
      let (there, newest) = first_row_lem k rows (ground arith) in
      let (stored, valid) = IsIn-find_rows k (is_valid_at (env.clock w.events)) w.keys there in
      (stored, valid, newest)
