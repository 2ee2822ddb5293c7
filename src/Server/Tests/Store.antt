-- ===== src/Server/Tests/Store.antt =====
-- A list as a collection, and that it has the laws.
use mc_gatekeeper.Prelude.{
  ◌+◌, ◌≤◌, String, Bool, true, false, ◌==◌, Option, none, some, List, [], ◌∷◌, ◌≡◌, refl, sym, ap,
  ◌∙◌, subst, inl, inr, arith, if◌then◌else◌, Bool-cases, Option-cases, any, count_if,
}
use mathlib.Core.Option.{some-ne-none, some-injective}
use mathlib.Core.Bool.{true≢false}
use mathlib.Core.List.{head-eq_of_cons-eq, nil≢cons, cons-ne-nil}
use mc_gatekeeper.Js.{str}
use mc_gatekeeper.Types.{Request}
use mc_gatekeeper.Server.{Setting, value, Changes, find_setting, Collection, has_id}
use mc_gatekeeper.Server.Laws.{bit, IsUpdated, IsReplaced, IsCollection}

abbrev filter : (Request → Bool) → List Request → List Request
filter p [] = []
filter p (r ∷ db) = if p r then r ∷ filter p db else filter p db

abbrev insert : Request → List Request → Option (List Request)
insert r db = if any (has_id r.id) db then none else some (r ∷ db)

abbrev text_or : String → Option Setting → String
text_or old (some (value (str s))) = s
text_or old _ = old

abbrev apply : Changes → Request → Request
apply ch r = record r {
  username = text_or r.username (find_setting "username" ch);
  status = text_or r.status (find_setting "status" ch);
  admin = text_or r.admin (find_setting "admin" ch);
  note = text_or r.note (find_setting "note" ch);
}

abbrev behind : Request → Option (Request × List Request) → Option (Request × List Request)
behind r none = none
behind r (some (new, db)) = some (new, r ∷ db)

abbrev update : String → Changes → List Request → Option (Request × List Request)
update id ch [] = none
update id ch (r ∷ db) =
    let later = update id ch db in
    if r.id == id then some (apply ch r, apply ch r ∷ db) else behind r later

abbrev pub store : Collection
store = record { find = filter; insert_one = insert; find_one_and_update = update }

filter_sound :
    (p : Request → Bool) (db : List Request) (r : Request) (rest : List Request)
    → filter p db ≡ r ∷ rest
    → (p r ≡ true) × ((t : Request → Bool) → t r ≡ true → 1 ≤ count_if t db)
filter_sound p [] r rest h = absurd (nil≢cons h)
filter_sound p (s ∷ db) r rest h = elim (Bool-cases (p s)) [
  | inl e ↦
      let same = head-eq_of_cons-eq (rw e at h) in
      (ap p (sym same) ∙ e, λ t k. rw (ap t same ∙ k) (omega arith))
  | inr e ↦
      let (passes, is_in) = filter_sound p db r rest (rw e at h) in
      (passes, λ t k. omega (arith, is_in t k))
]

filter_complete : (p : Request → Bool) (db : List Request) → filter p db ≡ [] → count_if p db ≡ 0
filter_complete p [] h = refl
filter_complete p (s ∷ db) h = elim (Bool-cases (p s)) [
  | inl e ↦ absurd (cons-ne-nil _ _ (rw e at h))
  | inr e ↦ rw e (omega (arith, filter_complete p db (rw e at h)))
]

any_none : (p : Request → Bool) (db : List Request) → any p db ≡ false → count_if p db ≡ 0
any_none p [] h = refl
any_none p (s ∷ db) h = elim (Bool-cases (p s)) [
  | inl e ↦ absurd (true≢false (rw e at h))
  | inr e ↦ rw e (omega (arith, any_none p db (rw e at h)))
]

apply-IsUpdated : (ch : Changes) (r : Request) → IsUpdated r (apply ch r) ch
apply-IsUpdated ch r = record {
  id_kept = refl;
  username_kept = λ h. ap (text_or r.username) h;
  status_kept = λ h. ap (text_or r.status) h;
  status_set = λ s h. ap (text_or r.status) h;
  admin_set = λ s h. ap (text_or r.admin) h;
}

update-IsReplaced :
    (id : String) (ch : Changes) (db after rest : List Request) (old new : Request)
    → filter (has_id id) db ≡ old ∷ rest
    → update id ch db ≡ some (new, after)
    → (apply ch old ≡ new) × IsReplaced old (apply ch old) db after
update-IsReplaced id ch [] after rest old new found h = absurd (nil≢cons found)
update-IsReplaced id ch (r ∷ db) after rest old new found h = elim (Bool-cases (r.id == id)) [
  | inl e ↦
      let same = head-eq_of_cons-eq (rw e at found) in
      let made = some-injective _ _ (rw e at h) in
      subst (λ o. (apply ch o ≡ new) × IsReplaced o (apply ch o) (r ∷ db) after) same
        (
          ap (λ x. x.0) made,
          λ p.
              subst (λ l. count_if p l + bit (p r) ≡ count_if p (r ∷ db) + bit (p (apply ch r)))
                (ap (λ x. x.1) made) (ground arith),
        )
  | inr e ↦ elim (Option-cases (update id ch db)) [
    | inl n ↦ absurd (some-ne-none _ (sym (rw (e, n) at h)))
    | inr ((new', after'), u) ↦
        let made = some-injective _ _ (rw (e, u) at h) in
        let (here, one) = update-IsReplaced id ch db after' rest old new' (rw e at found) u in
        (
          here ∙ ap (λ x. x.0) made,
          λ p.
              subst (λ l. count_if p l + bit (p old) ≡ count_if p (r ∷ db) + bit (p (apply ch old)))
                (ap (λ x. x.1) made) (omega (arith, one p)),
        )
  ]
]

insert_counts :
    (r : Request) (db after : List Request)
    → insert r db ≡ some after
    → (count_if (has_id r.id) db ≡ 0)
      × ((p : Request → Bool) → count_if p after ≡ count_if p db + bit (p r))
insert_counts r db after h = elim (Bool-cases (any (has_id r.id) db)) [
  | inl e ↦ absurd (some-ne-none _ (sym (rw e at h)))
  | inr e ↦ (
    any_none (has_id r.id) db e,
    λ p.
        subst (λ l. count_if p l ≡ count_if p db + bit (p r)) (some-injective _ _ (rw e at h))
          (ground arith),
  )
]

none_any : (p : Request → Bool) (db : List Request) → count_if p db ≡ 0 → any p db ≡ false
none_any p [] h = refl
none_any p (s ∷ db) h = elim (Bool-cases (p s)) [
  | inl e ↦ absurd (omega (arith, rw e at h))
  | inr e ↦ rw e (none_any p db (omega (arith, rw e at h)))
]

insert_fresh :
    (r : Request) (db : List Request)
    → count_if (has_id r.id) db ≡ 0
    → (after : List Request) × (insert r db ≡ some after)
insert_fresh r db h = (r ∷ db, rw (none_any (has_id r.id) db h) refl)

pub store-IsCollection : IsCollection store
store-IsCollection = record {
  find_sound = λ p db r rest h. (filter_sound p db r rest h).0;
  found_in = λ p db r rest h. (filter_sound p db r rest h).1;
  find_complete = filter_complete;
  inserted = insert_counts;
  insertable = insert_fresh;
  replaced = λ id ch db after rest old new unique found h.
      let (same, one) = update-IsReplaced id ch db after rest old new found h in
      subst (λ n. IsUpdated old n ch × IsReplaced old n db after) same
        (apply-IsUpdated ch old, one);
}
