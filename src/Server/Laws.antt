-- ===== src/Server/Laws.antt =====
-- What the handlers rely on of the collection: MongoDB's queries, its insertion, which refuses an
-- id that is there and takes any other (db.go makes no unique index but that of the ids), and its
-- update of one document.
use mc_gatekeeper.Prelude.{
  ℕ, ◌+◌, ◌≤◌, String, Bool, none, some, List, [], ◌∷◌, ◌≡◌, if◌then◌else◌, count_if,
}
use mc_gatekeeper.Js.{str}
use mc_gatekeeper.Types.{Request}
use mc_gatekeeper.Server.{Collection, Changes, value, find_setting, has_id}

abbrev pub bit : Bool → ℕ
bit b = if b then 1 else 0

-- `$set` of some fields.
pub record IsUpdated (old new : Request) (ch : Changes) : Type 0 where
  pub id_kept : new.id ≡ old.id
  pub username_kept : find_setting "username" ch ≡ none → new.username ≡ old.username
  pub status_kept : find_setting "status" ch ≡ none → new.status ≡ old.status
  pub status_set : (s : String) → find_setting "status" ch ≡ some (value (str s)) → new.status ≡ s
  pub admin_set : (s : String) → find_setting "admin" ch ≡ some (value (str s)) → new.admin ≡ s

-- One document has been replaced, and none else touched.
abbrev pub IsReplaced : Request → Request → List Request → List Request → Type 0
IsReplaced old new before after =
    (p : Request → Bool) → count_if p after + bit (p old) ≡ count_if p before + bit (p new)

pub record IsCollection (c : Collection) : Type 0 where
  pub find_sound :
      (p : Request → Bool) (db : List Request) (r : Request) (rest : List Request)
      → c.find p db ≡ r ∷ rest
      → p r ≡ Bool.true
  pub found_in :
      (p : Request → Bool) (db : List Request) (r : Request) (rest : List Request)
      → c.find p db ≡ r ∷ rest
      → (t : Request → Bool) → t r ≡ Bool.true
      → 1 ≤ count_if t db
  pub find_complete :
      (p : Request → Bool) (db : List Request) → c.find p db ≡ [] → count_if p db ≡ 0
  pub inserted :
      (r : Request) (db after : List Request)
      → c.insert_one r db ≡ some after
      → (count_if (has_id r.id) db ≡ 0)
        × ((p : Request → Bool) → count_if p after ≡ count_if p db + bit (p r))
  pub insertable :
      (r : Request) (db : List Request)
      → count_if (has_id r.id) db ≡ 0
      → (after : List Request) × (c.insert_one r db ≡ some after)
  pub replaced :
      (id : String) (ch : Changes) (db after rest : List Request) (old new : Request)
      → count_if (has_id id) db ≤ 1
      → c.find (has_id id) db ≡ old ∷ rest
      → c.find_one_and_update id ch db ≡ some (new, after)
      → IsUpdated old new ch × IsReplaced old new db after
