-- ===== src/Server/Minecraft.antt =====
-- server/server/handler.minecraft.go: the address of a player's skin. What Mojang replies to a
-- request is a parameter, a failure without a reply included, and so are the decoders: a JSON text
-- that is not read is none, a field that it lacks is empty, and `decode_skin_url` is what
-- `json.Unmarshal`, whose error is dropped, leaves of the address.
use mc_gatekeeper.Prelude.{
  ℕ, String, ◌==◌, nat_eq, Option, none, some, List, [], ◌∷◌, if◌then◌else◌,
}

pub data Answer : Type 0 where
  no_reply : Answer
  replied : ℕ → String → Answer

pub record Property : Type 0 where
  pub name : String
  pub value : String

-- The two requests, by the last part of the path, and the decoders.
pub record Mojang : Type 0 where
  pub users_profiles : String → Answer
  pub session_profile : String → Answer
  pub decode_uuid : String → Option String
  pub decode_profile : String → Option (List Property)
  pub decode_base64 : String → Option String
  pub decode_skin_url : String → String

-- The errors by their type; `other_error` is any that is neither.
pub data Failure : Type 0 where
  rate_limit_error property_not_found_error other_error : Failure

-- A value or an error.
pub data Lookup : Type 0 where
  found : String → Lookup
  failed : Failure → Lookup

-- The error of a reply whose status is not 200.
abbrev pub status_error : ℕ → Failure
status_error status = if nat_eq status 429 then rate_limit_error else other_error

-- `getUUID`
unfoldable pub get_uuid : Mojang → String → Lookup
get_uuid m username = elim (m.users_profiles username) [
  | no_reply ↦ failed other_error
  | replied status body ↦
      if nat_eq status 200
      then elim (m.decode_uuid body) [ none ↦ failed other_error | some id ↦ found id ]
      else failed (status_error status)
]

-- The loop over the properties.
unfoldable pub find_textures : List Property → Lookup
find_textures [] = failed property_not_found_error
find_textures (prop ∷ properties) =
    let later = find_textures properties in
    if prop.name == "textures" then found prop.value else later

-- `getSkinBase64FromProfile`
unfoldable pub get_skin_base64_from_profile : Mojang → String → Lookup
unfolding find_textures
get_skin_base64_from_profile m uuid = elim (m.session_profile uuid) [
  | no_reply ↦ failed other_error
  | replied status body ↦
      if nat_eq status 200
      then elim (m.decode_profile body) [
        | none ↦ failed other_error
        | some properties ↦ find_textures properties
      ]
      else failed (status_error status)
]

-- `getSkinURL`
unfoldable pub get_skin_url : Mojang → String → Lookup
get_skin_url m encoded_val = elim (m.decode_base64 encoded_val) [
  | none ↦ failed other_error
  | some content ↦ found (m.decode_skin_url content)
]

-- A bare status, or 200 with the address.
pub data SkinResponse : Type 0 where
  bare : ℕ → SkinResponse
  skin : String → SkinResponse

abbrev pub profile_failed : Failure → SkinResponse
profile_failed rate_limit_error = bare 429
profile_failed _ = bare 500

-- `handleGetSkinURLByUsername`
unfoldable pub handle_get_skin_url_by_username : Mojang → String → SkinResponse
unfolding get_uuid get_skin_base64_from_profile get_skin_url
handle_get_skin_url_by_username m username = elim (get_uuid m username) [
  | failed _ ↦ bare 400
  | found uuid ↦ elim (get_skin_base64_from_profile m uuid) [
    | failed e ↦ profile_failed e
    | found val ↦ elim (get_skin_url m val) [ failed _ ↦ bare 500 | found url ↦ skin url ]
  ]
]
