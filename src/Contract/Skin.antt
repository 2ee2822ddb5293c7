-- ===== src/Contract/Skin.antt =====
-- A username's check from Mojang's replies to the form: server/server/handler.minecraft.go and
-- app/src/components/Application.js.
use mc_gatekeeper.Prelude.{ℕ, String, false, some, ◌≡◌, refl, ap, subst, ◌≤◌}
use mc_gatekeeper.Js.{str, obj, field, end, Outcome, fulfilled, rejected}
use mc_gatekeeper.Server.Minecraft.{
  Mojang, replied, Failure, found, failed, rate_limit_error, get_uuid, get_skin_base64_from_profile,
  get_skin_url, SkinResponse, bare, skin, handle_get_skin_url_by_username,
}
use mc_gatekeeper.Application.{
  AppPage, on_skin_image, skin_failed, err_rate_limit, err_invalid_username,
}

-- How axios settles the promise for a response that arrives: a status below 200 or from 300 on rejects.
pub data Settles : SkinResponse → Outcome → Type 0 where
  resolves :
      (url : String)
      → Settles
          (skin url)
          (fulfilled 200 (obj (field "skin" (obj (field "url" (str url) end)) end)))
  rejects : (status : ℕ) → 300 ≤ status → Settles (bare status) (rejected (some status))

-- Mojang knows the account, and its textures hold no address of a skin.
abbrev pub HasNoSkin : Mojang → String → Type 0
HasNoSkin m username =
    (uuid : String) × (val : String) × (get_uuid m username ≡ found uuid)
    × (get_skin_base64_from_profile m uuid ≡ found val)
    × (get_skin_url m val ≡ found "")

-- Looking the account up fails.
abbrev pub IsUnknown : Mojang → String → Type 0
IsUnknown m username = (e : Failure) × (get_uuid m username ≡ failed e)

-- Mojang knows the account and limits the rate of the requests for its profile.
abbrev pub IsLimited : Mojang → String → Type 0
IsLimited m username =
    (uuid : String) × (get_uuid m username ≡ found uuid)
    × (get_skin_base64_from_profile m uuid ≡ failed rate_limit_error)

address : SkinResponse → String
address (bare status) = ""
address (skin url) = url

module _ (m : Mojang) (username : String) where
  handle-unknown : IsUnknown m username → handle_get_skin_url_by_username m username ≡ bare 400
  unfolding handle_get_skin_url_by_username
  handle-unknown (e, fails) = simp (fails, handle_get_skin_url_by_username) refl

  handle-limited : IsLimited m username → handle_get_skin_url_by_username m username ≡ bare 429
  unfolding handle_get_skin_url_by_username
  handle-limited (uuid, known, limited) =
      simp (known, limited, handle_get_skin_url_by_username) refl

-- What a settled promise of a bare status is.
bare-rejected : (status : ℕ) (o : Outcome) → Settles (bare status) o → o ≡ rejected (some status)
bare-rejected status o (rejects _ high) = refl

module _ (t : String → String) (m : Mojang) (username : String) (o : Outcome) (p : AppPage)
    (settled : Settles (handle_get_skin_url_by_username m username) o) where
  told :
      (status : ℕ)
      → handle_get_skin_url_by_username m username ≡ bare status
      → on_skin_image t username o p ≡ skin_failed t (some status) p
  unfolding on_skin_image
  told status e =
      ap (λ out. on_skin_image t username out p)
        (bare-rejected status o (subst (λ r. Settles r o) e settled))

  -- Where Mojang limits the rate of the requests for profiles, the form says so and the spinner
  -- stops.
  pub handle_get_skin_url_by_username-limited :
      IsLimited m username
      → let s = (on_skin_image t username o p).state in
        (s.error_msg ≡ err_rate_limit t) × (s.loading ≡ false)
  unfolding skin_failed
  handle_get_skin_url_by_username-limited limited =
      simp (told 429 (handle-limited m username limited), skin_failed) (refl, refl)

  -- Where looking the account up fails, the form says that the username is not valid and the spinner
  -- stops.
  pub handle_get_skin_url_by_username-unknown :
      IsUnknown m username
      → let s = (on_skin_image t username o p).state in
        (s.error_msg ≡ err_invalid_username t) × (s.loading ≡ false)
  unfolding skin_failed
  handle_get_skin_url_by_username-unknown unknown =
      simp (told 400 (handle-unknown m username unknown), skin_failed) (refl, refl)

  -- Where Mojang limits the rate of the requests for accounts, the form says that the username is
  -- not valid.
  pub handle_get_skin_url_by_username-limited_first :
      (body : String)
      → m.users_profiles username ≡ replied 429 body
      → let s = (on_skin_image t username o p).state in
        (s.error_msg ≡ err_invalid_username t) × (s.loading ≡ false)
  unfolding get_uuid
  handle_get_skin_url_by_username-limited_first body limits =
      handle_get_skin_url_by_username-unknown (rate_limit_error, simp (limits, get_uuid) refl)
