-- ===== src/Contract/SkinTests.antt =====
-- Checks of a username at concrete replies of Mojang.
use mc_gatekeeper.Prelude.{
  String, true, false, arith, ◌==◌, some, [], ◌∷◌, ◌≡◌, refl, if◌then◌else◌,
}
use mc_gatekeeper.Js.{Outcome, str, obj, field, end, fulfilled, rejected}
use mc_gatekeeper.Page.{mount}
use mc_gatekeeper.Server.Minecraft.{
  Answer, no_reply, replied, Mojang, get_uuid, handle_get_skin_url_by_username,
}
use mc_gatekeeper.Application.{initial, AppPage, on_skin_image}
use mc_gatekeeper.Contract.Skin.{Settles, rejects, handle_get_skin_url_by_username-limited_first}

abbrev keys : String → String
keys k = k

abbrev users : String → Answer
users username =
    if username == "steve"
    then replied 200 "7"
    else if username == "alex"
    then replied 429 ""
    else no_reply

-- A profile that holds two properties; its textures have no skin.
abbrev mojang : Mojang
mojang = record {
  users_profiles = users;
  session_profile = λ uuid. replied 200 "profile";
  decode_uuid = λ body. some body;
  decode_profile = λ body.
      some (record { name = "cape"; value = "c" } ∷ record { name = "textures"; value = "t" } ∷ []);
  decode_base64 = λ s. some s;
  decode_skin_url = λ content. "";
}

abbrev waiting : AppPage
waiting = record (mount initial) { state = record initial { username = "steve"; loading = true } }

abbrev no_address : Outcome
no_address = fulfilled 200 (obj (field "skin" (obj (field "url" (str "") end)) end))

limited-Settles : Settles (handle_get_skin_url_by_username mojang "alex") (rejected (some 400))
unfolding handle_get_skin_url_by_username get_uuid
limited-Settles = rejects 400 (omega arith)

handle_get_skin_url_by_username-limited_first_example :
    let s = (on_skin_image keys "alex" (rejected (some 400)) waiting).state in
    (s.error_msg ≡ "Splash.InvalidUsernameErrMsg") × (s.loading ≡ false)
handle_get_skin_url_by_username-limited_first_example =
    handle_get_skin_url_by_username-limited_first keys mojang "alex" (rejected (some 400)) waiting
      limited-Settles "" refl
