-- ===== src/Contract/CaptchaTests.antt =====
-- A captcha that Google confirms.
use mc_gatekeeper.Prelude.{String, Bool, true, ◌==◌, Option, some}
use mc_gatekeeper.Js.{Value, bool, obj, field, end}
use mc_gatekeeper.Application
use mc_gatekeeper.Login

abbrev verified : String → Option String
verified token = some token

abbrev decode : String → Option Bool
decode body = some (body == "solved")

abbrev body : Value
body = obj (field "success" (bool true) end)
