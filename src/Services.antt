-- ===== src/Services.antt =====
-- app/src/service: the HTTP request that each method of the services hands to axios.
-- `api_host` is `API_HOST`; an `axios` config holds at most the Authorization header.
use mc_gatekeeper.Prelude.{String, Option, none, some}
use mc_gatekeeper.Js.{Value, undefined, str, obj, end, field}
use mc_gatekeeper.Js.Text.{to_text}
use Prim.Native.String.{◌++◌}

pub data Verb : Type 0 where
  get post patch : Verb

pub record HttpRequest : Type 0 where
  pub verb : Verb
  pub url : String
  pub body : Value
  pub authorization : Option String

abbrev plain : Verb → String → Value → HttpRequest
plain verb url body = record { verb = verb; url = url; body = body; authorization = none }

abbrev decision : String → String → Value
decision status note = obj (field "status" (str status) (field "note" (str note) end))

-- MinecraftService.getQRCodeContent, an external service
unfoldable pub get_qr_code_content : Value → HttpRequest
unfolding to_text
get_qr_code_content image_url =
    plain get ("https://api.qrserver.com/v1/read-qr-code/?fileurl=" ++ to_text image_url) undefined

module _ (api_host : String) where
  -- MinecraftService.getSkinImage
  unfoldable pub get_skin_image : String → HttpRequest
  get_skin_image username =
      plain get (api_host ++ "/api/v1/minecraft/user/" ++ username ++ "/skin/") undefined

  -- RecaptchaService.verify
  unfoldable pub verify : Value → HttpRequest
  verify recapcha_token =
      plain post (api_host ++ "/api/v1/recaptcha/verify")
        (obj (field "recapchaToken" recapcha_token end))

  -- AuthService.login
  unfoldable pub login : Value → HttpRequest
  login credentials = plain post (api_host ++ "/api/v1/auth/") credentials

  -- RequestsService.getAllRequests
  unfoldable pub get_all_requests : String → HttpRequest
  get_all_requests header = record {
    verb = get;
    url = api_host ++ "/api/v1/internal/requests";
    body = undefined;
    authorization = some header;
  }

  -- RequestsService.handleStatusChangeByAdmin
  unfoldable pub handle_status_change_by_admin : String → String → String → HttpRequest
  handle_status_change_by_admin request_id header new_status = record {
    verb = patch;
    url = api_host ++ "/api/v1/internal/requests/" ++ request_id;
    body = obj (field "status" (str new_status) end);
    authorization = some header;
  }

  -- RequestsService.getStatsEventSource: the URL of the stream
  unfoldable pub get_stats_event_source : String
  get_stats_event_source = api_host ++ "/api/v1/requests/stats/events"

  -- RequestsService.createRequest
  unfoldable pub create_request : Value → HttpRequest
  create_request content = plain post (api_host ++ "/api/v1/requests/") content

  -- RequestsService.getRequestByEncodedID
  unfoldable pub get_request_by_encoded_id : String → HttpRequest
  get_request_by_encoded_id encoded_id =
      plain get (api_host ++ "/api/v1/requests/" ++ encoded_id) undefined

  -- RequestsService.approveRequest
  unfoldable pub approve_request : String → String → String → HttpRequest
  approve_request request_id adm_token note =
      plain patch (api_host ++ "/api/v1/requests/" ++ request_id ++ "?adm=" ++ adm_token)
        (decision "Approved" note)

  -- RequestsService.denyRequest
  unfoldable pub deny_request : String → String → String → HttpRequest
  deny_request request_id adm_token note =
      plain patch (api_host ++ "/api/v1/requests/" ++ request_id ++ "?adm=" ++ adm_token)
        (decision "Denied" note)

  -- RequestsService.verifyAdminToken
  unfoldable pub verify_admin_token : String → String → HttpRequest
  verify_admin_token id_token adm_token =
      plain get (api_host ++ "/api/v1/verify/" ++ id_token ++ "?adm=" ++ adm_token) undefined
