-- ===== src/Engine/Load/Access.antt =====
-- `preflight_hf_access`: a short request to the HuggingFace Hub before any weights are downloaded.
use Prim.Native.String.{String}
use inference_x.Prelude.{Bool, false, not, ◌&&◌, Option, none, some, str_eq, if◌then◌else◌}
use inference_x.Engine.Load.{is_hf_hub_model_path}

-- What `model_info` does: it tells whether the repository is gated and private, or raises.
pub data InfoAnswer : Type 0 where
  info : Bool → Bool → InfoAnswer
  no_repository info_raises : InfoAnswer

-- What `hf_hub_download` of the config does.
pub data DownloadAnswer : Type 0 where
  downloaded gated_repository no_repository download_raises : DownloadAnswer

pub record HuggingFaceHub : Type 0 where
  pub model_info : String → Option String → InfoAnswer
  pub hf_hub_download : String → Option String → DownloadAnswer

-- The RuntimeErrors, and any other exception of the client, which is passed on.
pub data AccessError : Type 0 where
  not_found not_approved gated client_error : AccessError

-- `if token`
abbrev is_set : Option String → Bool
is_set none = false
is_set (some token) = not (str_eq token "")

unfoldable pub after_download : Option String → DownloadAnswer → Option AccessError
after_download token downloaded = none
after_download token gated_repository = if is_set token then some not_approved else some gated
after_download token DownloadAnswer.no_repository = some not_found
after_download token download_raises = some client_error

unfoldable pub after_info :
    HuggingFaceHub → String → Option String → InfoAnswer → Option AccessError
unfolding after_download
after_info hub path token InfoAnswer.no_repository = some not_found
after_info hub path token info_raises = some client_error
after_info hub path token (info is_gated is_private) =
    if not is_gated && not is_private
    then none
    else after_download token (hub.hf_hub_download path token)

-- The error that is raised, if any; without the client's library nothing is checked.
unfoldable pub preflight_hf_access :
    Option HuggingFaceHub → (String → Bool) → String → Option String → Option AccessError
unfolding after_info
preflight_hf_access none is_absolute path token = none
preflight_hf_access (some hub) is_absolute path token =
    if is_hf_hub_model_path is_absolute path
    then after_info hub path token (hub.model_info path token)
    else none
