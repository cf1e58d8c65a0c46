-- ===== src/Resolver/Session.antt =====
-- Sources/Resolver/Resolver.cpp: the live session.
use render_studio_kit.Shared.{[], ◌++◌, Option, none, some, is_nil, if◌then◌else◌}
use render_studio_kit.Shared.Texts.{Text, codes, contains, replace_all}

-- RenderStudio::Kit::LiveSessionInfo
pub record LiveSessionInfo : Type 0 where
  pub live_url : Text
  pub storage_url : Text
  pub channel_id : Text
  pub user_id : Text

-- The port of the local server instead of its path
unfoldable pub replace_local : Text → LiveSessionInfo → LiveSessionInfo
replace_local host info =
    if contains host info.live_url
    then record info {
      live_url = replace_all (codes "/workspace/live") (codes ":52702") info.live_url;
    }
    else info

-- RenderStudioResolver::StartLiveMode: the session that is remembered, and the URL that the file format
-- connects to
unfoldable pub start_live_mode : LiveSessionInfo → LiveSessionInfo × Text
start_live_mode info =
    let copy = replace_local (codes "127.0.0.1") (replace_local (codes "localhost") info) in
    (copy, copy.live_url ++ (codes "/" ++ (copy.channel_id ++ (codes "/?user=" ++ copy.user_id))))

-- RenderStudioResolver::GetLocalStorageUrl: the session, if there is one, and the environment variable
-- STORAGE_SERVER_URL, if it is set
unfoldable pub get_local_storage_url : Option LiveSessionInfo → Option Text → Text
get_local_storage_url session variable =
    let otherwise : Text = elim variable [
      | some url ↦ url
      | none ↦ codes "https://renderstudio.matlib.gpuopen.com/workspace/storage"
    ] in
    elim session [
      | none ↦ otherwise
      | some info ↦ if is_nil info.storage_url then otherwise else info.storage_url
    ]

-- RenderStudioResolver::GetCurrentUserId
unfoldable pub get_current_user_id : Option LiveSessionInfo → Text
get_current_user_id none = []
get_current_user_id (some info) = info.user_id
