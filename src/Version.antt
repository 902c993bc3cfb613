-- ===== src/Version.antt =====
-- internal/version/version.go: the build information, and Ping of internal/service/service.go.
use license_service.Prelude.{
  ℕ, leb, Text, codes, str_eq, List, [], ◌∷◌, Option, none, some, if◌then◌else◌, take, length, ◌&&◌,
}

-- `Info`
pub record Info : Type 0 where
  pub version : Text
  pub git_commit : Text
  pub git_branch : Text
  pub build_time : Text
  pub go_version : Text

-- The loop over the settings of the build: the last revision of at least seven bytes counts.
unfoldable pub revision_of : List (Text × Text) → Text → Text
revision_of [] commit = commit
revision_of ((key, value) ∷ settings) commit =
    revision_of settings
      (if str_eq key (codes "vcs.revision") && leb 7 (length value) then take 7 value else commit)

-- `Get` on the values of the linker; `build` is what `debug.ReadBuildInfo` gives.
unfoldable pub get_info : Info → Option (List (Text × Text)) → Info
get_info i none = i
get_info i (some settings) =
    if str_eq i.git_commit (codes "unknown")
    then record i { git_commit = revision_of settings i.git_commit }
    else i

-- `commonv1.Pong`; the times are in milliseconds.
pub record Pong : Type 0 where
  pub service : Text
  pub info : Info
  pub status : Text
  pub now : ℕ
  pub started_at : ℕ

-- `Ping`
unfoldable pub ping : Info → Option (List (Text × Text)) → ℕ → ℕ → Pong
ping i build now started_at = record {
  service = codes "license-service";
  info = get_info i build;
  status = codes "SERVING";
  now = now;
  started_at = started_at;
}
