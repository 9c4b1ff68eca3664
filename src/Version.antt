-- ===== src/Version.antt =====
-- pkg/version/version.go: the build information, which the linker sets.
use old_broker_repo.Prelude.{Text, codes, ◌++◌}

-- The variables that the linker sets.
pub record BuildVars : Type 0 where
  pub build_version : Text
  pub build_id : Text
  pub build_status : Text

abbrev pub unknown : BuildVars
unknown = record {
  build_version = codes "unknown";
  build_id = codes "unknown";
  build_status = codes "unknown";
}

pub record BuildInfo : Type 0 where
  pub version : Text
  pub id : Text
  pub status : Text

-- `fmt.Sprintf("version: %s (build: %s, status: %s)", b.Version, b.ID, b.Status)`
unfoldable pub string : BuildInfo → Text
string b =
    codes "version: "
    ++ b.version
    ++ codes " (build: "
    ++ b.id
    ++ codes ", status: "
    ++ b.status
    ++ codes ")"

-- `Info` after `init`.
unfoldable pub init : BuildVars → BuildInfo
init vars = record { version = vars.build_version; id = vars.build_id; status = vars.build_status }
