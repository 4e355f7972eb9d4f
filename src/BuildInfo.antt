-- ===== src/BuildInfo.antt =====
-- internal/buildinfo/buildinfo.go: the version that the programs print. What the Go toolchain put
-- into the binary (debug.ReadBuildInfo) is an argument.
use fwknop_go.Base.{
  Bool, false, not, ◌&&◌, Option, none, some, List, [], ◌∷◌, ◌++◌, Bytes, codes, eqb, if◌then◌else◌,
  length, ltb, take,
}
use fwknop_go.Spa.Validate.{is_empty}

pub record Info : Type 0 where
  pub version : Bytes
  pub commit : Bytes
  pub time : Bytes
  pub dirty : Bool

-- debug.BuildInfo, as far as it is read: the version of the main module, and the settings.
pub record Built : Type 0 where
  pub main_version : Bytes
  pub settings : List (Bytes × Bytes)

abbrev pub short_commit : Bytes → Bytes
short_commit v = if ltb 12 (length v) then take 12 v else v

-- One setting.
unfoldable pub add_setting : Bytes → Bytes → Info → Info
add_setting key v i =
    if eqb key (codes "vcs.revision")
    then record i { commit = short_commit v }
    else if eqb key (codes "vcs.time")
    then record i { time = v }
    else if eqb key (codes "vcs.modified")
    then record i { dirty = eqb v (codes "true") }
    else i

unfoldable pub add_settings : List (Bytes × Bytes) → Info → Info
add_settings [] i = i
add_settings ((key, v) ∷ rest) i = add_settings rest (add_setting key v i)

unfoldable pub with_module_version : Bytes → Info → Info
with_module_version v i =
    if is_empty i.commit && (not (is_empty v) && not (eqb v (codes "(devel)")))
    then record i { version = v }
    else i

abbrev pub default_info : Bytes → Info
default_info v = record { version = v; commit = []; time = []; dirty = false }

unfoldable pub get_info : Option Built → Bytes → Info
get_info none default_version = default_info default_version
get_info (some b) default_version =
    with_module_version b.main_version (add_settings b.settings (default_info default_version))

-- Info.String
unfoldable pub info_string : Info → Bytes
info_string i =
    let built : Bytes = if is_empty i.time then [] else codes ", built: " ++ i.time in
    let dirt : Bytes = if i.dirty then codes ", dirty" else [] in
    if is_empty i.commit
    then i.version
    else i.version ++ (codes " (commit: " ++ (i.commit ++ (built ++ (dirt ++ codes ")"))))
