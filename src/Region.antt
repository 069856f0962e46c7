-- ===== src/Region.antt =====
-- src/region.rs: the regions of the game and their names. The atomic flags of the deprecation
-- warning are one record that `from_config_name` and the warning pass on.
pub mod Names
use sirius_api_proxy.Base.{
  String, Bool, true, false, not, ◌||◌, Option, none, some, List, [], ◌∷◌, str_eq, if◌then◌else◌,
}

pub data Region : Type 0 where
  jp hk en kr cn : Region

pub data Platform : Type 0 where
  ios android : Platform

-- `Platform::name`
unfoldable pub platform_name : Platform → String
platform_name ios = "iOS"
platform_name android = "Android"

-- `==`
abbrev pub region_eq : Region → Region → Bool
region_eq jp jp = true
region_eq hk hk = true
region_eq en en = true
region_eq kr kr = true
region_eq cn cn = true
region_eq _ _ = false

abbrev pub deprecated_hk_alias : String
deprecated_hk_alias = "tw"

-- `DEPRECATED_ALIAS_USED` and `DEPRECATED_ALIAS_WARNED`.
pub record Flags : Type 0 where
  pub used : Bool
  pub warned : Bool

unfoldable pub warn_deprecated_alias : Flags → Flags × Bool
warn_deprecated_alias f =
    if not f.used then (f, false) else (record f { warned = true }, not f.warned)

unfoldable pub is_deprecated_alias : String → Bool
is_deprecated_alias name = str_eq name deprecated_hk_alias

unfoldable pub name : Region → String
name jp = "jp"
name hk = "hk"
name en = "en"
name kr = "kr"
name cn = "cn"

unfoldable pub find_region : (Region → Bool) → List Region → Option Region
find_region p [] = none
find_region p (r ∷ regions) = let rest = find_region p regions in if p r then some r else rest

unfoldable pub from_name : String → Option Region
from_name text = find_region (λ r. str_eq (name r) text) (jp ∷ hk ∷ en ∷ kr ∷ cn ∷ [])

unfoldable pub from_config_name : String → Flags → Flags × Option Region
from_config_name text f =
    if is_deprecated_alias text then (record f { used = true }, some hk) else (f, from_name text)

unfoldable pub from_recorded_name : String → Option Region
from_recorded_name text = if is_deprecated_alias text then some hk else from_name text

unfoldable pub family : Region → String
family jp = "jp"
family cn = "cn"
family _ = "global"

unfoldable pub area_id : Region → Option String
area_id hk = some "2"
area_id en = some "3"
area_id kr = some "4"
area_id _ = none

unfoldable pub protocol_version : Region → String
protocol_version jp = "1.0.4"
protocol_version cn = ""
protocol_version _ = "1.0.3"
