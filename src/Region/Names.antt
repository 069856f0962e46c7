-- ===== src/Region/Names.antt =====
-- Names of regions (src/region.rs).
use sirius_api_proxy.Base.{
  String, Bool, true, false, ◌≡◌, ◌↔◌, ◌⊎◌, inl, inr, refl, ap, some, arith, str_eq_iff, Bool-cases,
  List, [], ◌∷◌,
}
use mathlib.Core.Option.{some-injective}
use sirius_api_proxy.Region.{
  Region, jp, hk, en, kr, cn, name, from_name, find_region, from_config_name, is_deprecated_alias,
  deprecated_hk_alias, Flags,
}

from_name-name : (r : Region) → from_name (name r) ≡ some r
unfolding from_name name find_region
from_name-name jp = refl
from_name-name hk = refl
from_name-name en = refl
from_name-name kr = refl
from_name-name cn = refl

find_region-passes :
    (p : Region → Bool) (rs : List Region) (r : Region) → find_region p rs ≡ some r → p r ≡ true
unfolding find_region
find_region-passes p [] r h = absurd (ground (arith, h))
find_region-passes p (q ∷ rs) r h = elim (Bool-cases (p q)) [
  | inl e ↦ let at : some q ≡ some r = simp e at h in rw (← some-injective q r at) e
  | inr e ↦ find_region-passes p rs r (simp e at h)
]

-- Parsing accepts a text as a region exactly when it is the name of that region.
pub from_name_iff : (text : String) (r : Region) → (from_name text ≡ some r) ↔ (name r ≡ text)
from_name_iff text r = (
  λ h. (str_eq_iff (name r) text).0 (unfold from_name in find_region-passes _ _ r h),
  λ h. rw (← h) (from_name-name r),
)

name-canonical : (r : Region) → is_deprecated_alias (name r) ≡ false
unfolding is_deprecated_alias name
name-canonical jp = refl
name-canonical hk = refl
name-canonical en = refl
name-canonical kr = refl
name-canonical cn = refl

is_deprecated_alias_iff :
    (text : String) → (is_deprecated_alias text ≡ true) ↔ (text ≡ deprecated_hk_alias)
unfolding is_deprecated_alias
is_deprecated_alias_iff text = str_eq_iff text deprecated_hk_alias

-- A configuration name is read as a region exactly when it is that region's name, or the region is
-- hk and the name is the deprecated alias; only the alias raises the flag of its use.
pub from_config_name_iff :
    (text : String) (f : Flags) (r : Region)
    → (((from_config_name text f).1 ≡ some r)
        ↔ ((name r ≡ text) ⊎ ((r ≡ hk) × (text ≡ deprecated_hk_alias))))
      × (((from_config_name text f).0.used ≡ true)
          ↔ ((f.used ≡ true) ⊎ (text ≡ deprecated_hk_alias)))
unfolding from_config_name
from_config_name_iff text f r = elim (Bool-cases (is_deprecated_alias text)) [
  | inl e ↦
      let t : text ≡ deprecated_hk_alias = (is_deprecated_alias_iff text).0 e in
      (
        (
          λ h. inr (ground (arith, e, h), t),
          λ h. elim h [
            | inl n ↦ absurd (ground (arith, e, n, name-canonical r, ap is_deprecated_alias n))
            | inr (same, _) ↦ rw e (rw same refl)
          ],
        ),
        (λ h. inr t, λ h. rw e refl),
      )
  | inr e ↦
      let t : ¬ text ≡ deprecated_hk_alias =
        λ same. ground (arith, e, (is_deprecated_alias_iff text).1 same) in
      (
        (
          λ h. inl ((from_name_iff text r).0 (rw e at h)),
          λ h. elim h [
            | inl n ↦ rw e ((from_name_iff text r).1 n)
            | inr (_, same) ↦ absurd (t same)
          ],
        ),
        (λ h. inl (rw e at h), λ h. elim h [ inl u ↦ rw e u | inr same ↦ absurd (t same) ]),
      )
]
