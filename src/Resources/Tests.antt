-- ===== src/Resources/Tests.antt =====
-- The selection of a release (src/resources.rs) at concrete headers, with versions that are compared
-- by their length.
use Prim.Native.Nat.{Ordering, compare}
use sirius_api_proxy.Base.{
  ◌≡◌, refl, String, true, none, some, List, [], ◌∷◌, all, ok, arith, byte_len,
}
use sirius_api_proxy.Resources.Selection.{
  Release, live, Readers, insert_candidate, add_release, candidates, newest, choose_live, choose,
}
use sirius_api_proxy.Resources.Greatest.{In, le, is_bounded, choose_greatest}

abbrev readers : Readers
readers = record {
  read_document = λ s. none;
  is_version = λ s. true;
  compare_versions = λ a b. compare (byte_len a) (byte_len b);
}

abbrev release : String → Release
release minimum = record { version = "v"; ios = some "h"; android = none; minimum = some minimum }

abbrev releases : List Release
releases = release "22" ∷ release "4444" ∷ release "1" ∷ []

le_refl : (a : String) → le readers a a ≡ true
le_refl a = ground arith

le_flip : (a b : String) → readers.compare_versions a b ≡ Ordering.gt → le readers b a ≡ true
le_flip a b h = ground (arith, h)

le_trans : (a b c : String) → le readers a b ≡ true → le readers b c ≡ true → le readers a c ≡ true
le_trans a b c h g = ground (arith, h, g)

chosen_lem : choose readers "333" (live (some releases)) ≡ ok (release "22")
unfolding choose choose_live candidates add_release insert_candidate newest
chosen_lem = refl

choose_greatest_example :
    (m : String) × ((release "22").minimum ≡ some m)
    × In (release "22") releases
    × (le readers m "333" ≡ true)
    × (all (is_bounded readers "333" m) releases ≡ true)
choose_greatest_example =
    choose_greatest readers le_refl le_flip le_trans "333" releases (release "22") chosen_lem
