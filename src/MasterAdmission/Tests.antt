-- ===== src/MasterAdmission/Tests.antt =====
-- A held table (src/master_admission.rs) at a concrete body.
use sirius_api_proxy.Base.{◌≡◌, ◌≤◌, true, [], ◌∷◌, all, arith}
use sirius_api_proxy.MasterAdmission.{Body, data_frame, trailers, waiting, frame, held_of, polls}
use sirius_api_proxy.MasterAdmission.Delivery.{received, passed, is_bounded, weight, polls-deliver}

abbrev table : Body
table =
    waiting
    ∷ frame (data_frame (1 ∷ 2 ∷ 3 ∷ []))
    ∷ frame (data_frame (4 ∷ []))
    ∷ frame (trailers (("k", "v") ∷ []))
    ∷ []

weight-le : weight table ≤ 10
unfolding weight
weight-le = omega arith

polls-deliver_example :
    (received (polls 10 (held_of table [])).1 ≡ received table)
    × (passed (polls 10 (held_of table [])).1 ≡ passed table)
    × (all is_bounded (polls 10 (held_of table [])).1 ≡ true)
polls-deliver_example = polls-deliver 10 table weight-le
