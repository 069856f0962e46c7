-- ===== src/MasterAdmission.antt =====
-- src/master_admission.rs: the admission of Master table reads, and the body that keeps a permit
-- while it hands a table on. The semaphore and the inner body are parameters: whether a permit came
-- in time, and what each poll of the body gives. A body is a list of polls that ends after the last.
pub mod Delivery
mod Tests
use sirius_api_proxy.Base.{
  ℕ, zero, suc, ◌+◌, ◌-◌, min, String, Bool, true, false, not, ◌&&◌, Option, none, some, List, [],
  ◌∷◌, ltb, leb, ◌==◌, length, take, if◌then◌else◌, Result, ok, err,
}
use sirius_api_proxy.Error.{AppError, master_unavailable}

abbrev pub warn_every_secs : ℕ
warn_every_secs = 60

-- `CHUNK`
abbrev pub max_chunk : ℕ
max_chunk = 65536

-- The time that a rejection stores in `LAST` and logs at, if it logs. `elapsed` and `last` are the
-- readings of the clock and of `LAST`; `unchanged` is whether no other rejection has stored its time
-- since.
unfoldable pub warn_busy : (elapsed last : ℕ) → (unchanged : Bool) → Option ℕ
warn_busy elapsed last unchanged =
    let now = elapsed + warn_every_secs in
    if leb (last + warn_every_secs) now && unchanged then some now else none

-- `acquired` is whether a permit came within the gate's wait.
unfoldable pub admit : (acquired : Bool) → ℕ → ℕ → Bool → Result Unit AppError × Option ℕ
admit true elapsed last unchanged = (ok tt, none)
admit false elapsed last unchanged = (err master_unavailable, warn_busy elapsed last unchanged)

pub data Frame : Type 0 where
  data_frame : List ℕ → Frame
  trailers : List (String × String) → Frame

-- What a poll gives: nothing yet, the end, an error or a frame.
pub data Poll : Type 0 where
  waiting finished : Poll
  failed : String → Poll
  frame : Frame → Poll

abbrev pub Body : Type 0
Body = List Poll

pub record Held : Type 0 where
  pub inner : Body
  pub pending : List ℕ

abbrev pub is_empty : {A : Type 0} → List A → Bool
is_empty [] = true
is_empty (x ∷ xs) = false

-- `Buf::advance`
unfoldable pub advance : ℕ → List ℕ → List ℕ
advance zero bytes = bytes
advance (suc n) [] = []
advance (suc n) (b ∷ bytes) = advance n bytes

unfoldable pub hand_on : Held → Held × Poll
hand_on held =
    let n = min (length held.pending) max_chunk in
    (record held { pending = advance n held.pending }, frame (data_frame (take n held.pending)))

abbrev pub held_of : Body → List ℕ → Held
held_of inner pending = record { inner = inner; pending = pending }

unfoldable pub poll_inner : Body → Held × Poll
poll_inner [] = (held_of [] [], finished)
poll_inner (frame (data_frame bytes) ∷ rest) =
    if ltb max_chunk (length bytes)
    then hand_on (held_of rest bytes)
    else (held_of rest [], frame (data_frame bytes))
poll_inner (p ∷ rest) = (held_of rest [], p)

unfoldable pub poll_frame : Held → Held × Poll
poll_frame held = if is_empty held.pending then poll_inner held.inner else hand_on held

unfoldable pub is_end_stream : (inner_ended : Bool) → Held → Bool
is_end_stream inner_ended held = is_empty held.pending && inner_ended

pub record SizeHint : Type 0 where
  pub lower : ℕ
  pub upper : Option ℕ

abbrev pub raised : ℕ → Option ℕ → Option ℕ
raised n none = none
raised n (some upper) = some (upper + n)

unfoldable pub size_hint : SizeHint → Held → SizeHint
size_hint inner held = record {
  lower = inner.lower + length held.pending;
  upper = raised (length held.pending) inner.upper;
}

pub data ResponseBody : Type 0 where
  plain : Body → ResponseBody
  permitted : Held → ResponseBody

-- A 200 carries the permit in its body; any other response releases it.
unfoldable pub attach : ℕ → Body → ResponseBody
attach status inner = if status == 200 then permitted (held_of inner []) else plain inner

-- The function of the same name, for a route that may have admitted nothing.
unfoldable pub attach_admitted : (admitted : Bool) → ℕ → Body → ResponseBody
attach_admitted true status inner = attach status inner
attach_admitted false status inner = plain inner

-- The connection polls the body some times.
unfoldable pub polls : ℕ → Held → Held × List Poll
polls zero held = (held, [])
polls (suc n) held =
    let (next, p) = poll_frame held in let (after, ps) = polls n next in (after, p ∷ ps)
