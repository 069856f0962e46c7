-- ===== src/PathHealth/Probe.antt =====
-- Tickets of the breaker (src/path_health.rs) as a step relation: any number of callers hold
-- tickets, report attempts and give their tickets back, interleaved in any way.
use sirius_api_proxy.Base.{
  ℕ, suc, ◌+◌, ◌≤◌, ◌<◌, ◌≡◌, ◌↔◌, ◌⊎◌, refl, String, Bool, true, false, Option, none, some, List,
  [], ◌∷◌, ◌++◌, arith, if◌then◌else◌,
}
use sirius_api_proxy.Accounts.Health.{PoolPolicy}
use sirius_api_proxy.PathHealth.{
  PathHealth, Outcome, healthy, fault, Ticket, new, record_outcome, admit, drop_ticket,
}

-- The path and the tickets that callers hold.
pub record World : Type 0 where
  pub path : PathHealth
  pub live : List Ticket

-- How a path is set up.
pub record PolicyStart : Type 0 where
  pub policy : PoolPolicy
  pub distinct : Bool

pub data Step (w w' : World) : Type 0 where
  attempted :
      (now : ℕ) (source : Option String) (outcome : Outcome)
      → w' ≡ record w { path = (record_outcome now w.path source outcome).0 }
      → Step w w'
  admitted :
      (now : ℕ) (t : Ticket)
      → (admit now w.path).1 ≡ some t
      → w' ≡ record { path = (admit now w.path).0; live = t ∷ w.live }
      → Step w w'
  refused :
      (now : ℕ)
      → (admit now w.path).1 ≡ none
      → w' ≡ record w { path = (admit now w.path).0 }
      → Step w w'
  dropped :
      (before rest : List Ticket) (t : Ticket)
      → w.live ≡ before ++ (t ∷ rest)
      → w' ≡ record { path = drop_ticket t w.path; live = before ++ rest }
      → Step w w'

pub data Reach (w : World) : World → Type 0 where
  here : Reach w w
  next : {u v : World} → Reach w u → Step u v → Reach w v

unfoldable pub probes : List Ticket → ℕ
probes [] = 0
probes (t ∷ live) = if t.probe then suc (probes live) else probes live

-- A live probe ticket is what `probing` says.
pub record OneProbe (w : World) : Type 0 where
  pub marked : probes w.live ≡ (if w.path.state.probing then 1 else 0)

probes-append :
    (before : List Ticket) (t : Ticket) (rest : List Ticket)
    → probes (before ++ (t ∷ rest)) ≡ (if t.probe then 1 else 0) + probes (before ++ rest)
unfolding probes
probes-append [] t rest = ground arith
probes-append (u ∷ before) t rest = ground (arith, probes-append before t rest)

probing-record_outcome :
    (now : ℕ) (p : PathHealth) (source : Option String) (outcome : Outcome)
    → (record_outcome now p source outcome).0.state.probing ≡ p.state.probing
unfolding record_outcome
probing-record_outcome now p source healthy = refl
probing-record_outcome now p source fault = ground arith

-- An admission marks the probe that it lets through, and lets none through beside a probe.
probing-admit :
    (now : ℕ) (p : PathHealth) (t : Ticket)
    → (admit now p).1 ≡ some t
    → ((t.probe ≡ false) × ((admit now p).0.state.probing ≡ p.state.probing))
      ⊎ ((t.probe ≡ true) × (p.state.probing ≡ false) × ((admit now p).0.state.probing ≡ true))
unfolding admit
probing-admit now p t h = ground arith

probing-refused : (now : ℕ) (p : PathHealth) → (admit now p).1 ≡ none → (admit now p).0 ≡ p
unfolding admit
probing-refused now p h = ground arith

probing-drop :
    (t : Ticket) (p : PathHealth)
    → (drop_ticket t p).state.probing ≡ (if t.probe then false else p.state.probing)
unfolding drop_ticket
probing-drop t p = ground arith

Step-OneProbe : {w w' : World} → Step w w' → OneProbe w → OneProbe w'
Step-OneProbe {w} (attempted now source outcome e) o =
    rw e (record { marked = rw (probing-record_outcome now w.path source outcome) o.marked })
Step-OneProbe {w} (admitted now t h e) o =
    rw e
      (record { marked = unfold probes in ground (arith, probing-admit now w.path t h, o.marked) })
Step-OneProbe {w} (refused now h e) o =
    rw e (record { marked = rw (probing-refused now w.path h) o.marked })
Step-OneProbe {w} (dropped before rest t l e) o = rw e (record {
  marked = ground (arith, probes-append before t rest, probing-drop t w.path, l, o.marked);
})

pub Reach-OneProbe : {w w' : World} → OneProbe w → Reach w w' → OneProbe w'
Reach-OneProbe o here = o
Reach-OneProbe o (next r s) = Step-OneProbe s (Reach-OneProbe o r)

abbrev pub start : PolicyStart → World
start s = record { path = new s.policy s.distinct; live = [] }

start-OneProbe : (s : PolicyStart) → OneProbe (start s)
unfolding new probes
start-OneProbe s = record { marked = refl }

-- However calls interleave from a new path, at most one of the tickets that are held is a probe, and
-- the path is marked as probing exactly while that ticket is held.
pub probes-le-one :
    (s : PolicyStart) {w : World}
    → Reach (start s) w
    → (probes w.live ≤ 1) × ((w.path.state.probing ≡ true) ↔ (probes w.live ≡ 1))
probes-le-one s {w} r = let o = Reach-OneProbe (start-OneProbe s) r in ground (arith, o.marked)

admit-none :
    (now : ℕ) (p : PathHealth)
    → ((admit now p).1 ≡ none) ↔ (
        (until : ℕ) × (p.state.open_until ≡ some until)
        × ((now < until) ⊎ (p.state.probing ≡ true)))
unfolding admit
admit-none now p = (λ h. ground arith, λ h. ground arith)

-- However calls interleave from a new path: a call is refused exactly when the path is open and
-- either its interval is not over or a probe ticket is held by another caller.
pub refused_iff_open :
    (s : PolicyStart) {w : World} (now : ℕ)
    → Reach (start s) w
    → ((admit now w.path).1 ≡ none) ↔ (
        (until : ℕ) × (w.path.state.open_until ≡ some until)
        × ((now < until) ⊎ (probes w.live ≡ 1)))
refused_iff_open s {w} now r =
    let one = (probes-le-one s r).1 in
    let a = admit-none now w.path in
    (
      λ h. let (until, e, why) = a.0 h in (until, e, ground (arith, one)),
      λ (until, e, why). a.1 (until, e, ground (arith, one)),
    )
