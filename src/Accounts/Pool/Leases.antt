-- ===== src/Accounts/Pool/Leases.antt =====
-- Leases and the active calls of an account (src/accounts.rs, `Pool::select` and the drop of a
-- `Lease`).
use sirius_api_proxy.Base.{
  ℕ, zero, suc, ◌+◌, ◌%◌, ◌≤◌, ◌<◌, ◌≡◌, inl, inr, refl, sym, ap, ◌∙◌, String, Bool, true, false,
  Option, none, some, List, [], ◌∷◌, ◌++◌, arith, length, get_elem?, length-set, Option-cases,
  Bool-cases, if◌then◌else◌, ◌==◌, u64_max, increment_u64, decrement_u64,
}
use sirius_api_proxy.Error.{AppError, not_found, account_unavailable}
use sirius_api_proxy.Accounts.Pool.Choice.{usable-lt}
use sirius_api_proxy.Accounts.Pool.{
  Account, Pool, usable, active_at, set_active, Selection, leased, refused, lease_at, or_refuse,
  position, public_index, select, drop_lease,
}

-- The leases on account `i`.
unfoldable pub held : ℕ → List ℕ → ℕ
held i [] = 0
held i (j ∷ leases) = if j == i then suc (held i leases) else held i leases

-- The pool and the leases that callers hold.
pub record World : Type 0 where
  pub pool : Pool
  pub leases : List ℕ

pub data Step (w w' : World) : Type 0 where
  selected :
      (now : ℕ) (name : Option String) (private : Bool) (pool : Pool) (i : ℕ)
      → select now w.pool name private ≡ leased pool i
      → w' ≡ record { pool = pool; leases = i ∷ w.leases }
      → Step w w'
  dropped :
      (before rest : List ℕ) (i : ℕ)
      → w.leases ≡ before ++ (i ∷ rest)
      → w' ≡ record { pool = drop_lease w.pool i; leases = before ++ rest }
      → Step w w'

set_active-cons :
    (a : Account) (entries : List Account) (j : ℕ) (f : ℕ → ℕ)
    → set_active (a ∷ entries) (suc j) f ≡ a ∷ set_active entries j f
set_active-cons a entries j f = elim (Option-cases (get_elem? entries j)) [
  | inl e ↦ rw (e, set_active)
  | inr (b, e) ↦ rw (e, set_active)
]

length-set_active :
    (entries : List Account) (j : ℕ) (f : ℕ → ℕ) → length (set_active entries j f) ≡ length entries
length-set_active entries j f = elim (Option-cases (get_elem? entries j)) [
  | inl e ↦ rw (e, set_active)
  | inr (b, e) ↦ rw (e, set_active) (length-set entries j (record b { active = f b.active }))
]

active_at-set_active :
    (entries : List Account) (i j : ℕ) (f : ℕ → ℕ)
    → j < length entries
    → active_at (set_active entries j f) i
      ≡ (if j == i then f (active_at entries i) else active_at entries i)
active_at-set_active [] i j f h = elim h [ ]
active_at-set_active (a ∷ entries) zero zero f h = refl
active_at-set_active (a ∷ entries) (suc i) zero f h = ground arith
active_at-set_active (a ∷ entries) zero (suc j) f h = rw set_active-cons (ground arith)
active_at-set_active (a ∷ entries) (suc i) (suc j) f h =
    rw set_active-cons (ground (arith, active_at-set_active entries i j f (omega arith)))

held-append :
    (i j : ℕ) (before rest : List ℕ)
    → held i (before ++ (j ∷ rest)) ≡ (if j == i then 1 else 0) + held i (before ++ rest)
unfolding held
held-append i j [] rest = ground arith
held-append i j (k ∷ before) rest = ground (arith, held-append i j before rest)

abbrev pool_of : Pool → Selection → Pool
pool_of p (leased p' i) = p'
pool_of p (refused error) = p

lease_at-leased :
    (now : ℕ) (p : Pool) (index : ℕ) (p' : Pool) (i : ℕ)
    → lease_at now p index ≡ leased p' i
    → (i ≡ index)
      × (usable now p.entries index ≡ true)
      × (p'.entries ≡ set_active p.entries index increment_u64)
      × (p'.next ≡ (index + 1) % length p.entries)
unfolding lease_at
lease_at-leased now p index p' i h = elim (Bool-cases (usable now p.entries index)) [
  | inl u ↦
      let e : leased
            (record p {
              next = (index + 1) % length p.entries;
              entries = set_active p.entries index increment_u64;
            })
            index
          ≡ leased p' i =
        simp u at h in
      (cc, u, sym (ap (λ r. (pool_of p r).entries) e), sym (ap (λ r. (pool_of p r).next) e))
  | inr u ↦ absurd (let e : refused account_unavailable ≡ leased p' i = simp u at h in cc)
]

or_refuse-leased :
    (o : Option ℕ) (error : AppError) (k : ℕ → Selection) (p' : Pool) (i : ℕ)
    → or_refuse o error k ≡ leased p' i
    → (j : ℕ) × (o ≡ some j) × (k j ≡ leased p' i)
or_refuse-leased none error k p' i h = absurd (cc)
or_refuse-leased (some j) error k p' i h = (j, refl, h)

-- A selection leases one available account, and counts one more active call of it and no other.
pub select-leased :
    (now : ℕ) (p : Pool) (name : Option String) (private : Bool) (p' : Pool) (i : ℕ)
    → select now p name private ≡ leased p' i
    → (usable now p.entries i ≡ true)
      × (p'.entries ≡ set_active p.entries i increment_u64)
      × (p'.next ≡ (i + 1) % length p.entries)
unfolding select
select-leased now p (some name) private p' i h =
    let (j, _, e) = or_refuse-leased (position name p.entries) not_found (lease_at now p) p' i h in
    let (same, u, entries, next) = lease_at-leased now p j p' i e in rw same (u, entries, next)
select-leased now p none true p' i h =
    let (same, u, entries, next) = lease_at-leased now p 0 p' i h in rw same (u, entries, next)
select-leased now p none false p' i h =
    let (j, _, e) =
      or_refuse-leased (public_index now p) account_unavailable (lease_at now p) p' i h in
    let (same, u, entries, next) = lease_at-leased now p j p' i e in rw same (u, entries, next)

-- The active calls of each account are the leases that callers hold on it, and each lease is on an
-- account of the pool.
pub record IsCounted (w : World) : Type 0 where
  pub counted : (i : ℕ) → active_at w.pool.entries i ≡ held i w.leases
  pub within : (i : ℕ) → 0 < held i w.leases → i < length w.pool.entries

==_one : (i : ℕ) → ◌≡◌ {A = ℕ} (if i == i then 1 else 0) 1
==_one i = ground arith

held-le-length : (i : ℕ) (leases : List ℕ) → held i leases ≤ length leases
unfolding held
held-le-length i [] = omega arith
held-le-length i (j ∷ leases) = ground (arith, held-le-length i leases)

Step-IsCounted : {w w' : World} → length w.leases < u64_max → Step w w' → IsCounted w → IsCounted w'
unfolding drop_lease
Step-IsCounted {w} bound (selected now name private pool i h e) c =
    let (u, entries, _) = select-leased now w.pool name private pool i h in
    let small = usable-lt now w.pool.entries i u in
    rw e (record {
      counted = λ k. rw entries (
          unfold held in
          ground (
            arith,
            active_at-set_active w.pool.entries k i increment_u64 small,
            c.counted k,
            held-le-length k w.leases,
          ));
      within = λ k h'. rw entries (
          unfold held in
          ground (arith, length-set_active w.pool.entries i increment_u64, c.within k, h'));
    })
Step-IsCounted {w} bound (dropped before rest i l e) c =
    let split = λ (k : ℕ). held-append k i before rest in
    let all = λ (k : ℕ). ap (held k) l in
    let small : i < length w.pool.entries = c.within i (omega (arith, all i ∙ split i, ==_one i)) in
    rw e (record {
      counted = λ k.
          (ground (
            arith,
            active_at-set_active w.pool.entries k i decrement_u64 small,
            c.counted k,
            held-le-length k w.leases,
            all k,
            split k,
          ));
      within = λ k h'.
          ground (
            arith,
            length-set_active w.pool.entries i decrement_u64,
            c.within k,
            h',
            all k,
            split k,
          );
    })

-- Worlds reached while fewer than 2^64 - 1 leases are held at once.
pub data Reach (w : World) : World → Type 0 where
  here : Reach w w
  next : {u v : World} → Reach w u → length u.leases < u64_max → Step u v → Reach w v

-- However selections and drops of leases follow on one another, the active calls of each account are
-- the leases that callers hold on it, from any world where they are.
pub Reach-IsCounted : {w w' : World} → IsCounted w → Reach w w' → IsCounted w'
Reach-IsCounted c here = c
Reach-IsCounted c (next r bound s) = Step-IsCounted bound s (Reach-IsCounted c r)
