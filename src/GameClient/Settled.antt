-- ===== src/GameClient/Settled.antt =====
-- What a settled account pays for (src/client.rs, `record_path`, `report_lease` and `settle_charge`).
use sirius_api_proxy.Base.{
  ℕ, suc, ◌+◌, ◌≤◌, ◌<◌, ◌≡◌, refl, true, false, List, [], ◌∷◌, ◌++◌, arith, length, length-append,
  all, if◌then◌else◌, u32_max,
}
use sirius_api_proxy.Accounts.Health.{
  Health, PoolPolicy, path_fault, transient, succeeded, disable, cool_down, revoke_path_failures,
  default_health,
}
use sirius_api_proxy.Accounts.Health.Charges.{charged as owed}
use sirius_api_proxy.PathHealth.{is_attributed}
use sirius_api_proxy.GameClient.Charges.{withdraw, settle_charge}
use sirius_api_proxy.GameClient.Settlement.{
  Change, success, own_fault, uncharged, rejection, disabling, cooling, charged, spared, settles,
  withdraws, apply, run, counted, own_failures, is_uncharged, is_withdrawal,
}

module _ (policy : PoolPolicy) (streak : ℕ) where
  -- The failures are the account's own and those charged during the streak, within a bound.
  abbrev Splits : ℕ → ℕ → Health → Type 0
  Splits bound n h = (h.failures ≡ n + owed streak h) × (h.failures ≤ bound)

  revoked-Splits :
      (bound n : ℕ) (h : Health)
      → Splits bound n h
      → Splits bound n (revoke_path_failures streak policy h)
        × (owed streak (revoke_path_failures streak policy h) ≡ 0)
  unfolding revoke_path_failures owed
  revoked-Splits bound n h (e, l) = ((ground (arith, e, l), ground (arith, e, l)), ground arith)

  apply-Splits :
      (bound n : ℕ) (c : Change) (h : Health)
      → bound < u32_max
      → Splits bound n h
      → Splits (suc bound) (counted c n) (apply policy streak c h)
  unfolding apply path_fault transient succeeded disable cool_down owed settle_charge withdraw
  apply-Splits bound n success h b (e, l) = (ground arith, omega arith)
  apply-Splits bound n (own_fault now) h b (e, l) =
      (ground (arith, e, l, b), ground (arith, e, l, b))
  apply-Splits bound n (uncharged now) h b (e, l) =
      (ground (arith, e, l, b), ground (arith, e, l, b))
  apply-Splits bound n rejection h b (e, l) = (ground (arith, e, l, b), ground (arith, e, l, b))
  apply-Splits bound n disabling h b (e, l) = (e, omega (arith, l))
  apply-Splits bound n (cooling until) h b (e, l) = (e, omega (arith, l))
  apply-Splits bound n (charged now) h b (e, l) = (ground (arith, e, l, b), ground (arith, e, l, b))
  apply-Splits bound n (spared now) h b (e, l) = (e, omega (arith, l))
  apply-Splits bound n (settles p) h b (e, l) =
      let ((f, m), o) = revoked-Splits bound n h (e, l) in
      elim (is_attributed p streak)
        as (λ x. Splits (suc bound) n (if x then revoke_path_failures streak policy h else h)) [
          | true ↦ (f, omega (arith, m))
          | false ↦ (e, omega (arith, l))
        ]
  apply-Splits bound n withdraws h b (e, l) =
      let ((f, m), o) = revoked-Splits bound n h (e, l) in (f, omega (arith, m))

  run-Splits :
      (bound n : ℕ) (changes : List Change) (h : Health)
      → bound + length changes ≤ u32_max
      → Splits bound n h
      → Splits (bound + length changes) (own_failures changes n) (run policy streak changes h)
  unfolding run own_failures
  run-Splits bound n [] h b (e, l) = (e, omega (arith, l))
  run-Splits bound n (c ∷ changes) h b s =
      let (e, l) =
        run-Splits (suc bound) (counted c n) changes (apply policy streak c h) (omega arith)
          (apply-Splits bound n c h (omega arith) s) in
      (e, omega (arith, l))

  -- Nothing is charged but by a charge.
  owed-apply :
      (c : Change) (h : Health)
      → is_uncharged c ≡ true
      → owed streak h ≡ 0
      → owed streak (apply policy streak c h) ≡ 0
  unfolding apply path_fault transient succeeded disable cool_down owed settle_charge withdraw
      revoke_path_failures
  owed-apply success h u o = ground arith
  owed-apply (own_fault now) h u o = ground (arith, o)
  owed-apply (uncharged now) h u o = ground (arith, o)
  owed-apply rejection h u o = o
  owed-apply disabling h u o = o
  owed-apply (cooling until) h u o = o
  owed-apply (charged now) h u o = absurd (ground (arith, u))
  owed-apply (spared now) h u o = o
  owed-apply (settles p) h u o =
      elim (is_attributed p streak)
        as (λ x. owed streak (if x then revoke_path_failures streak policy h else h) ≡ 0) [
          | true ↦ ground (arith, o)
          | false ↦ o
        ]
  owed-apply withdraws h u o = ground (arith, o)

  owed-run :
      (changes : List Change) (h : Health)
      → all is_uncharged changes ≡ true
      → owed streak h ≡ 0
      → owed streak (run policy streak changes h) ≡ 0
  unfolding run
  owed-run [] h u o = o
  owed-run (c ∷ changes) h u o =
      owed-run changes (apply policy streak c h) (ground (arith, u))
        (owed-apply c h (ground (arith, u)) o)

  run-++ :
      (before after : List Change) (h : Health)
      → run policy streak (before ++ after) h ≡ run policy streak after (run policy streak before h)
  unfolding run
  run-++ [] after h = refl
  run-++ (c ∷ before) after h = run-++ before after (apply policy streak c h)

  default_health-Splits : Splits 0 0 default_health
  unfolding owed
  default_health-Splits = (ground arith, omega arith)

  owed_withdrawn :
      (bound n : ℕ) (c : Change) (h : Health)
      → is_withdrawal streak c ≡ true
      → Splits bound n h
      → owed streak (apply policy streak c h) ≡ 0
  unfolding apply settle_charge withdraw
  owed_withdrawn bound n (settles p) h w s = let (_, o) = revoked-Splits bound n h s in rw w o
  owed_withdrawn bound n withdraws h w s = let (_, o) = revoked-Splits bound n h s in o
  owed_withdrawn bound n success h w s = absurd (ground (arith, w))
  owed_withdrawn bound n (own_fault now) h w s = absurd (ground (arith, w))
  owed_withdrawn bound n (uncharged now) h w s = absurd (ground (arith, w))
  owed_withdrawn bound n rejection h w s = absurd (ground (arith, w))
  owed_withdrawn bound n disabling h w s = absurd (ground (arith, w))
  owed_withdrawn bound n (cooling until) h w s = absurd (ground (arith, w))
  owed_withdrawn bound n (charged now) h w s = absurd (ground (arith, w))
  owed_withdrawn bound n (spared now) h w s = absurd (ground (arith, w))

-- The faults charged to an account during one path streak, its own failures (transient ones,
-- refusals and faults outside every streak), its successes, disablings and cooldowns, and the
-- settlements and withdrawals of that streak come in any order. Once a settlement has found the
-- streak attributed to the path, or `record_path` has withdrawn it, and nothing is charged to it
-- afterwards, the account's failures are exactly its own since its last success. Fewer than 2^32
-- changes are assumed, and that no fault of another streak is charged to the account.
pub settled_own :
    (policy : PoolPolicy) (streak : ℕ) (before after : List Change) (c : Change)
    → is_withdrawal streak c ≡ true
    → all is_uncharged after ≡ true
    → length (before ++ c ∷ after) ≤ u32_max
    → (run policy streak (before ++ c ∷ after) default_health).failures
      ≡ own_failures (before ++ c ∷ after) 0
unfolding run owed
settled_own policy streak before after c w u bound =
    let h = run policy streak before default_health in
    let start = default_health-Splits policy streak in
    let (e, _) =
      run-Splits policy streak 0 0 (before ++ c ∷ after) default_health (omega (arith, bound))
        start in
    let s =
      run-Splits policy streak 0 0 before default_health
        (omega (arith, bound, length-append before (c ∷ after))) start in
    let o : owed streak (run policy streak (before ++ c ∷ after) default_health) ≡ 0 =
      rw (run-++ policy streak before (c ∷ after) default_health) (
        owed-run policy streak after (apply policy streak c h) u
          (owed_withdrawn policy streak (0 + length before) (own_failures before 0) c h w s)) in
    omega (arith, e, o)
