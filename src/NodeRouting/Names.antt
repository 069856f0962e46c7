-- ===== src/NodeRouting/Names.antt =====
-- A configuration that passes `validate` (src/node_routing.rs).
use sirius_api_proxy.Base.{
  ◌≤◌, ◌≡◌, ◌≢◌, ◌⊎◌, inl, inr, String, Bool, true, false, none, List, [], ◌∷◌, map, arith, any,
  length, str_eq, is_none, ap, Bool-cases, Option-cases,
}
use sirius_api_proxy.NodeRouting.Config.{
  Config, TargetConfig, Env, validate, validate_targets, target_named, bounds_valid, contains,
  same_destination,
}

-- No text stands twice, and none stands among those before.
abbrev pub IsFresh : List String → List String → Type 0
IsFresh before [] = Unit
IsFresh before (s ∷ texts) = (contains s before ≡ false) × IsFresh (s ∷ before) texts

abbrev pub names : List TargetConfig → List String
names targets = map (λ t. t.name) targets

named-fresh :
    (before : List String) (t : TargetConfig)
    → target_named before t ≡ true
    → (contains t.name before ≡ false) × (str_eq t.name "local" ≡ false)
unfolding target_named
named-fresh before t h = (ground (arith, h), ground (arith, h))

validate_targets-IsFresh :
    (env : Env) (before : List String) (seen : List (String × Bool)) (targets : List TargetConfig)
    → validate_targets env before seen targets ≡ none
    → IsFresh before (names targets)
unfolding validate_targets
validate_targets-IsFresh env before seen [] h = tt
validate_targets-IsFresh env before seen (t ∷ targets) h =
    elim (Bool-cases (target_named before t)) [
      | inr n ↦ absurd (ground (arith, n, h))
      | inl n ↦ elim (Option-cases (env.destination t)) [
        | inl o ↦ absurd (ground (arith, n, o, h))
        | inr (origin, o) ↦
            elim (Bool-cases (any (same_destination (origin, t.regional_paths)) seen)) [
              | inl a ↦ absurd (ground (arith, n, o, a, h))
              | inr a ↦ (
                (named-fresh before t n).0,
                validate_targets-IsFresh env (t.name ∷ before) ((origin, t.regional_paths) ∷ seen)
                    targets (ground (arith, n, o, a, h)),
              )
            ]
      ]
    ]

bounded :
    (c : Config)
    → bounds_valid c ≡ true
    → (length c.targets ≤ 16) × ((c.targets ≢ []) ⊎ (is_none c.local_priority ≡ false))
unfolding bounds_valid
bounded c h = (
  ground (arith, h),
  elim (Bool-cases (is_none c.local_priority)) [
    | inr l ↦ inr l
    | inl l ↦ inl (λ e. ground (arith, h, l, ap length e))
  ],
)

-- A configuration that passes has at most 16 targets, whose names are pairwise distinct, and a
-- target when it has no local one.
pub validate-IsFresh :
    (env : Env) (c : Config)
    → validate env c ≡ none
    → (length c.targets ≤ 16)
      × IsFresh [] (names c.targets)
      × ((c.targets ≢ []) ⊎ (is_none c.local_priority ≡ false))
unfolding validate
validate-IsFresh env c h = elim (Bool-cases (bounds_valid c)) [
  | inr b ↦ absurd (ground (arith, h, b))
  | inl b ↦ elim (Bool-cases env.transport_valid) [
    | inr t ↦ absurd (ground (arith, h, b, t))
    | inl t ↦
        let passed : validate_targets env [] [] c.targets ≡ none = ground (arith, h, b, t) in
        let (few, some_target) = bounded c b in
        (few, validate_targets-IsFresh env [] [] c.targets passed, some_target)
  ]
]
