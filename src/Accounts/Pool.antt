-- ===== src/Accounts/Pool.antt =====
-- src/accounts.rs: the pool of a region's accounts (`Pool`, `Lease`). An `Arc<Account>` that a lease
-- holds is the account's index. The parts of an account that scheduling does not read stay out:
-- its lock, and the secrets of its source.
pub mod Choice
pub mod Leases
use sirius_api_proxy.Base.{
  ℕ, zero, suc, ◌+◌, ◌-◌, ◌%◌, String, Bool, true, false, Option, none, some, List, [], ◌∷◌, map,
  leb, length, get_elem?, set, if◌then◌else◌, str_eq, increment_u64, decrement_u64,
}
use mathlib.Core.Option
use sirius_api_proxy.Error.{AppError, not_found, account_unavailable}
use sirius_api_proxy.Accounts.Health.{Health, PoolPolicy, available, revoke_path_failures}
use sirius_api_proxy.Accounts.Login.{LoginState}

-- A Global account's SDK uid and login state.
pub record GlobalAccount : Type 0 where
  pub uid : String
  pub state : LoginState

pub data Source : Type 0 where
  static_source : Source
  global_source : GlobalAccount → Source

pub record Account : Type 0 where
  pub name : String
  pub source : Source
  pub active : ℕ
  pub health : Health

pub record Pool : Type 0 where
  pub entries : List Account
  pub next : ℕ
  pub generation : ℕ

-- `start..start + n`
abbrev pub range_from : ℕ → ℕ → List ℕ
range_from start zero = []
range_from start (suc n) = start ∷ range_from (start + 1) n

abbrev pub usable : ℕ → List Account → ℕ → Bool
usable now entries i = elim (get_elem? entries i) [ none ↦ false | some a ↦ available now a.health ]

abbrev pub active_at : List Account → ℕ → ℕ
active_at entries i = elim (get_elem? entries i) [ none ↦ 0 | some a ↦ a.active ]

abbrev pub filter_list {ℓ} : {A : Type ℓ} → (A → Bool) → List A → List A
filter_list p [] = []
filter_list p (x ∷ xs) = let rest = filter_list p xs in if p x then x ∷ rest else rest

-- `Iterator::min_by_key`: the first of the least elements.
abbrev pub prefer : (ℕ → ℕ) → ℕ → Option ℕ → Option ℕ
prefer key x none = some x
prefer key x (some y) = if leb (key x) (key y) then some x else some y

unfoldable pub min_by_key : (ℕ → ℕ) → List ℕ → Option ℕ
min_by_key key [] = none
min_by_key key (x ∷ xs) = prefer key x (min_by_key key xs)

-- The indices in rotation order, from `next`.
unfoldable pub rotation : Pool → List ℕ
rotation p = map (λ offset. (p.next + offset) % length p.entries) (range_from 0 (length p.entries))

unfoldable pub public_index : ℕ → Pool → Option ℕ
public_index now p =
    min_by_key (active_at p.entries) (filter_list (usable now p.entries) (rotation p))

-- `peek_public`, as an index
abbrev pub peek_public : ℕ → Pool → Option ℕ
peek_public = public_index

-- `iter().position(|a| a.name == name)`
unfoldable pub position : String → List Account → Option ℕ
position name [] = none
position name (a ∷ entries) =
    if str_eq a.name name then some 0 else Option.map (λ i. suc i) (position name entries)

unfoldable pub find : String → Pool → Option Account
find name p = Option.bind (position name p.entries) (get_elem? p.entries)

abbrev pub set_active : List Account → ℕ → (ℕ → ℕ) → List Account
set_active entries i f = elim (get_elem? entries i) [
  | none ↦ entries
  | some a ↦ set entries i (record a { active = f a.active })
]

pub data Selection : Type 0 where
  leased : Pool → ℕ → Selection
  refused : AppError → Selection

-- The end of `select`: the account at the index is leased if it is available.
unfoldable pub lease_at : ℕ → Pool → ℕ → Selection
lease_at now p index =
    if usable now p.entries index
    then leased
        (record p {
          next = (index + 1) % length p.entries;
          entries = set_active p.entries index increment_u64;
        })
        index
    else refused account_unavailable

abbrev pub or_refuse : Option ℕ → AppError → (ℕ → Selection) → Selection
or_refuse none error k = refused error
or_refuse (some i) error k = k i

unfoldable pub select : ℕ → Pool → Option String → Bool → Selection
select now p (some name) private = or_refuse (position name p.entries) not_found (lease_at now p)
select now p none true = lease_at now p 0
select now p none false = or_refuse (public_index now p) account_unavailable (lease_at now p)

-- `impl Drop for Lease`
unfoldable pub drop_lease : Pool → ℕ → Pool
drop_lease p i = record p { entries = set_active p.entries i decrement_u64 }

-- `Pool::revoke_path_failures`
abbrev pub revoke_entry : ℕ → PoolPolicy → Account → Account
revoke_entry streak policy a = record a { health = revoke_path_failures streak policy a.health }

unfoldable pub revoke_all : ℕ → PoolPolicy → Pool → Pool
revoke_all streak policy p = record p { entries = map (revoke_entry streak policy) p.entries }

-- The old account of the same name and SDK identity, in `inherit_login_history`.
abbrev pub same_identity : GlobalAccount → Option Account → Option GlobalAccount
same_identity new none = none
same_identity new (some a) = elim a.source [
  | static_source ↦ none
  | global_source old ↦ if str_eq old.uid new.uid then some old else none
]

abbrev pub with_history : GlobalAccount → Option GlobalAccount → GlobalAccount
with_history new none = new
with_history new (some old) = record new {
  state = record new.state {
    attempts = old.state.attempts;
    concurrent_device = old.state.concurrent_device;
    last_login_at = old.state.last_login_at;
  };
}

unfoldable pub inherit_account : Pool → Account → Account
inherit_account previous a = elim a.source [
  | static_source ↦ a
  | global_source new ↦ record a {
    source = global_source (with_history new (same_identity new (find a.name previous)));
  }
]

unfoldable pub inherit_login_history : Pool → Pool → Pool
inherit_login_history p previous = record p { entries = map (inherit_account previous) p.entries }
