-- ===== src/AssetJobs/Replies.antt =====
-- The bodies that the job client reads (src/asset_jobs.rs, `send`).
use sirius_api_proxy.Base.{
  ℕ, ◌≤◌, ◌-◌, ◌≡◌, refl, sym, ap, ◌∙◌, ◌↔◌, false, inl, inr, Option, none, some, List, [], ◌∷◌,
  ◌++◌, arith, length, ltb, length-append, Bool-cases, Option-cases, Result, ok, err,
}
use mathlib.Core.Path.{subst}
use mathlib.Core.Option.{some-injective}
use sirius_api_proxy.AssetJobs.{Error, Body, ended, broken, chunk, limit, read_body}

abbrev prepend : List ℕ → Option (List ℕ) → Option (List ℕ)
prepend c none = none
prepend c (some rest) = some (c ++ rest)

-- All that a body brings, when every chunk of it arrives.
unfoldable pub content : Body → Option (List ℕ)
content ended = some []
content broken = none
content (chunk c rest) = prepend c (content rest)

append_assoc : (a b c : List ℕ) → (a ++ b) ++ c ≡ a ++ (b ++ c)
append_assoc [] b c = refl
append_assoc (x ∷ a) b c = ap (λ r. x ∷ r) (append_assoc a b c)

append_nil : (a : List ℕ) → a ++ [] ≡ a
append_nil [] = refl
append_nil (x ∷ a) = ap (λ r. x ∷ r) (append_nil a)

abbrev bytes_or : List ℕ → Result (List ℕ) Error → List ℕ
bytes_or bytes (ok v) = v
bytes_or bytes (err e) = bytes

abbrev read_as : List ℕ → Result (List ℕ) Error
read_as bytes = ok bytes

ok_injective : (a b : List ℕ) → read_as a ≡ ok b → a ≡ b
ok_injective a b h = ap (bytes_or a) h

read_body-content :
    (bytes whole : List ℕ) (b : Body)
    → length bytes ≤ limit
    → read_body bytes b ≡ ok whole
    → (rest : List ℕ) × (content b ≡ some rest) × (whole ≡ bytes ++ rest) × (length whole ≤ limit)
unfolding read_body content
read_body-content bytes whole ended h r =
    let same : bytes ≡ whole = ok_injective bytes whole r in
    ([], refl, sym same ∙ sym (append_nil bytes), subst (λ v. length v ≤ limit) same h)
read_body-content bytes whole broken h r = absurd (ground (arith, r))
read_body-content bytes whole (chunk c b) h r =
    elim (Bool-cases (ltb (limit - length bytes) (length c))) [
      | inl e ↦ absurd (ground (arith, e, r))
      | inr e ↦
          let (rest, f, w, l) =
            read_body-content (bytes ++ c) whole b (ground (arith, h, e, length-append bytes c))
              (simp e at r) in
          (c ++ rest, rw f refl, w ∙ append_assoc bytes c rest, l)
    ]

content-read_body :
    (bytes rest : List ℕ) (b : Body)
    → content b ≡ some rest
    → length (bytes ++ rest) ≤ limit
    → read_body bytes b ≡ ok (bytes ++ rest)
unfolding read_body content
content-read_body bytes rest ended f l =
    ap ok (sym (append_nil bytes) ∙ ap (λ r. bytes ++ r) (some-injective [] rest f))
content-read_body bytes rest broken f l = absurd (ground (arith, f))
content-read_body bytes rest (chunk c b) f l = elim (Option-cases (content b)) [
  | inl n ↦ absurd (ground (arith, n, f))
  | inr (r, e) ↦
      let parts : c ++ r ≡ rest = some-injective (c ++ r) rest (rw e at f) in
      let whole : (bytes ++ c) ++ r ≡ bytes ++ rest =
        append_assoc bytes c r ∙ ap (λ v. bytes ++ v) parts in
      let fits : length ((bytes ++ c) ++ r) ≤ limit = rw whole l in
      let room : ltb (limit - length bytes) (length c) ≡ false =
        ground (arith, fits, length-append (bytes ++ c) r, length-append bytes c) in
      simp room (content-read_body (bytes ++ c) r b e fits ∙ ap ok whole)
]

-- Reading a body gives exactly the bytes that its chunks bring, and gives them exactly when every
-- chunk arrives and together they are at most 64 KiB; so no answer makes the client keep more.
pub read_body_iff :
    (b : Body) (whole : List ℕ)
    → read_body [] b ≡ ok whole ↔ (content b ≡ some whole) × (length whole ≤ limit)
read_body_iff b whole = (
  λ r.
      let (rest, f, w, l) = read_body-content [] whole b (omega arith) r in
      (f ∙ ap some (sym w), l),
  λ (f, l). content-read_body [] whole b f l,
)
