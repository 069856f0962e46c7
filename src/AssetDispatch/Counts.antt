-- ===== src/AssetDispatch/Counts.antt =====
-- The counts of the published status (src/asset_dispatch_admin.rs, `summarize`).
use sirius_api_proxy.Base.{
  ℕ, ◌+◌, ◌≤◌, Bool, true, false, ◌≡◌, refl, ◌∙◌, [], ◌∷◌, arith, length, BTreeMap, contains_key,
}
use sirius_api_proxy.AssetOutbox.Entries.{
  Entry, State, pending, sending, submitted, completed, failed,
}
use sirius_api_proxy.AssetOutbox.Store.{World}
use sirius_api_proxy.AssetDispatch.Status.{
  EntryCounts, Summary, count_state, count_entries, summarize, one_if, no_counts,
}

abbrev pub state_sum : EntryCounts → ℕ
state_sum c =
    c.pending_count + c.sending_count + c.submitted_count + c.completed_count + c.failed_count

one_if-le : (b : Bool) → one_if b ≤ 1
one_if-le true = omega arith
one_if-le false = omega arith

count_state-sum :
    (busy : Bool) (t : State) (s : Summary)
    → (state_sum (count_state busy t s).0 ≡ state_sum s.0 + 1)
      × (s.0.busy_retrying ≤ s.0.pending_count
          → (count_state busy t s).0.busy_retrying ≤ (count_state busy t s).0.pending_count)
unfolding count_state
count_state-sum busy pending s = (omega arith, λ h. omega (arith, h, one_if-le busy))
count_state-sum busy (sending at) s = (omega arith, λ h. h)
count_state-sum busy (submitted id) s = (omega arith, λ h. h)
count_state-sum busy (completed id c p) s = (omega arith, λ h. h)
count_state-sum busy (failed id c) s = (omega arith, λ h. h)

count_entries-sum :
    (refusals : BTreeMap ℕ) (m : BTreeMap Entry) (s : Summary)
    → s.0.busy_retrying ≤ s.0.pending_count
    → (state_sum (count_entries refusals m s).0 ≡ state_sum s.0 + length m)
      × ((count_entries refusals m s).0.busy_retrying
          ≤ (count_entries refusals m s).0.pending_count)
unfolding count_entries
count_entries-sum refusals [] s h = (omega arith, h)
count_entries-sum refusals ((k, e) ∷ m) s h =
    let (one, kept) = count_state-sum (contains_key k refusals) e.state s in
    let (rest, b) =
      count_entries-sum refusals m (count_state (contains_key k refusals) e.state s) (kept h) in
    (omega (arith, one, rest), b)

count_state-total :
    (busy : Bool) (t : State) (s : Summary) → (count_state busy t s).0.total ≡ s.0.total
unfolding count_state
count_state-total busy pending s = refl
count_state-total busy (sending at) s = refl
count_state-total busy (submitted id) s = refl
count_state-total busy (completed id c p) s = refl
count_state-total busy (failed id c) s = refl

count_entries-total :
    (refusals : BTreeMap ℕ) (m : BTreeMap Entry) (s : Summary)
    → (count_entries refusals m s).0.total ≡ s.0.total
unfolding count_entries
count_entries-total refusals [] s = refl
count_entries-total refusals ((k, e) ∷ m) s =
    count_entries-total refusals m (count_state (contains_key k refusals) e.state s)
    ∙ count_state-total (contains_key k refusals) e.state s

-- Every entry of the ledger is counted once: the counts by state add up to the total, which is the
-- number of entries, and only pending entries are counted as being retried.
pub summarize-counts :
    (w : World) (capacity : ℕ) (refusals : BTreeMap ℕ)
    → ((summarize w capacity refusals).0.total ≡ length w.outbox.ledger.entries)
      × (state_sum (summarize w capacity refusals).0 ≡ length w.outbox.ledger.entries)
      × ((summarize w capacity refusals).0.busy_retrying
          ≤ (summarize w capacity refusals).0.pending_count)
unfolding summarize
summarize-counts w capacity refusals =
    let m = w.outbox.ledger.entries in
    let s : Summary = no_counts w capacity in
    let parts = count_entries-sum refusals m s (omega arith) in
    (count_entries-total refusals m s, omega (arith, parts.0), parts.1)
