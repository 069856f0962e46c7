-- ===== src/AssetOutbox/ValidStates.antt =====
-- The states that the closures of src/asset_outbox.rs give, and what archiving leaves.
use sirius_api_proxy.Base.{
  ℕ, String, ◌≡◌, refl, Bool, true, false, not, ◌&&◌, ◌||◌, Option, none, some, arith, str_eq,
  str_eq_iff, ok, err, if◌then◌else◌, is_some_and,
}
use sirius_api_proxy.AssetOutbox.Entries.{
  Env, invalid, Entry, State, pending, sending, submitted, completed, failed, uuid, digest,
  valid_code, valid_state, same_entry,
}
use sirius_api_proxy.AssetOutbox.Store.{World}
use sirius_api_proxy.AssetOutbox.Changes.{
  sending_state, refused_state, acknowledged_state, adopted_state, completed_state, failed_state,
  is_ambiguous, same_text,
}
use sirius_api_proxy.AssetOutbox.Archive.{
  Archiving, add_file, completed_by, file_entry, archive_found,
}
use sirius_api_proxy.AssetOutbox.Validity.{IsSound, Fine, forget-IsSound}

module _ (env : Env) where
  pub Fine-sending :
      (now : ℕ) (s : State) → valid_state env s ≡ true → Fine env (sending_state now s)
  unfolding sending_state valid_state
  Fine-sending now pending v = refl
  Fine-sending now (sending at) v = refl
  Fine-sending now (submitted id) v = tt
  Fine-sending now (completed id c p) v = tt
  Fine-sending now (failed id c) v = tt

  pub Fine-refused : (s : State) → valid_state env s ≡ true → Fine env (refused_state s)
  unfolding refused_state valid_state
  Fine-refused pending v = tt
  Fine-refused (sending at) v = refl
  Fine-refused (submitted id) v = tt
  Fine-refused (completed id c p) v = tt
  Fine-refused (failed id c) v = tt

  pub Fine-if :
      (b : Bool) (t : State)
      → (b ≡ true → valid_state env t ≡ true)
      → Fine env (if b then ok t else err invalid)
  Fine-if true t f = f refl
  Fine-if false t f = tt

  pub Fine-acknowledged :
      (id : String) (s : State)
      → uuid env id ≡ true
      → valid_state env s ≡ true
      → Fine env (acknowledged_state id s)
  unfolding acknowledged_state valid_state
  Fine-acknowledged id pending u v = tt
  Fine-acknowledged id (sending at) u v = u
  Fine-acknowledged id (submitted job) u v = Fine-if (str_eq job id) (submitted job) (λ _. v)
  Fine-acknowledged id (completed job c p) u v = tt
  Fine-acknowledged id (failed job c) u v = tt

  pub Fine-adopted :
      (id : String) (s : State)
      → uuid env id ≡ true
      → valid_state env s ≡ true
      → Fine env (adopted_state id s)
  unfolding adopted_state valid_state
  Fine-adopted id pending u v = tt
  Fine-adopted id (sending at) u v = u
  Fine-adopted id (submitted job) u v = Fine-if (str_eq job id) (submitted job) (λ _. v)
  Fine-adopted id (completed job c p) u v = tt
  Fine-adopted id (failed none c) u v = Fine-if (is_ambiguous c) (submitted id) (λ _. u)
  Fine-adopted id (failed (some job) c) u v = tt

  pub Fine-completed :
      (id catalog : String) (publication : Option String) (s : State)
      → (not (digest catalog) || is_some_and publication (λ v. not (uuid env v))) ≡ false
      → valid_state env s ≡ true
      → Fine env (completed_state id catalog publication s)
  unfolding completed_state valid_state
  Fine-completed id catalog publication pending g v = tt
  Fine-completed id catalog publication (sending at) g v = tt
  Fine-completed id catalog publication (submitted job) g v =
      Fine-if (str_eq job id) (completed id catalog publication)
        (λ e. ground (arith, v, g, (str_eq_iff job id).0 e))
  Fine-completed id catalog publication (completed job c p) g v =
      Fine-if (str_eq job id && str_eq c catalog && same_text p publication) (completed job c p)
        (λ _. v)
  Fine-completed id catalog publication (failed job c) g v = tt

  pub Fine-failed :
      (code : String) (s : State)
      → valid_code code ≡ true
      → valid_state env s ≡ true
      → Fine env (failed_state code s)
  unfolding failed_state valid_state
  Fine-failed code pending c v = c
  Fine-failed code (sending at) c v = c
  Fine-failed code (submitted job) c v = ground (arith, c, v)
  Fine-failed code (completed job catalog p) c v = tt
  Fine-failed code (failed job d) c v = tt

  pub guarded-IsSound :
      {R : Type 0} (b : Bool) (w : World) (r : R) (x : World × R)
      → IsSound env w
      → (b ≡ true → IsSound env x.0)
      → IsSound env (if b then x else (w, r)).0
  guarded-IsSound true w r x s f = f refl
  guarded-IsSound false w r x s f = s

  pub refusing-IsSound :
      {R : Type 0} (b : Bool) (w : World) (r : R) (x : World × R)
      → IsSound env w
      → (b ≡ false → IsSound env x.0)
      → IsSound env (if b then (w, r) else x).0
  refusing-IsSound true w r x s f = s
  refusing-IsSound false w r x s f = f refl

  file_entry-IsSound :
      (io : Archiving) (k : String) (old : Option Entry) (e : Entry) (w : World)
      → IsSound env w
      → IsSound env (file_entry io k old e w).0
  unfolding file_entry
  file_entry-IsSound io k (some o) e w s =
      guarded-IsSound io.synchronized w _ _ s (λ _. forget-IsSound env io.written k e w s)
  file_entry-IsSound io k none e w s = guarded-IsSound io.filed w _ _ s (λ _.
      let w' : World = record w { archive = add_file k e w.archive } in
      let s' : IsSound env w' = record { good = s.good; filed = s.filed } in
      guarded-IsSound io.synchronized w' _ _ s' (λ _. forget-IsSound env io.written k e w' s'))

  pub archive_found-IsSound :
      (io : Archiving) (k id : String) (old found : Option Entry) (w : World)
      → IsSound env w
      → IsSound env (archive_found io k id old found w).0
  unfolding archive_found
  archive_found-IsSound io k id old none w s = s
  archive_found-IsSound io k id old (some e) w s =
      refusing-IsSound (not (completed_by id e.state)) w _ _ s (λ _.
        refusing-IsSound (is_some_and old (λ o. not (same_entry o e))) w _ _ s
          (λ _. file_entry-IsSound io k old e w s))
