-- ===== src/GameClient/Kept.antt =====
-- What the answers to calls leave of the version headers (src/client.rs, `observe`).
use sirius_api_proxy.Base.{
  ℕ, ◌≡◌, refl, ◌∙◌, String, true, Option, none, some, arith, filter_option,
}
use sirius_api_proxy.GameClient.Versions.{
  State, Env, Headers, application_code, is_text, note_code, note_root, note_failure,
  note_credential, observe,
}

-- What an answer leaves of the version headers.
pub record IsKept (s t : State) : Type 0 where
  pub master : t.observation.master_version ≡ s.observation.master_version
  pub resource : t.observation.resource_version ≡ s.observation.resource_version
  pub retry : t.version_retry_at ≡ s.version_retry_at
  pub suspect : s.version_suspect ≡ true → t.version_suspect ≡ true

pub IsKept-refl : (s : State) → IsKept s s
IsKept-refl s = record { master = refl; resource = refl; retry = refl; suspect = λ h. h }

pub IsKept-trans : (s t u : State) → IsKept s t → IsKept t u → IsKept s u
IsKept-trans s t u a b = record {
  master = b.master ∙ a.master;
  resource = b.resource ∙ a.resource;
  retry = b.retry ∙ a.retry;
  suspect = λ h. b.suspect (a.suspect h);
}

module _ (env : Env) where
  note_code-IsKept :
      (status : Option ℕ) (sent : Option String) (s : State) → IsKept s (note_code status sent s)
  unfolding note_code
  note_code-IsKept status sent s = record {
    master = ground arith;
    resource = ground arith;
    retry = ground arith;
    suspect = λ h. ground (arith, h);
  }

  note_root-IsKept : (root : Option String) (s : State) → IsKept s (note_root root s)
  unfolding note_root
  note_root-IsKept none s = IsKept-refl s
  note_root-IsKept (some root) s = record {
    master = ground arith;
    resource = ground arith;
    retry = ground arith;
    suspect = λ h. ground (arith, h);
  }

  note_credential-IsKept :
      (credential : Option String) (s : State) → IsKept s (note_credential env credential s)
  unfolding note_credential
  note_credential-IsKept none s = IsKept-refl s
  note_credential-IsKept (some credential) s = record {
    master = ground arith;
    resource = ground arith;
    retry = ground arith;
    suspect = λ h. ground (arith, h);
  }

  note_failure-IsKept : (status : Option ℕ) (s : State) → IsKept s (note_failure status s)
  unfolding note_failure
  note_failure-IsKept status s = record {
    master = ground arith;
    resource = ground arith;
    retry = ground arith;
    suspect = λ h. ground (arith, h);
  }

  -- The steps of `observe` after the code has been noted.
  pub rest-IsKept :
      (md : Headers) (status : Option ℕ) (s : State)
      → IsKept s (
          note_credential env
            (md "x-sirius-cred")
            (note_root (md "x-sirius-env") (note_failure status s)))
  rest-IsKept md status s =
      let failed = note_failure status s in
      let rooted = note_root (md "x-sirius-env") failed in
      IsKept-trans s rooted (note_credential env (md "x-sirius-cred") rooted)
        (IsKept-trans s failed rooted (note_failure-IsKept status s)
          (note_root-IsKept (md "x-sirius-env") failed))
        (note_credential-IsKept (md "x-sirius-cred") rooted)

  abbrev pub seen : ℕ → Headers → Option ℕ → State → State
  seen now md status s = record s {
    observation = record s.observation {
      observed_at = some now;
      grpc_status = status;
      application_code = application_code md;
      maintenance = is_text (application_code md) "UNDER_MAINTENANCE";
    };
  }

  abbrev pub timed : Headers → State → State
  timed md s = record s {
    observation = record s.observation {
      server_time = filter_option (md "x-server-time") env.parses_rfc3339;
    };
  }

  pub observe-IsKept :
      (now : ℕ) (md : Headers) (status : Option ℕ) (sent : Option String) (s : State)
      → IsKept s (observe env now md status sent s)
  unfolding observe
  observe-IsKept now md status sent s =
      let coded = note_code status sent (seen now md status s) in
      let k = note_code-IsKept status sent (seen now md status s) in
      IsKept-trans s (timed md coded) (observe env now md status sent s)
        (record { master = k.master; resource = k.resource; retry = k.retry; suspect = k.suspect })
        (rest-IsKept md status (timed md coded))
