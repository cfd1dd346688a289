-- ===== src/Agent/Sync/Outcome.antt =====
-- cmd/node-agent/main.go: what the two results of `syncConfig` mean.
use Prim.Native.String.{◌++◌}
use v2ray_platform.Base.{
  ◌≡◌, refl, ◌⊎◌, inl, inr, true, false, Option, none, some, not, ◌&&◌, arith, ◌==◌, eqb,
  Bool-cases,
}
use v2ray_platform.Base.Int64.{Int64}
use v2ray_platform.Base.Result.{Error, Result, ok, err}
use v2ray_platform.Config.{NodeAgentConfig}
use v2ray_platform.Agent.{
  AgentState, ConfigResponse, HttpResponse, Machine, Library, get_json, run_reload,
}
use v2ray_platform.Agent.Sync.{
  report_sync_result, sync_reported, config_reloaded, config_written, config_decoded,
  config_answered, sync_config,
}

module _ {W : Type 0} (m : Machine W) (k : Library) (cfg : NodeAgentConfig) (state : AgentState)
    (current_version : Int64) (start : W) where
  abbrev asked : W → Result HttpResponse × W
  asked w = get_json m (cfg.control_plane_url ++ "/api/agent/config") state.node_token w

  -- The control plane served a configuration.
  pub record Served (out : ConfigResponse) (w : W) : Type 0 where
    pub response : HttpResponse
    pub answered : asked start ≡ (ok response, w)
    pub is_ok : eqb response.status_code 200 ≡ true
    pub decoded : k.config_response response.body ≡ ok out

  -- It was written, the runtime was reloaded, and then the control plane acknowledged the report of
  -- its version.
  pub record Applied (out : ConfigResponse) (end : W) : Type 0 where
    pub served_at : W
    pub served : Served out served_at
    pub written_at : W
    pub written : m.write_file cfg.config_output_path out.config served_at ≡ (ok tt, written_at)
    pub reloaded_at : W
    pub reloaded : run_reload m cfg.reload_command written_at ≡ (ok tt, reloaded_at)
    pub reported :
        report_sync_result m k cfg state out.config_version true "applied" reloaded_at
        ≡ (ok tt, end)

  abbrev pub Outcome : (Int64 × Option Error) × W → Type 0
  Outcome ((version, some e), w) = version ≡ current_version
  Outcome ((version, none), w) =
      ((out : ConfigResponse) × Served out w
        × (version ≡ current_version)
        × (out.config_version ≡ current_version)
        × (out.config == "" ≡ false))
      ⊎ ((out : ConfigResponse) × Applied out w × (version ≡ out.config_version))

  reported-Outcome :
      (out : ConfigResponse) (w₁ w₂ w₃ : W) (p : Result (Unit {0}) × W)
      → Served out w₁
      → m.write_file cfg.config_output_path out.config w₁ ≡ (ok tt, w₂)
      → run_reload m cfg.reload_command w₂ ≡ (ok tt, w₃)
      → report_sync_result m k cfg state out.config_version true "applied" w₃ ≡ p
      → Outcome (sync_reported m k cfg state current_version out p)
  unfolding sync_reported
  reported-Outcome out w₁ w₂ w₃ (err e, w) served written reloaded reported = refl
  reported-Outcome out w₁ w₂ w₃ (ok tt, w) served written reloaded reported =
      let done : Applied out w = record {
        served_at = w₁;
        served = served;
        written_at = w₂;
        written = written;
        reloaded_at = w₃;
        reloaded = reloaded;
        reported = reported;
      } in
      inr (out, done, refl)

  reloaded-Outcome :
      (out : ConfigResponse) (w₁ w₂ : W) (p : Result (Unit {0}) × W)
      → Served out w₁
      → m.write_file cfg.config_output_path out.config w₁ ≡ (ok tt, w₂)
      → run_reload m cfg.reload_command w₂ ≡ p
      → Outcome (config_reloaded m k cfg state current_version out p)
  unfolding config_reloaded
  reloaded-Outcome out w₁ w₂ (err e, w) served written reloaded = refl
  reloaded-Outcome out w₁ w₂ (ok tt, w) served written reloaded =
      reported-Outcome out w₁ w₂ w _ served written reloaded refl

  written-Outcome :
      (out : ConfigResponse) (w₁ : W) (p : Result (Unit {0}) × W)
      → Served out w₁
      → m.write_file cfg.config_output_path out.config w₁ ≡ p
      → Outcome (config_written m k cfg state current_version out p)
  unfolding config_written
  written-Outcome out w₁ (err e, w) served written = refl
  written-Outcome out w₁ (ok tt, w) served written = reloaded-Outcome out w₁ w _ served written refl

  decoded-Outcome :
      (response : HttpResponse) (w : W) (r : Result ConfigResponse)
      → asked start ≡ (ok response, w)
      → eqb response.status_code 200 ≡ true
      → k.config_response response.body ≡ r
      → Outcome (config_decoded m k cfg state current_version r w)
  unfolding config_decoded
  decoded-Outcome response w (err e) answered fine decoded = refl
  decoded-Outcome response w (ok out) answered fine decoded =
      let served : Served out w = record {
        response = response;
        answered = answered;
        is_ok = fine;
        decoded = decoded;
      } in
      let same = eqb out.config_version current_version && not (out.config == "") in
      elim (Bool-cases same) [
        | inl current ↦ rw (current) (inl (out, served, refl, ground arith, ground arith))
        | inr other ↦ rw (other) (written-Outcome out w _ served refl)
      ]

  answered-Outcome :
      (p : Result HttpResponse × W)
      → asked start ≡ p
      → Outcome (config_answered m k cfg state current_version p)
  unfolding config_answered
  answered-Outcome (err e, w) answered = refl
  answered-Outcome (ok response, w) answered = elim (Bool-cases (eqb response.status_code 200)) [
    | inl fine ↦ rw (fine) (decoded-Outcome response w _ answered fine refl)
    | inr bad ↦ rw (bad) refl
  ]

  -- When syncConfig fails it returns the version that was running. When it succeeds, either the
  -- control plane served the running version with a configuration that is not empty, and nothing else
  -- was done, or the version returned is the one served, its text was written to the output path,
  -- then the reload command succeeded, and then the control plane acknowledged the report of success.
  pub sync_config-Outcome : Outcome (sync_config m k cfg state current_version start)
  unfolding sync_config
  sync_config-Outcome = answered-Outcome _ refl
