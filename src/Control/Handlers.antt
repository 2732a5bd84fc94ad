-- ===== src/Control/Handlers.antt =====
-- The handlers of the control server that change state,
-- services/snmp-collector/internal/control/handlers.go. The clock, the random token and the revision
-- of a configuration are arguments. Each handler is one step; the audit is the list of its entries,
-- newest first, without their times and messages.
use monitoring_project.Prelude.{
  ℕ, String, Bool, true, false, not, ◌||◌, Option, none, some, List, ◌∷◌, ◌=s=◌, if◌then◌else◌, Map,
  lookup,
}
use monitoring_project.Prelude.Results.{ok, error, Check}
use monitoring_project.Config.Types.{Std, Floats, Config}
use monitoring_project.Config.Manager.{Manager, reload}
use monitoring_project.Status.{Store, set_revision, record_reload}
use monitoring_project.Control.Pending.{
  Code, invalid_request, validation_failed, revision_mismatch, config_reload_failed, internal,
  Reply, done, refused, refuse, PendingMutation, put, take,
}
use monitoring_project.Control.Mutations.{
  Params, Disk, string_of, validate_threshold_params, validate_dependency_params,
  validate_alerting_params, apply_threshold_mutation, apply_dependency_mutation,
  apply_alerting_mutation,
}

pub record AuditEntry : Type 0 where
  pub action : String
  pub success : Bool
  pub code : Option Code
  pub revision : String

pub record Server (F D : Type 0) : Type 0 where
  pub manager : Manager F
  pub pending : Map (PendingMutation (Params F))
  pub status : Store F
  pub disk : D
  pub audit : List AuditEntry

-- What the clock and the random source give to one request.
pub record Moment : Type 0 where
  pub now : ℕ
  pub random : Option String

-- What a request answers: the token, its revision and expiry; that it was written; or the revision
-- after a reload.
pub data Answer : Type 0 where
  prepared : String → String → ℕ → Answer
  written : String → Answer
  reloaded : String → Answer

pub record Action (F D : Type 0) : Type 0 where
  pub name : String  -- the action of the token
  pub prepare_name : String  -- the actions of the audit
  pub commit_name : String
  pub check : Params F → Check
  pub apply : Config F → Params F → D → Option (Reply Unit × D)

module _ {F D : Type 0} where
  unfoldable pub record_audit : String → Bool → Option Code → String → Server F D → Server F D
  record_audit action success code revision s = record s {
    audit =
        record { action = action; success = success; code = code; revision = revision } ∷ s.audit;
  }

  module _ (fl : Floats F) (std : Std) (disk : Disk F D) where
    abbrev pub thresholds : Action F D
    thresholds = record {
      name = "thresholds";
      prepare_name = "thresholds.prepare";
      commit_name = "thresholds.commit";
      check = validate_threshold_params;
      apply = apply_threshold_mutation fl std disk;
    }

    abbrev pub dependencies : Action F D
    dependencies = record {
      name = "dependencies";
      prepare_name = "dependencies.prepare";
      commit_name = "dependencies.commit";
      check = validate_dependency_params;
      apply = apply_dependency_mutation fl std disk;
    }

    abbrev pub alerting : Action F D
    alerting = record {
      name = "device.alerting";
      prepare_name = "device.alerting.prepare";
      commit_name = "device.alerting.commit";
      check = validate_alerting_params;
      apply = apply_alerting_mutation fl std disk;
    }

  module _ (revision_of : Config F → String) where
    unfoldable pub active_revision : Server F D → String
    active_revision s = revision_of s.manager.current

    unfoldable pub prepare_put :
        Action F D → Option (PendingMutation (Params F)) → Server F D → Reply Answer × Server F D
    prepare_put a none s = (refuse internal "random source failed", s)
    prepare_put a (some item) s = (
      done (prepared item.token item.revision item.expires_at),
      record_audit a.prepare_name true none (active_revision s) s,
    )

    -- `handleThresholdsPrepare`, `handleDependenciesPrepare` and `handleAlertingPrepare`.
    unfoldable pub prepare : Action F D → Moment → Params F → Server F D → Reply Answer × Server F D
    prepare a t params s = elim (a.check params) [
      | error e ↦ (
        refuse validation_failed e,
        record_audit a.prepare_name false (some validation_failed) "" s,
      )
      | ok _ ↦
          let p = put t.random t.now a.name (active_revision s) params s.pending in
          prepare_put a p.0 (record s { pending = p.1 })
    ]

    unfoldable pub commit_applied :
        Action F D
        → String
        → Option (Reply Unit × D)
        → Server F D
        → Option (Reply Answer × Server F D)
    commit_applied a revision none s = none
    commit_applied a revision (some (refused e, d)) s = some (
      refused e,
      record_audit a.commit_name false (some validation_failed) revision (record s { disk = d }),
    )
    commit_applied a revision (some (done _, d)) s = some (
      done (written revision),
      record_audit a.commit_name true none revision (record s { disk = d }),
    )

    unfoldable pub commit_taken :
        Action F D
        → String
        → Reply (PendingMutation (Params F))
        → Server F D
        → Option (Reply Answer × Server F D)
    commit_taken a revision (refused e) s =
        some (refused e, record_audit a.commit_name false (some e.code) revision s)
    commit_taken a revision (done item) s =
        commit_applied a revision (a.apply s.manager.current item.payload s.disk) s

    -- `handleThresholdsCommit`, `handleDependenciesCommit` and `handleAlertingCommit`.
    unfoldable pub commit :
        Action F D → Moment → Params F → Server F D → Option (Reply Answer × Server F D)
    commit a t params s =
        let token = string_of (lookup "confirm_token" params) in
        let revision = string_of (lookup "revision" params) in
        let p = take t.now token revision a.name s.pending in
        if token =s= "" || revision =s= ""
        then some (
          refuse invalid_request "confirm_token and revision are required",
          record_audit a.commit_name false (some invalid_request) "" s,
        )
        else if not (revision =s= active_revision s)
        then some (
          refuse revision_mismatch "configuration revision changed since prepare",
          record_audit a.commit_name false (some revision_mismatch) (active_revision s) s,
        )
        else commit_taken a revision p.0 (record s { pending = p.1 })

    module _ (fl : Floats F) (std : Std) (disk : Disk F D) where
      unfoldable pub reload_reply :
          ℕ → Option (Check × Manager F) → Server F D → Option (Reply Answer × Server F D)
      reload_reply now none s = none
      reload_reply now (some (error e, m)) s =
          let t = record s { manager = m } in
          let status = record_reload now false e (active_revision t) s.status in
          some (
            refuse config_reload_failed e,
            record_audit "config.reload" false (some config_reload_failed) ""
                (record t { status = status }),
          )
      reload_reply now (some (ok _, m)) s =
          let t = record s { manager = m } in
          let rev = active_revision t in
          let status = set_revision rev (record_reload now true "" rev s.status) in
          some (
            done (reloaded rev),
            record_audit "config.reload" true none rev (record t { status = status }),
          )

      unfoldable pub handle_config_reload : ℕ → Server F D → Option (Reply Answer × Server F D)
      handle_config_reload now s = reload_reply now (reload fl std (disk.files s.disk) s.manager) s

      -- `handle`; `live` is that the context is not done, and `others` answers the methods that change nothing here and those of discovery.
      unfoldable pub handle :
          (String → Params F → Server F D → Option (Reply Answer × Server F D))
          → Bool
          → String
          → Moment
          → Params F
          → Server F D
          → Option (Reply Answer × Server F D)
      handle others live method t params s =
          if not live
          then some (refuse internal "request cancelled", s)
          else if method =s= "config.reload"
          then handle_config_reload t.now s
          else if method =s= "thresholds.prepare"
          then some (prepare (thresholds fl std disk) t params s)
          else if method =s= "thresholds.commit"
          then commit (thresholds fl std disk) t params s
          else if method =s= "dependencies.prepare"
          then some (prepare (dependencies fl std disk) t params s)
          else if method =s= "dependencies.commit"
          then commit (dependencies fl std disk) t params s
          else if method =s= "device.alerting.prepare"
          then some (prepare (alerting fl std disk) t params s)
          else if method =s= "device.alerting.commit"
          then commit (alerting fl std disk) t params s
          else others method params s
