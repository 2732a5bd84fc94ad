-- ===== src/Control/Pending.antt =====
-- The confirmation tokens of services/snmp-collector/internal/control/pending.go. The clock and the
-- random token are arguments; the lock makes each operation one step. A time is a number of
-- nanoseconds. The payload is a type `P`.
use monitoring_project.Prelude.{
  ℕ, ◌+◌, ◌*◌, String, not, Option, none, some, ◌=s=◌, ltb, if◌then◌else◌, Map, lookup, insert,
  delete,
}
use monitoring_project.Config.Types.{second}

-- The codes and the messages of `ProtocolError`.
pub data Code : Type 0 where
  invalid_request confirm_expired revision_mismatch validation_failed config_reload_failed : Code
  method_not_found internal : Code

pub record ProtocolError : Type 0 where
  pub code : Code
  pub message : String

-- A result of the control server.
pub data Reply (A : Type 0) : Type 0 where
  done : A → Reply A
  refused : ProtocolError → Reply A

unfoldable pub refuse : {A : Type 0} → Code → String → Reply A
refuse code message = refused (record { code = code; message = message })

pub record PendingMutation (P : Type 0) : Type 0 where
  pub token : String
  pub revision : String
  pub action : String
  pub expires_at : ℕ
  pub payload : P

abbrev pub confirm_ttl : ℕ
confirm_ttl = 60 * second

module _ {P : Type 0} where
  -- `put`, with the token that `randomToken` gave, or its error.
  unfoldable pub put :
      Option String
      → ℕ
      → String
      → String
      → P
      → Map (PendingMutation P)
      → Option (PendingMutation P) × Map (PendingMutation P)
  put none now action revision payload items = (none, items)
  put (some token) now action revision payload items =
      let item : PendingMutation P = record {
        token = token;
        revision = revision;
        action = action;
        expires_at = now + confirm_ttl;
        payload = payload;
      } in
      (some item, insert token item items)

  -- The checks of `take` on the item that it removed.
  unfoldable pub check_item : ℕ → String → String → PendingMutation P → Reply (PendingMutation P)
  check_item now revision action item =
      if ltb item.expires_at now
      then refuse confirm_expired "confirm token expired"
      else if not (item.action =s= action)
      then refuse invalid_request "confirm token action mismatch"
      else if not (item.revision =s= revision)
      then refuse revision_mismatch "configuration revision changed since prepare"
      else done item

  unfoldable pub take_found :
      Option (PendingMutation P)
      → ℕ
      → String
      → String
      → String
      → Map (PendingMutation P)
      → Reply (PendingMutation P) × Map (PendingMutation P)
  take_found none now token revision action items =
      (refuse confirm_expired "confirm token is unknown or already used", items)
  take_found (some item) now token revision action items =
      (check_item now revision action item, delete token items)

  unfoldable pub take :
      ℕ
      → String
      → String
      → String
      → Map (PendingMutation P)
      → Reply (PendingMutation P) × Map (PendingMutation P)
  take now token revision action items =
      take_found (lookup token items) now token revision action items
