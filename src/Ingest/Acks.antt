-- ===== src/Ingest/Acks.antt =====
-- What the handler answers the broker, and what it counts.
use monitoring_project.Prelude.{
  ℕ, suc, ◌+◌, ◌≡◌, ◌↔◌, refl, String, Bool, true, false, not, List, [], ◌∷◌, arith,
}
use monitoring_project.Prelude.Results.{Result, ok, error}
use monitoring_project.Ingest.Types.{
  Message, device, interface, device_v2, interface_v2, health_v2, heartbeat_v2, External,
}
use monitoring_project.Ingest.Handler.{
  validate, Ingestion, Persisted, inserted, duplicate, unknown_metric_type, failed, settle_device,
  settle_other, settle, Server, handle_result, handle, handle_all,
}

-- The messages that the counters tell the end of.
abbrev pub settled : Ingestion → ℕ
settled m = m.messages_accepted + m.messages_rejected + m.messages_deduplicated + m.db_write_failure

abbrev pub IsSettled : Ingestion → Ingestion × Bool → Type 0
IsSettled m r =
    (r.0.messages_received ≡ m.messages_received)
    × (settled r.0 ≡ suc (settled m))
    × ((r.1 ≡ false) ↔ (r.0.db_write_failure ≡ suc m.db_write_failure))

settle_device-IsSettled : (r : Persisted) (m : Ingestion) → IsSettled m (settle_device r m)
unfolding settle_device
settle_device-IsSettled inserted m = ground arith
settle_device-IsSettled duplicate m = ground arith
settle_device-IsSettled unknown_metric_type m = ground arith
settle_device-IsSettled failed m = ground arith

settle_other-IsSettled : (r : Persisted) (m : Ingestion) → IsSettled m (settle_other r m)
unfolding settle_other
settle_other-IsSettled inserted m = ground arith
settle_other-IsSettled duplicate m = ground arith
settle_other-IsSettled unknown_metric_type m = ground arith
settle_other-IsSettled failed m = ground arith

settle-IsSettled :
    {F U T : Type 0} (msg : Message F U T) (r : Persisted) (m : Ingestion)
    → IsSettled m (settle msg r m)
unfolding settle
settle-IsSettled (device msg) r m = settle_device-IsSettled r m
settle-IsSettled (device_v2 msg) r m = settle_device-IsSettled r m
settle-IsSettled (interface msg) r m = settle_other-IsSettled r m
settle-IsSettled (interface_v2 msg) r m = settle_other-IsSettled r m
settle-IsSettled (health_v2 msg) r m = settle_other-IsSettled r m
settle-IsSettled (heartbeat_v2 msg) r m = settle_other-IsSettled r m

-- The messages that carry a metric's name or a device's telemetry.
abbrev pub names_metrics : {F U T : Type 0} → Message F U T → Bool
names_metrics (device msg) = true
names_metrics (device_v2 msg) = true
names_metrics _ = false

-- The store could not write the message, and may when it is sent again.
abbrev pub is_failure : Bool → Persisted → Bool
is_failure named failed = true
is_failure named unknown_metric_type = not named
is_failure named _ = false

settle_device-is_failure :
    (r : Persisted) (m : Ingestion) → (settle_device r m).1 ≡ not (is_failure true r)
unfolding settle_device
settle_device-is_failure inserted m = refl
settle_device-is_failure duplicate m = refl
settle_device-is_failure unknown_metric_type m = refl
settle_device-is_failure failed m = refl

settle_other-is_failure :
    (r : Persisted) (m : Ingestion) → (settle_other r m).1 ≡ not (is_failure false r)
unfolding settle_other
settle_other-is_failure inserted m = refl
settle_other-is_failure duplicate m = refl
settle_other-is_failure unknown_metric_type m = refl
settle_other-is_failure failed m = refl

settle-is_failure :
    {F U T : Type 0} (msg : Message F U T) (r : Persisted) (m : Ingestion)
    → (settle msg r m).1 ≡ not (is_failure (names_metrics msg) r)
unfolding settle
settle-is_failure (device msg) r m = settle_device-is_failure r m
settle-is_failure (device_v2 msg) r m = settle_device-is_failure r m
settle-is_failure (interface msg) r m = settle_other-is_failure r m
settle-is_failure (interface_v2 msg) r m = settle_other-is_failure r m
settle-is_failure (health_v2 msg) r m = settle_other-is_failure r m
settle-is_failure (heartbeat_v2 msg) r m = settle_other-is_failure r m

module _ {F U T S : Type 0} (ext : External F U T)
    (persist : Message F U T → S → Persisted × S) where
  handle_result-IsSettled :
      (r : Result (Message F U T)) (s : Server S)
      → IsSettled s.metrics
          ((handle_result ext persist r s).0.metrics, (handle_result ext persist r s).1)
  unfolding handle_result
  handle_result-IsSettled (error e) s = ground arith
  handle_result-IsSettled (ok msg) s = settle-IsSettled msg (persist msg s.store).0 s.metrics

  -- Every message is counted as received and as exactly one of accepted, rejected, deduplicated or
  -- failed, and the broker is told to keep it exactly when a database failure was counted.
  pub handle-counts :
      (topic payload : String) (s : Server S)
      → ((handle ext persist topic payload s).0.metrics.messages_received
          ≡ suc s.metrics.messages_received)
        × (settled (handle ext persist topic payload s).0.metrics ≡ suc (settled s.metrics))
        × (((handle ext persist topic payload s).1 ≡ false) ↔ (
            (handle ext persist topic payload s).0.metrics.db_write_failure
            ≡ suc s.metrics.db_write_failure))
  unfolding handle
  handle-counts topic payload s =
      let m = record s.metrics { messages_received = suc s.metrics.messages_received } in
      handle_result-IsSettled (validate ext topic payload) (record s { metrics = m })

  -- A message that validates is handed to the store, and the broker may discard it unless the store
  -- failed; an unknown metric type is a failure for the messages that name no metrics only.
  pub handle-persist :
      (topic payload : String) (s : Server S) (msg : Message F U T)
      → validate ext topic payload ≡ ok msg
      → ((handle ext persist topic payload s).0.store ≡ (persist msg s.store).1)
        × ((handle ext persist topic payload s).1
            ≡ not (is_failure (names_metrics msg) (persist msg s.store).0))
  unfolding handle handle_result
  handle-persist topic payload s msg h =
      let m = record s.metrics { messages_received = suc s.metrics.messages_received } in
      rw h (refl, settle-is_failure msg (persist msg s.store).0 m)

  -- Over any messages, as many are received as are accepted, rejected, deduplicated or failed.
  pub handle_all-settled :
      (messages : List (String × String)) (s : Server S)
      → s.metrics.messages_received ≡ settled s.metrics
      → (handle_all ext persist messages s).metrics.messages_received
        ≡ settled (handle_all ext persist messages s).metrics
  unfolding handle_all
  handle_all-settled [] s h = h
  handle_all-settled ((topic, payload) ∷ messages) s h =
      let c = handle-counts topic payload s in
      handle_all-settled messages (handle ext persist topic payload s).0
        (omega (arith, c.0, c.1, h))

  -- A message that does not validate leaves the store as it is, and the broker may discard it.
  pub handle_rejected :
      (topic payload : String) (s : Server S) (e : String)
      → validate ext topic payload ≡ error e
      → ((handle ext persist topic payload s).0.store ≡ s.store)
        × ((handle ext persist topic payload s).1 ≡ true)
  unfolding handle handle_result
  handle_rejected topic payload s e h = rw h (refl, refl)
