-- ===== src/Manager/Events.antt =====
-- The manager as a machine: the events that reach it, the states that it can get into
-- (IoTRepublicPlus/IoT/IoTManager.cpp, Ruler.cpp). The thread of the rules and the thread of the server
-- are taken to run one event at a time.
use io_trepublic_plus.Base.{
  ℕ, ◌≡◌, refl, sym, subst, ◌∙◌, Option, some, Bytes, length, ◌>>=◌, >>=-eq-some, some_inj,
}
use io_trepublic_plus.Json.{Jansson}
use io_trepublic_plus.Manager.State.{ManagerState}
use io_trepublic_plus.Manager.Rules.{scan_rules}
use io_trepublic_plus.Manager.Handle.{event_connection_denied, event_received_data}
use io_trepublic_plus.Manager.Denied.{event_connection_denied-lem, without-WellFormed}
use io_trepublic_plus.Manager.Invariant.{WellFormed, WellFormed-Fits}
use io_trepublic_plus.Manager.Invariant.Dispatch.{scan_from-Keeps}
use io_trepublic_plus.Manager.Invariant.Receive.{event_received_data-FitsState}

-- An event of the server, or one round of the rules' thread.
pub data Event : Type 0 where
  received : ℕ → Bytes → ℕ → Event
  denied : ℕ → Event
  scan : Event

module _ (J : Jansson) where
  abbrev pub scanned : ManagerState → Option ManagerState
  scanned s = do m ← scan_rules J s.manager; some (record s { manager = m })

  unfoldable pub step : Event → ManagerState → Option ManagerState
  step (received socket_index buffer data_length) s =
      event_received_data J socket_index buffer data_length s
  step (denied socket_index) s = event_connection_denied J socket_index s
  step scan s = scanned s

  -- The states that a run can get into from one, none of its events throwing.
  pub data Reachable (s : ManagerState) : ManagerState → Type 0 where
    start : Reachable s s
    next : {t u : ManagerState} (e : Event) → Reachable s t → step e t ≡ some u → Reachable s u

  abbrev Holds : ℕ → ManagerState → Type 0
  Holds n s = WellFormed s.manager × (length s.package_buffer ≡ n)

  received-Holds :
      (i n k : ℕ) (buffer : Bytes) (s u : ManagerState)
      → Holds n s
      → event_received_data J i buffer k s ≡ some u
      → Holds n u
  received-Holds i n k buffer s u (w, l) e =
      let (fits, l1) =
        event_received_data-FitsState J s.manager.client_sockets (λ _. Unit) i n k buffer s u tt
          (WellFormed-Fits s.manager w, l) e in
      (fits.well, l1)

  denied-Holds :
      (i n : ℕ) (s u : ManagerState)
      → Holds n s
      → event_connection_denied J i s ≡ some u
      → Holds n u
  denied-Holds i n s u (w, l) e =
      subst (Holds n) (some_inj (sym (event_connection_denied-lem J i s w) ∙ e))
        (without-WellFormed i s.manager w, l)

  scanned-Holds : (n : ℕ) (s u : ManagerState) → Holds n s → scanned s ≡ some u → Holds n u
  unfolding scan_rules
  scanned-Holds n s u (w, l) e =
      let (m, ran, e1) = >>=-eq-some (scan_rules J s.manager) _ e in
      subst (Holds n) (some_inj e1) (
        (scan_from-Keeps s.manager.client_sockets (λ _. Unit) J (length s.manager.rules) 0 s.manager
            (WellFormed-Fits s.manager w) m ran).well,
        l,
      )

  -- In every state that a run gets into from a well-formed one by received data, by lost connections and by
  -- scans of the rules, in any order and with any bytes, no two devices have the same id and the rules'
  -- numbers increase below the next number; and there are as many receive buffers as before.
  pub Reachable-WellFormed :
      (s t : ManagerState)
      → WellFormed s.manager
      → Reachable s t
      → WellFormed t.manager × (length t.package_buffer ≡ length s.package_buffer)
  unfolding step
  Reachable-WellFormed s _ w start = (w, refl)
  Reachable-WellFormed s u w (next (received i buffer k) r e) =
      received-Holds i _ k buffer _ u (Reachable-WellFormed s _ w r) e
  Reachable-WellFormed s u w (next (denied i) r e) =
      denied-Holds i _ _ u (Reachable-WellFormed s _ w r) e
  Reachable-WellFormed s u w (next scan r e) = scanned-Holds _ _ u (Reachable-WellFormed s _ w r) e
