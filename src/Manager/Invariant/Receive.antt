-- ===== src/Manager/Invariant/Receive.antt =====
-- Received data under the invariant: handlePackage and Event_ReceivedData of
-- IoTRepublicPlus/IoT/IoTManager.cpp.
use io_trepublic_plus.Base.{
  ℕ, zero, suc, ◌≡◌, subst, ◌∙◌, Option, some, inl, inr, Option-cases, List, Bytes, length,
  length-set, get_elem?, >>=-eq-some, some_inj,
}
use io_trepublic_plus.Framing.{get_completed_package}
use io_trepublic_plus.Json.{Jansson}
use io_trepublic_plus.Manager.State.{Manager, ManagerState}
use io_trepublic_plus.Manager.Handle.{
  dispatch, event_received_data, handle_loop, handle_package, manager_utility,
}
use io_trepublic_plus.Manager.Invariant.{Fits}
use io_trepublic_plus.Manager.Invariant.Dispatch.{dispatch-Keeps}

module _ (J : Jansson) (sockets : List ℕ) (Placed : ℕ → Type 0) where
  abbrev KeepsLoop : Option (Bytes × Manager) → Type 0
  KeepsLoop o = (x : Bytes × Manager) → o ≡ some x → Fits sockets Placed x.1

  handle_loop-KeepsLoop :
      (f i : ℕ) (buffer : Bytes) (m : Manager)
      → Placed i
      → Fits sockets Placed m
      → KeepsLoop (handle_loop J f i buffer m)
  unfolding handle_loop
  handle_loop-KeepsLoop zero i buffer m at w =
      λ x e. subst (λ y. Fits sockets Placed y.1) (some_inj e) w
  handle_loop-KeepsLoop (suc f) i buffer m at w =
      elim (Option-cases (get_completed_package manager_utility buffer)) [
        | inl e ↦ rw (e, handle_loop) (λ x q. cc)
        | inr (t, e) ↦ elim (Option-cases t.result) [
          | inl n ↦
              rw (e, handle_loop, n) (λ x q. subst (λ y. Fits sockets Placed y.1) (some_inj q) w)
          | inr (pkg, p) ↦
              rw (e, handle_loop, p)
                λ x q.
                  let (m1, d, later) = >>=-eq-some (dispatch J i pkg m) _ q in
                  handle_loop-KeepsLoop f i t.buffer m1 at
                    (dispatch-Keeps sockets Placed J i pkg m at w m1 d) x later
        ]
      ]

  -- The manager's state, with a number of receive buffers.
  abbrev pub FitsState : ℕ → ManagerState → Type 0
  FitsState n s = Fits sockets Placed s.manager × (length s.package_buffer ≡ n)

  handle_package-FitsState :
      (i n : ℕ) (s u : ManagerState)
      → Placed i
      → FitsState n s
      → handle_package J i s ≡ some u
      → FitsState n u
  unfolding handle_package
  handle_package-FitsState i n s u placed (w, l) e =
      let (buffer, at, e1) = >>=-eq-some (get_elem? s.package_buffer i) _ e in
      let (x, ran, e2) =
        >>=-eq-some (handle_loop J (suc (length buffer)) i buffer s.manager) _ e1 in
      subst (FitsState n) (some_inj e2) (
        handle_loop-KeepsLoop (suc (length buffer)) i buffer s.manager placed w x ran,
        length-set s.package_buffer i x.0 ∙ l,
      )

  pub event_received_data-FitsState :
      (i n k : ℕ) (buffer : Bytes) (s u : ManagerState)
      → Placed i
      → FitsState n s
      → event_received_data J i buffer k s ≡ some u
      → FitsState n u
  unfolding event_received_data
  event_received_data-FitsState i n k buffer s u placed (w, l) e =
      let (old, at, e1) = >>=-eq-some (get_elem? s.package_buffer i) _ e in
      handle_package-FitsState i n _ u placed (w, length-set s.package_buffer i _ ∙ l) e1
