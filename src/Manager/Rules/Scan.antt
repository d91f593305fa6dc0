-- ===== src/Manager/Rules/Scan.antt =====
-- A round of the rules' thread: scanRules of IoTRepublicPlus/IoT/Ruler.cpp with excuteReadRule of
-- IoTManager.cpp.
use io_trepublic_plus.Base.{
  ℕ, ◌≡◌, refl, sym, ap, subst, ◌∙◌, Bool, some, List, [], ◌∷◌, ◌++◌, inl, inr, Bool-cases,
  Option-cases, Bytes, length, length-snoc, get_elem?, get_elem?-middle, get_elem?-set, set,
  set-middle, set-set, set-same, append_assoc, if◌then◌else◌, Returns, Returns-some, Returns-none,
  Returns-bind, Returns-if,
}
use io_trepublic_plus.Base.Int.{ℤ, pos, leb_ℤ, ◌-ℤ◌}
use io_trepublic_plus.Json.{Jansson}
use io_trepublic_plus.Command.{command_of, read_request}
use io_trepublic_plus.Manager.State.{
  Manager, RuleInstance, is_empty, send_on, send_data_to_exists_connection,
}
use io_trepublic_plus.Manager.Devices.{find_device_index_by_iot_ip}
use io_trepublic_plus.Manager.Rules.{
  excute_read_rule, scan_from, scan_rule, scan_rules, send_to_device,
}

-- A rule that is asked for: it waits for the answer if there is someone to tell.
abbrev pub asked : RuleInstance → RuleInstance
asked r =
    if is_empty r.rule.read_from
    then r
    else if is_empty r.rule.write_to
    then r
    else record r { is_waiting_response = Bool.true }

-- What a scan with an interval makes of a rule.
unfoldable pub scanned_rule : ℤ → RuleInstance → RuleInstance
scanned_rule interval r =
    if leb_ℤ r.waiting_time_ms (pos 0)
    then asked (record r { waiting_time_ms = r.rule.action_frequency })
    else record r { waiting_time_ms = r.waiting_time_ms -ℤ interval }

abbrev pub scanned_rules : ℤ → List RuleInstance → List RuleInstance
scanned_rules interval [] = []
scanned_rules interval (r ∷ rs) = scanned_rule interval r ∷ scanned_rules interval rs

-- The manager as it was, but for the rules and what is sent.
abbrev HasRules : Manager → List RuleInstance → Manager → Type 0
HasRules m rs n = n ≡ record m { rules = rs; sent = n.sent }

send_on-HasRules :
    (socket : ℕ) (buffer : Bytes) (m : Manager)
    → Returns (HasRules m m.rules) (send_on socket buffer m)
unfolding send_on
send_on-HasRules socket buffer m =
    Returns-if (HasRules m m.rules) _ _ _
      (Returns-if (HasRules m m.rules) _ _ _ (Returns-none (HasRules m m.rules))
        (Returns-some (HasRules m m.rules) _ refl))
      (Returns-some (HasRules m m.rules) m refl)

send-HasRules :
    (socket_index : ℕ) (buffer : Bytes) (m : Manager)
    → Returns (HasRules m m.rules) (send_data_to_exists_connection socket_index buffer m)
unfolding send_data_to_exists_connection
send-HasRules socket_index buffer m =
    Returns-bind (HasRules m m.rules) (get_elem? m.client_sockets socket_index) _
      λ socket _. send_on-HasRules socket buffer m

send_to_device-HasRules :
    (ip bytes : Bytes) (m : Manager) → Returns (HasRules m m.rules) (send_to_device ip bytes m)
unfolding send_to_device
send_to_device-HasRules ip bytes m =
    elim (Option-cases (find_device_index_by_iot_ip ip m.registed_devices)) [
      | inl e ↦ rw (e, send_to_device) (Returns-some (HasRules m m.rules) m refl)
      | inr (i, e) ↦
          rw (e, send_to_device)
            (Returns-bind (HasRules m m.rules) (get_elem? m.registed_devices i) _
              λ d _. send-HasRules d.socket_index bytes m)
    ]

module _ (J : Jansson) where
  excute_read_rule-HasRules :
      (i : ℕ) (m : Manager) (r : RuleInstance)
      → get_elem? m.rules i ≡ some r
      → Returns (HasRules m (set m.rules i (asked r))) (excute_read_rule J i m)
  unfolding excute_read_rule
  excute_read_rule-HasRules i m r e = elim (Bool-cases (is_empty r.rule.read_from)) [
    | inl h ↦
        rw (e, h)
          (Returns-some (HasRules m _) m
            (ap (λ rs. record m { rules = rs }) (sym (set-same m.rules i e))))
    | inr h ↦ elim (Bool-cases (is_empty r.rule.write_to)) [
      | inl k ↦
          rw (e, h, k)
            (Returns-bind (HasRules m _)
              (command_of J read_request r.rule.read_id r.rule.read_value) _
              λ cmd _ n q.
                send_to_device-HasRules r.rule.read_from _ m n q
                ∙ ap (λ rs. record m { rules = rs; sent = n.sent }) (sym (set-same m.rules i e)))
      | inr k ↦
          rw (e, h, k)
            (Returns-bind (HasRules m _)
              (command_of J read_request r.rule.read_id r.rule.read_value) _
              λ cmd _. send_to_device-HasRules r.rule.read_from _ _)
    ]
  ]

  scan_rule-HasRules :
      (i : ℕ) (m : Manager) (r : RuleInstance)
      → get_elem? m.rules i ≡ some r
      → Returns (HasRules m (set m.rules i (scanned_rule m.action_frequency r))) (scan_rule J i m)
  unfolding scan_rule scanned_rule
  scan_rule-HasRules i m r e =
      let due : RuleInstance = record r { waiting_time_ms = r.rule.action_frequency } in
      elim (Bool-cases (leb_ℤ r.waiting_time_ms (pos 0))) [
        | inl h ↦
            rw (e, h)
              λ n q.
                excute_read_rule-HasRules i (record m { rules = set m.rules i due }) due
                  (get_elem?-set m.rules i due e) n q
                ∙ ap (λ rs. record m { rules = rs; sent = n.sent })
                    (set-set m.rules i due (asked due))
        | inr h ↦ rw (e, h) (Returns-some (HasRules m _) _ refl)
      ]

  scan_from-HasRules :
      (done rest : List RuleInstance) (m : Manager)
      → m.rules ≡ done ++ rest
      → Returns
          (HasRules m (done ++ scanned_rules m.action_frequency rest))
          (scan_from J (length rest) (length done) m)
  unfolding scan_from
  scan_from-HasRules done [] m e =
      Returns-some (HasRules m _) m (ap (λ rs. record m { rules = rs }) e)
  scan_from-HasRules done (r ∷ rest) m e =
      let r1 = scanned_rule m.action_frequency r in
      let here = ap (λ rs. get_elem? rs (length done)) e ∙ get_elem?-middle done r rest in
      let put : set m.rules (length done) r1 ≡ (done ++ (r1 ∷ [])) ++ rest =
        ap (λ rs. set rs (length done) r1) e
        ∙ set-middle done r r1 rest
        ∙ sym (append_assoc done (r1 ∷ []) rest) in
      Returns-bind (HasRules m _) (scan_rule J (length done) m) _ λ m1 q n q1.
        let first = scan_rule-HasRules (length done) m r here m1 q in
        let later =
          scan_from-HasRules (done ++ (r1 ∷ [])) rest m1 (ap Manager.rules first ∙ put) n
            (subst (λ i. scan_from J (length rest) i m1 ≡ some n) (sym (length-snoc done r1)) q1) in
        let finished : Manager → Manager = λ x. record x {
          rules = done ++ (r1 ∷ []) ++ scanned_rules x.action_frequency rest;
          sent = n.sent;
        } in
        later
        ∙ ap finished first
        ∙ ap (λ rs. record m { rules = rs; sent = n.sent })
            (append_assoc done (r1 ∷ []) (scanned_rules m.action_frequency rest))

  -- Wherever a scan returns, each rule is as the scan's interval makes of it, in the same order, and the
  -- manager is otherwise as it was, but for what is sent.
  pub scan_rules-scanned_rules :
      (m : Manager) {n : Manager}
      → scan_rules J m ≡ some n
      → n ≡ record m { rules = scanned_rules m.action_frequency m.rules; sent = n.sent }
  unfolding scan_rules
  scan_rules-scanned_rules m {n} e = scan_from-HasRules [] m.rules m refl n e
