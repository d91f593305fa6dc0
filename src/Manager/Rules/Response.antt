-- ===== src/Manager/Rules/Response.antt =====
-- The answer of a device to a rule: handleRulerCommand of IoTRepublicPlus/IoT/Ruler.cpp.
use io_trepublic_plus.Base.{
  ◌≡◌, sym, ap, ◌∙◌, Bool, true, false, ◌&&◌, List, [], ◌∷◌, ◌++◌, length, length-snoc, get_elem?,
  get_elem?-middle, set, set-middle, append-nil, All, append_assoc, str_eq,
}
use io_trepublic_plus.Json.{Jansson}
use io_trepublic_plus.Command.{IoTCommand}
use io_trepublic_plus.Manager.State.{Manager, RuleInstance}
use io_trepublic_plus.Manager.Rules.{answer_from, excute_write_rule, handle_ruler_command}

-- The rule waits for an answer of this id.
abbrev pub awaits : IoTCommand → RuleInstance → Bool
awaits cmd r = r.is_waiting_response && str_eq r.rule.read_id cmd.id

abbrev answered : RuleInstance → RuleInstance
answered r = record r { is_waiting_response = Bool.false }

module _ (J : Jansson) (cmd : IoTCommand) where
  answer_from-first :
      (done before : List RuleInstance) (r : RuleInstance) (after : List RuleInstance) (m : Manager)
      → m.rules ≡ done ++ (before ++ (r ∷ after))
      → All (λ x. awaits cmd x ≡ false) before
      → awaits cmd r ≡ true
      → answer_from J cmd (length (before ++ (r ∷ after))) (length done) m
        ≡ excute_write_rule J
            (length (done ++ before))
            cmd.value
            (record m { rules = done ++ before ++ (answered r ∷ after) })
  unfolding answer_from
  answer_from-first done [] r after m e h k =
      let put : set m.rules (length done) (answered r) ≡ done ++ [] ++ (answered r ∷ after) =
        ap (λ rs. set rs (length done) (answered r)) e
        ∙ set-middle done r (answered r) after
        ∙ ap (λ d. d ++ (answered r ∷ after)) (sym (append-nil done)) in
      rw (ap (λ rs. get_elem? rs (length done)) e ∙ get_elem?-middle done r after, k)
        (λ i.
          excute_write_rule J (length (sym (append-nil done) i)) cmd.value
            (record m { rules = put i }))
  answer_from-first done (x ∷ before) r after m e (h, hs) k =
      let moved = append_assoc done (x ∷ []) (before ++ (r ∷ after)) in
      rw
        (
          ap (λ rs. get_elem? rs (length done)) e ∙ get_elem?-middle done x (before ++ (r ∷ after)),
          h,
        )
        (ap (λ i. answer_from J cmd (length (before ++ (r ∷ after))) i m) (sym (length-snoc done x))
          ∙ answer_from-first (done ++ (x ∷ [])) before r after m (e ∙ sym moved) hs k
          ∙ ap
              (λ d.
                excute_write_rule J (length d) cmd.value
                  (record m { rules = d ++ (answered r ∷ after) }))
              (append_assoc done (x ∷ []) before))

  -- If some rules do not await the answer, the next one does and others follow, the answer goes to
  -- that rule alone: it no longer waits, the value is written to its target, and no rule behind it is
  -- looked at.
  pub handle_ruler_command-first :
      (before : List RuleInstance) (r : RuleInstance) (after : List RuleInstance) (m : Manager)
      → m.rules ≡ before ++ (r ∷ after)
      → All (λ x. awaits cmd x ≡ false) before
      → awaits cmd r ≡ true
      → handle_ruler_command J cmd m
        ≡ excute_write_rule J
            (length before)
            cmd.value
            (record m { rules = before ++ (record r { is_waiting_response = Bool.false } ∷ after) })
  unfolding handle_ruler_command
  handle_ruler_command-first before r after m e h k =
      ap (λ rs. answer_from J cmd (length rs) 0 m) e ∙ answer_from-first [] before r after m e h k
