-- ===== src/Manager/Rules/Period.antt =====
-- How often a rule runs: scanRules of IoTRepublicPlus/IoT/Ruler.cpp, scan after scan.
use io_trepublic_plus.Base.{
  ℕ, zero, suc, ◌+◌, ◌-◌, ◌*◌, ◌<◌, ◌≤◌, ◌^◌, ◌≡◌, sym, ap, ◌∙◌, true, Option, some, List, [], ◌∷◌,
  get_elem?, arith, ◌>>=◌, >>=-eq-some, some_inj,
}
use native.Mathlib.Nat.{suc-mul, mul-le-mul_right}
use io_trepublic_plus.Base.Int.{ℤ, pos, leb_ℤ, -ℤ_small}
use io_trepublic_plus.Json.{Jansson}
use io_trepublic_plus.Manager.State.{Manager, RuleInstance}
use io_trepublic_plus.Manager.Rules.{scan_rules}
use io_trepublic_plus.Manager.Rules.Scan.{scanned_rule, scanned_rules, scan_rules-scanned_rules}

-- A rule after so many scans.
abbrev after_scans : ℕ → ℤ → RuleInstance → RuleInstance
after_scans zero interval r = r
after_scans (suc k) interval r = scanned_rule interval (after_scans k interval r)

scanned_rule-due :
    (interval : ℤ) (r : RuleInstance)
    → leb_ℤ r.waiting_time_ms (pos 0) ≡ true
    → (scanned_rule interval r).waiting_time_ms ≡ r.rule.action_frequency
unfolding scanned_rule
scanned_rule-due interval r h = ground arith

scanned_rule-later :
    (a w : ℕ) (r : RuleInstance)
    → r.waiting_time_ms ≡ pos w
    → 0 < w
    → a ≤ w
    → w < 2 ^ 31
    → (scanned_rule (pos a) r).waiting_time_ms ≡ pos (w - a)
unfolding scanned_rule
scanned_rule-later a w r e h k s = ground (arith, -ℤ_small w a)

after_scans-waiting_time_ms :
    (q a k : ℕ) (r : RuleInstance)
    → 0 < a
    → q * a < 2 ^ 31
    → r.rule.action_frequency ≡ pos (q * a)
    → leb_ℤ r.waiting_time_ms (pos 0) ≡ true
    → k ≤ q
    → (after_scans (suc k) (pos a) r).waiting_time_ms ≡ pos ((q - k) * a)
after_scans-waiting_time_ms q a zero r ha short e due h =
    scanned_rule-due (pos a) r due ∙ e ∙ ap pos (ap (λ j. j * a) (omega arith))
after_scans-waiting_time_ms q a (suc k) r ha short e due h =
    let before = after_scans-waiting_time_ms q a k r ha short e due (omega arith) in
    let split : (q - k) * a ≡ (q - suc k) * a + a =
      ap (λ j. j * a) (omega arith) ∙ suc-mul (q - suc k) a in
    let less : (q - k) * a ≤ q * a = mul-le-mul_right a (omega arith) in
    scanned_rule-later a ((q - k) * a) (after_scans (suc k) (pos a) r) before (omega (arith, split))
      (omega (arith, split)) (omega (arith, less))
    ∙ ap pos (omega (arith, split))

get_elem?-scanned_rules :
    (interval : ℤ) (rs : List RuleInstance) (i : ℕ) (r : RuleInstance)
    → get_elem? rs i ≡ some r
    → get_elem? (scanned_rules interval rs) i ≡ some (scanned_rule interval r)
get_elem?-scanned_rules interval [] i r h = cc
get_elem?-scanned_rules interval (x ∷ rs) zero r h =
    ap (λ y. some (scanned_rule interval y)) (some_inj h)
get_elem?-scanned_rules interval (x ∷ rs) (suc i) r h = get_elem?-scanned_rules interval rs i r h

module _ (J : Jansson) where
  -- So many scans, one after the other.
  unfoldable pub scan_times : ℕ → Manager → Option Manager
  scan_times zero m = some m
  scan_times (suc k) m = scan_times k m >>= scan_rules J

  scan_times-after_scans :
      (k : ℕ) (m n : Manager) (i : ℕ) (r : RuleInstance)
      → get_elem? m.rules i ≡ some r
      → scan_times k m ≡ some n
      → (get_elem? n.rules i ≡ some (after_scans k m.action_frequency r))
        × (n.action_frequency ≡ m.action_frequency)
  unfolding scan_times
  scan_times-after_scans zero m n i r at e = (
    ap (λ x. get_elem? (Manager.rules x) i) (some_inj (sym e)) ∙ at,
    ap Manager.action_frequency (some_inj (sym e)),
  )
  scan_times-after_scans (suc k) m n i r at e =
      let (m1, ran, last) = >>=-eq-some (scan_times k m) (scan_rules J) e in
      let (here, same) = scan_times-after_scans k m m1 i r at ran in
      let whole = scan_rules-scanned_rules J m1 last in
      (
        ap (λ x. get_elem? (Manager.rules x) i) whole
            ∙ get_elem?-scanned_rules m1.action_frequency m1.rules i _ here
            ∙ ap (λ z. some (scanned_rule z (after_scans k m.action_frequency r))) same,
        ap Manager.action_frequency whole ∙ same,
      )

  -- A rule that is due, and whose frequency is q times the scans' interval, counts down from its frequency:
  -- k scans after the one that runs it, it waits for q - k intervals. So it does not run in the next
  -- q scans and is due for the one after them: it runs every q + 1 scans and not every q.
  pub scan_times-waiting_time_ms :
      (q a k i : ℕ) (m : Manager) (r : RuleInstance) {n : Manager}
      → m.action_frequency ≡ pos a
      → get_elem? m.rules i ≡ some r
      → 0 < a
      → q * a < 2 ^ 31
      → r.rule.action_frequency ≡ pos (q * a)
      → leb_ℤ r.waiting_time_ms (pos 0) ≡ true
      → k ≤ q
      → scan_times (suc k) m ≡ some n
      → (s : RuleInstance) × (get_elem? n.rules i ≡ some s)
        × (s.waiting_time_ms ≡ pos ((q - k) * a))
  scan_times-waiting_time_ms q a k i m r {n} af at ha short e due h ran =
      let (here, _) = scan_times-after_scans (suc k) m n i r at ran in
      (
        after_scans (suc k) m.action_frequency r,
        here,
        ap (λ z. RuleInstance.waiting_time_ms (after_scans (suc k) z r)) af
            ∙ after_scans-waiting_time_ms q a k r ha short e due h,
      )
