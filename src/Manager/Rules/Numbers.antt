-- ===== src/Manager/Rules/Numbers.antt =====
-- The rules' numbers, and the loop of noticeReloadDeviceList that removes rules by number while it
-- walks the list.
use io_trepublic_plus.Base.{
  ℕ, zero, suc, ◌+◌, ◌≤◌, ◌≡◌, ◌≢◌, refl, sym, ap, subst, ◌∙◌, Bool, not, some, List, [], ◌∷◌, ◌++◌,
  inl, inr, Bool-cases, length, length-snoc, some_inj, get_elem?, get_elem?-middle, set, filter,
  append_assoc, arith, All, ==_refl, ==_false,
}
use io_trepublic_plus.Manager.State.{DeviceInfo, Manager, RuleInstance}
use io_trepublic_plus.Manager.Rules.{remove_rule, is_stale, notice_from, notice_reload_device_list}

-- The numbers increase along the list, from one bound up to below another.
abbrev pub Numbered : ℕ → ℕ → List RuleInstance → Type 0
Numbered lo hi [] = lo ≤ hi
Numbered lo hi (r ∷ rs) = (lo ≤ r.rule_id) × Numbered (suc r.rule_id) hi rs

Numbered-le : (lo hi : ℕ) (rs : List RuleInstance) → Numbered lo hi rs → lo ≤ hi
Numbered-le lo hi [] h = h
Numbered-le lo hi (r ∷ rs) (h, k) = omega (arith, Numbered-le (suc r.rule_id) hi rs k)

Numbered-lower :
    (lo lo' hi : ℕ) (rs : List RuleInstance) → lo' ≤ lo → Numbered lo hi rs → Numbered lo' hi rs
Numbered-lower lo lo' hi [] l h = omega arith
Numbered-lower lo lo' hi (r ∷ rs) l (h, k) = (omega arith, k)

pub Numbered-filter :
    (test : RuleInstance → Bool) (lo hi : ℕ) (rs : List RuleInstance)
    → Numbered lo hi rs
    → Numbered lo hi (filter test rs)
Numbered-filter test lo hi [] h = h
Numbered-filter test lo hi (r ∷ rs) (h, k) =
    let rest = Numbered-filter test (suc r.rule_id) hi rs k in
    elim (Bool-cases (test r)) [
      | inl e ↦ rw e (h, rest)
      | inr e ↦ rw e (Numbered-lower (suc r.rule_id) lo hi (filter test rs) (omega arith) rest)
    ]

pub Numbered-snoc :
    (lo hi : ℕ) (rs : List RuleInstance) (r : RuleInstance)
    → r.rule_id ≡ hi
    → Numbered lo hi rs
    → Numbered lo (hi + 1) (rs ++ (r ∷ []))
Numbered-snoc lo hi [] r e h = (omega arith, omega arith)
Numbered-snoc lo hi (x ∷ xs) r e (h, k) = (h, Numbered-snoc (suc x.rule_id) hi xs r e k)

-- A rule that is written back keeps its number.
pub Numbered-set :
    (lo hi i : ℕ) (rs : List RuleInstance) (r s : RuleInstance)
    → get_elem? rs i ≡ some r
    → s.rule_id ≡ r.rule_id
    → Numbered lo hi rs
    → Numbered lo hi (set rs i s)
Numbered-set lo hi i [] r s e same h = h
Numbered-set lo hi zero (x ∷ xs) r s e same (h, k) =
    let at : s.rule_id ≡ x.rule_id = same ∙ ap RuleInstance.rule_id (some_inj (sym e)) in
    (omega arith, subst (λ n. Numbered (suc n) hi xs) (sym at) k)
Numbered-set lo hi (suc i) (x ∷ xs) r s e same (h, k) =
    (h, Numbered-set (suc x.rule_id) hi i xs r s e same k)

Numbered-split :
    (lo hi : ℕ) (xs : List RuleInstance) (r : RuleInstance) (ys : List RuleInstance)
    → Numbered lo hi (xs ++ (r ∷ ys))
    → (lo ≤ r.rule_id) × All (λ x. x.rule_id ≢ r.rule_id) xs
Numbered-split lo hi [] r ys (h, k) = (h, tt)
Numbered-split lo hi (x ∷ xs) r ys (h, k) =
    let (l, a) = Numbered-split (suc x.rule_id) hi xs r ys k in
    (omega arith, ((λ q. omega arith), a))

remove_rule-middle :
    (xs : List RuleInstance) (r : RuleInstance) (ys : List RuleInstance)
    → All (λ x. x.rule_id ≢ r.rule_id) xs
    → remove_rule r.rule_id (xs ++ (r ∷ ys)) ≡ xs ++ ys
unfolding remove_rule
remove_rule-middle [] r ys h = rw (==_refl r.rule_id) refl
remove_rule-middle (x ∷ xs) r ys (h, k) =
    rw (==_false x.rule_id r.rule_id h) (ap (◌∷◌ x) (remove_rule-middle xs r ys k))

Numbered-drop :
    (lo hi : ℕ) (xs : List RuleInstance) (r : RuleInstance) (ys : List RuleInstance)
    → Numbered lo hi (xs ++ (r ∷ ys))
    → Numbered lo hi (xs ++ ys)
Numbered-drop lo hi [] r ys (h, k) = Numbered-lower (suc r.rule_id) lo hi ys (omega arith) k
Numbered-drop lo hi (x ∷ xs) r ys (h, k) = (h, Numbered-drop (suc x.rule_id) hi xs r ys k)

notice_from-filter :
    (ds : List DeviceInfo) (lo hi : ℕ) (kept rs : List RuleInstance)
    → Numbered lo hi (kept ++ rs)
    → notice_from ds (length rs) (length kept) (kept ++ rs)
      ≡ some (kept ++ filter (λ r. not (is_stale ds r.rule)) rs)
unfolding notice_from
notice_from-filter ds lo hi kept [] n = refl
notice_from-filter ds lo hi kept (r ∷ rs) n = elim (Bool-cases (is_stale ds r.rule)) [
  | inl h ↦
      rw
        (
          get_elem?-middle kept r rs,
          h,
          remove_rule-middle kept r rs (Numbered-split lo hi kept r rs n).1,
        )
        (notice_from-filter ds lo hi kept rs (Numbered-drop lo hi kept r rs n))
  | inr h ↦
      rw (get_elem?-middle kept r rs, h, sym (append_assoc kept (r ∷ []) rs))
        (ap (λ i. notice_from ds (length rs) i (kept ++ (r ∷ []) ++ rs)) (sym (length-snoc kept r))
          ∙ notice_from-filter ds lo hi (kept ++ (r ∷ [])) rs
              (subst (Numbered lo hi) (sym (append_assoc kept (r ∷ []) rs)) n)
          ∙ ap some (append_assoc kept (r ∷ []) (filter (λ x. not (is_stale ds x.rule)) rs)))
]

-- Where the rules' numbers increase below the next number, noticeReloadDeviceList returns: it leaves
-- exactly the rules of which the source and the target are both named and registered, in their order,
-- and changes nothing else.
pub notice_reload_device_list-filter :
    (m : Manager)
    → Numbered 0 m.next_rule_id m.rules
    → notice_reload_device_list m
      ≡ some (record m { rules = filter (λ r. not (is_stale m.registed_devices r.rule)) m.rules })
unfolding notice_reload_device_list
notice_reload_device_list-filter m n =
    rw (notice_from-filter m.registed_devices 0 m.next_rule_id [] m.rules n) refl
