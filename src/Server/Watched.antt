-- ===== src/Server/Watched.antt =====
-- Which descriptors the server watches: the set `master` beside the table of the sockets
-- (IoTRepublicPlus/Network/TcpServer.cpp).
use io_trepublic_plus.Base.{
  ℕ, zero, suc, ◌<◌, ◌≡◌, ◌≢◌, ◌⊎◌, inl, inr, refl, sym, ap, subst, ◌∙◌, Bool-cases, true, false,
  some, some_inj, List, [], ◌∷◌, ◌||◌, ==_iff, ==_false, ◌==◌, get_elem?, get_elem?-set, set, arith,
}
use io_trepublic_plus.Server.{ServerState, fd_isset, fd_clr, places}

-- Every open socket of the table is watched and has one place; the listening socket is watched and has
-- none; and nothing else is watched.
pub record Watches (sockets master : List ℕ) (listener : ℕ) : Type 0 where
  pub all_watched : (i fd : ℕ) → get_elem? sockets i ≡ some fd → 0 < fd → fd_isset fd master ≡ true
  pub one_place :
      (i j fd : ℕ) → get_elem? sockets i ≡ some fd → get_elem? sockets j ≡ some fd → 0 < fd → i ≡ j
  pub all_open :
      (fd : ℕ)
      → fd_isset fd master ≡ true
      → 0 < fd
      → (fd ≡ listener) ⊎ ((i : ℕ) × (get_elem? sockets i ≡ some fd))
  pub listens : fd_isset listener master ≡ true
  pub positive : 0 < listener
  pub apart : (i : ℕ) → get_elem? sockets i ≢ some listener

abbrev pub IsWatching : ServerState → Type 0
IsWatching s = Watches s.state.manager.client_sockets s.master s.listener

set-cases :
    (xs : List ℕ) (i v j w : ℕ)
    → get_elem? (set xs i v) j ≡ some w
    → ((j ≡ i) × (w ≡ v)) ⊎ ((j ≢ i) × (get_elem? xs j ≡ some w))
set-cases [] i v j w e = cc
set-cases (x ∷ xs) zero v zero w e = inl (refl, sym (some_inj e))
set-cases (x ∷ xs) zero v (suc j) w e = inr ((λ q. cc), e)
set-cases (x ∷ xs) (suc i) v zero w e = inr ((λ q. cc), e)
set-cases (x ∷ xs) (suc i) v (suc j) w e = elim (set-cases xs i v j w e) [
  | inl (same, h) ↦ inl (ap suc same, h)
  | inr (other, h) ↦ inr ((λ q. other (omega (arith, q))), h)
]

get_elem?-set_other : (xs : List ℕ) (i v j : ℕ) → j ≢ i → get_elem? (set xs i v) j ≡ get_elem? xs j
get_elem?-set_other [] i v j h = refl
get_elem?-set_other (x ∷ xs) zero v zero h = absurd (h refl)
get_elem?-set_other (x ∷ xs) zero v (suc j) h = refl
get_elem?-set_other (x ∷ xs) (suc i) v zero h = refl
get_elem?-set_other (x ∷ xs) (suc i) v (suc j) h = get_elem?-set_other xs i v j (λ q. h (ap suc q))

fd_isset-uncons :
    (fd x : ℕ) (xs : List ℕ) → fd_isset fd (x ∷ xs) ≡ true → (fd ≡ x) ⊎ (fd_isset fd xs ≡ true)
fd_isset-uncons fd x xs h = elim (Bool-cases (fd == x)) [
  | inl e ↦ inl ((==_iff fd x).0 e)
  | inr e ↦ inr (subst (λ b. (b || fd_isset fd xs) ≡ true) e h)
]

fd_isset-cons : (fd x : ℕ) (xs : List ℕ) → fd_isset fd xs ≡ true → fd_isset fd (x ∷ xs) ≡ true
fd_isset-cons fd x xs h = ground arith

fd_isset-head : (fd x : ℕ) (xs : List ℕ) → fd ≡ x → fd_isset fd (x ∷ xs) ≡ true
fd_isset-head fd x xs h = ground arith

fd_isset-fd_clr :
    (fd gone : ℕ) (xs : List ℕ) → fd ≢ gone → fd_isset fd (fd_clr gone xs) ≡ fd_isset fd xs
fd_isset-fd_clr fd gone [] h = refl
fd_isset-fd_clr fd gone (x ∷ xs) h = elim (Bool-cases (gone == x)) [
  | inl same ↦
      rw (same, ==_false fd x (λ q. h (q ∙ sym ((==_iff gone x).0 same))))
        (fd_isset-fd_clr fd gone xs h)
  | inr other ↦ rw other (ap (λ b. (fd == x) || b) (fd_isset-fd_clr fd gone xs h))
]

fd_isset-fd_clr_gone : (gone : ℕ) (xs : List ℕ) → fd_isset gone (fd_clr gone xs) ≡ false
fd_isset-fd_clr_gone gone [] = refl
fd_isset-fd_clr_gone gone (x ∷ xs) = elim (Bool-cases (gone == x)) [
  | inl same ↦ rw same (fd_isset-fd_clr_gone gone xs)
  | inr other ↦ rw (other, other) (fd_isset-fd_clr_gone gone xs)
]

fd_isset-apart : (fd v : ℕ) (xs : List ℕ) → fd_isset fd xs ≡ false → fd_isset v xs ≡ true → v ≢ fd
fd_isset-apart fd v xs fresh seen same = let moved = ap (λ x. fd_isset x xs) same in cc

module _ (sockets master : List ℕ) (listener i : ℕ) (w : Watches sockets master listener) where
  elsewhere :
      {j v : ℕ} → get_elem? sockets i ≡ some 0 → get_elem? sockets j ≡ some v → 0 < v → j ≢ i
  elsewhere {j} {v} free at p q =
      let zero_there : v ≡ 0 = some_inj (sym at ∙ ap (get_elem? sockets) q ∙ free) in
      absurd (omega (arith, zero_there, p))

  -- A new socket, which was not watched, in a free place.
  pub place_socket-Watches :
      (fd : ℕ)
      → get_elem? sockets i ≡ some 0
      → 0 < fd
      → fd_isset fd master ≡ false
      → Watches (set sockets i fd) (fd ∷ master) listener
  place_socket-Watches fd free h fresh =
      let known : (j v : ℕ) → get_elem? sockets j ≡ some v → 0 < v → v ≢ fd =
        λ j v e p. fd_isset-apart fd v master fresh (w.all_watched j v e p) in
      record {
        all_watched = λ j v e p. elim (set-cases sockets i fd j v e) [
          | inl (_, q) ↦ fd_isset-head v fd master q
          | inr (_, old) ↦ fd_isset-cons v fd master (w.all_watched j v old p)
        ];
        one_place = λ j k v ej ek p. elim (set-cases sockets i fd j v ej) [
          | inl (jq, vq) ↦ elim (set-cases sockets i fd k v ek) [
            | inl (kq, _) ↦ jq ∙ sym kq
            | inr (_, old) ↦ absurd (known k v old p vq)
          ]
          | inr (_, jold) ↦ elim (set-cases sockets i fd k v ek) [
            | inl (_, vq) ↦ absurd (known j v jold p vq)
            | inr (_, kold) ↦ w.one_place j k v jold kold p
          ]
        ];
        all_open = λ v e p. elim (fd_isset-uncons v fd master e) [
          | inl q ↦ inr (i, get_elem?-set sockets i fd free ∙ ap some (sym q))
          | inr old ↦ elim (w.all_open v old p) [
            | inl q ↦ inl q
            | inr (j, at) ↦ inr (j, get_elem?-set_other sockets i fd j (elsewhere free at p) ∙ at)
          ]
        ];
        listens = fd_isset-cons listener fd master w.listens;
        positive = w.positive;
        apart = λ j e. elim (set-cases sockets i fd j listener e) [
          | inl (_, q) ↦ absurd (fd_isset-apart fd listener master fresh w.listens q)
          | inr (_, old) ↦ w.apart j old
        ];
      }

  -- The place of a socket that is closed is free, and the socket is not watched any more.
  pub clear-Watches :
      (socket : ℕ)
      → get_elem? sockets i ≡ some socket
      → Watches (set sockets i 0) (fd_clr socket master) listener
  clear-Watches socket at = record {
    all_watched = λ j v e p. elim (set-cases sockets i 0 j v e) [
      | inl (_, q) ↦ absurd (omega (arith, q))
      | inr (other, old) ↦
          fd_isset-fd_clr v socket master
            (λ q. other (w.one_place j i v old (at ∙ ap some (sym q)) p))
          ∙ w.all_watched j v old p
    ];
    one_place = λ j k v ej ek p. elim (set-cases sockets i 0 j v ej) [
      | inl (_, q) ↦ absurd (omega (arith, q))
      | inr (_, jold) ↦ elim (set-cases sockets i 0 k v ek) [
        | inl (_, q) ↦ absurd (omega (arith, q))
        | inr (_, kold) ↦ w.one_place j k v jold kold p
      ]
    ];
    all_open = λ v e p.
        let kept : v ≢ socket = λ q.
          fd_isset-apart v v (fd_clr socket master)
            (subst (λ x. fd_isset x (fd_clr socket master) ≡ false) (sym q)
              (fd_isset-fd_clr_gone socket master))
            e refl in
        elim (w.all_open v (sym (fd_isset-fd_clr v socket master kept) ∙ e) p) [
          | inl q ↦ inl q
          | inr (j, there) ↦ inr (
            j,
            get_elem?-set_other sockets i 0 j
                  (λ q. kept (some_inj (sym there ∙ ap (get_elem? sockets) q ∙ at)))
                ∙ there,
          )
        ];
    listens =
        fd_isset-fd_clr listener socket master (λ q. w.apart i (at ∙ ap some (sym q))) ∙ w.listens;
    positive = w.positive;
    apart = λ j e. elim (set-cases sockets i 0 j listener e) [
      | inl (_, q) ↦ absurd (omega (arith, q, w.positive))
      | inr (_, old) ↦ w.apart j old
    ];
  }

places-zero : (n i v : ℕ) → get_elem? (places n 0) i ≡ some v → v ≡ 0
places-zero zero i v e = cc
places-zero (suc n) zero v e = sym (some_inj e)
places-zero (suc n) (suc i) v e = places-zero n i v e

pub new_server-Watches :
    (listener max_client : ℕ)
    → 0 < listener
    → Watches (places max_client 0) (listener ∷ []) listener
new_server-Watches listener n h = record {
  all_watched = λ i fd e p. absurd (omega (arith, places-zero n i fd e));
  one_place = λ i j fd e q p. absurd (omega (arith, places-zero n i fd e));
  all_open = λ fd e p. elim (fd_isset-uncons fd listener [] e) [ inl q ↦ inl q | inr old ↦ cc ];
  listens = fd_isset-head listener listener [] refl;
  positive = h;
  apart = λ i e. absurd (omega (arith, places-zero n i listener e));
}
