-- ===== src/Server/Polled.antt =====
-- Which descriptors `select` looks at: those of the set `master` up to `fdmax`, which is the last socket that
-- was accepted (IoTRepublicPlus/Network/TcpServer.cpp).
use io_trepublic_plus.Base.{
  ℕ, ◌<◌, ◌≡◌, refl, ap, subst, ◌∙◌, inl, inr, true, false, Bool, Bool-cases, some, List, [], ◌∷◌,
  ◌&&◌, ◌||◌, ==_refl, ==_iff, ◌==◌, leb, filter, get_elem?, arith,
}
use io_trepublic_plus.Server.{Round, ServerState, fd_isset, select_of}
use io_trepublic_plus.Server.Watched.{IsWatching}

same_head :
    (test : ℕ → Bool) (fd : ℕ) (xs : List ℕ)
    → fd_isset fd (filter test xs) ≡ (test fd && fd_isset fd xs)
    → fd_isset fd (filter test (fd ∷ xs)) ≡ (test fd && ((fd == fd) || fd_isset fd xs))
same_head test fd xs ih = elim (Bool-cases (test fd)) [
  | inl passed ↦ rw (passed, ==_refl fd) refl
  | inr refused ↦ rw (refused, ih, refused) refl
]

other_head :
    (test : ℕ → Bool) (fd x : ℕ) (xs : List ℕ)
    → (fd == x) ≡ false
    → fd_isset fd (filter test xs) ≡ (test fd && fd_isset fd xs)
    → fd_isset fd (filter test (x ∷ xs)) ≡ (test fd && ((fd == x) || fd_isset fd xs))
other_head test fd x xs other ih = elim (Bool-cases (test x)) [
  | inl passed ↦ rw (passed, other) ih
  | inr refused ↦ rw (refused, other) ih
]

fd_isset-filter :
    (test : ℕ → Bool) (fd : ℕ) (xs : List ℕ)
    → fd_isset fd (filter test xs) ≡ (test fd && fd_isset fd xs)
fd_isset-filter test fd [] = ground arith
fd_isset-filter test fd (x ∷ xs) = elim (Bool-cases (fd == x)) [
  | inl same ↦
      subst (λ k. fd_isset fd (filter test (k ∷ xs)) ≡ (test fd && ((fd == k) || fd_isset fd xs)))
        ((==_iff fd x).0 same) (same_head test fd xs (fd_isset-filter test fd xs))
  | inr other ↦ other_head test fd x xs other (fd_isset-filter test fd xs)
]

-- What `select` reports of the places of the table and of the listening socket.
pub record Polls (s : ServerState) : Type 0 where
  pub of_places :
      (r : Round) (i fd : ℕ)
      → get_elem? s.state.manager.client_sockets i ≡ some fd
      → 0 < fd
      → fd_isset fd (select_of r s) ≡ (leb fd s.fdmax && r.is_ready fd)
  pub of_listener :
      (r : Round)
      → fd_isset s.listener (select_of r s) ≡ (leb s.listener s.fdmax && r.is_ready s.listener)

and_true : (a : Bool) → (a && true) ≡ a
and_true a = ground arith

pub IsWatching-Polls : (s : ServerState) → IsWatching s → Polls s
unfolding select_of
IsWatching-Polls s w = record {
  of_places = λ r i fd at positive.
      fd_isset-filter (λ fd. leb fd s.fdmax && r.is_ready fd) fd s.master
      ∙ ap (λ b. (leb fd s.fdmax && r.is_ready fd) && b) (w.all_watched i fd at positive)
      ∙ and_true (leb fd s.fdmax && r.is_ready fd);
  of_listener = λ r.
      fd_isset-filter (λ fd. leb fd s.fdmax && r.is_ready fd) s.listener s.master
      ∙ ap (λ b. (leb s.listener s.fdmax && r.is_ready s.listener) && b) w.listens
      ∙ and_true (leb s.listener s.fdmax && r.is_ready s.listener);
}
