-- ===== src/Manager/Chunks.antt =====
-- A stream of packages that comes in on one socket, cut anywhere by TCP: the manager's
-- Event_ReceivedData (IoTRepublicPlus/IoT/IoTManager.cpp), once for each part.
use io_trepublic_plus.Base.{
  ℕ, suc, ◌^◌, ◌<◌, ◌≡◌, inl, inr, refl, sym, subst, ap, ◌∙◌, Option, none, some, List, [], ◌∷◌,
  ◌++◌, arith, Bytes, length, get_elem?, set, take-all, get_elem?-set, set-set, append-cases,
  append-nil_right, length-append, ◌>>=◌, >>=_some, All-split, >>=_assoc, All, fun_ext,
  append_assoc, append-nil,
}
use io_trepublic_plus.Json.{Jansson}
use io_trepublic_plus.Manager.State.{Manager, ManagerState}
use io_trepublic_plus.Manager.Handle.{dispatch, handle_package, event_received_data}
use io_trepublic_plus.Manager.Stream.{
  Message, IsSendable, wire_of, wires, Pending, dispatch_all, handle_loop-wires, sent_package,
}

-- A front part of a stream holds some whole messages and a front part of the next one.
pub record Split (xs : List Message) (rest us vs : Bytes) : Type 0 where
  pub done : List Message
  pub later : List Message
  pub pending : Bytes
  pub is_pending : Pending pending
  pub messages : done ++ later ≡ xs
  pub front : us ≡ wires done ++ pending
  pub back : pending ++ vs ≡ wires later ++ rest

pub Split-wires :
    (xs : List Message) (us vs pre : Bytes)
    → All IsSendable xs
    → Pending pre
    → us ++ vs ≡ wires xs ++ pre
    → Split xs pre us vs
Split-wires [] us vs pre s p e = record {
  done = [];
  later = [];
  pending = us;
  is_pending = record {
    message = p.message;
    sendable = p.sendable;
    missing = vs ++ p.missing;
    not_whole = λ q. p.not_whole (append-nil_right vs p.missing q);
    splits = sym (append_assoc us vs p.missing) ∙ ap (λ z. z ++ p.missing) e ∙ p.splits;
  };
  messages = refl;
  front = refl;
  back = e;
}
Split-wires (x ∷ xs) us vs pre (s, ss) p e =
    elim (append-cases us vs (wire_of x) (wires xs ++ pre)
      (e ∙ append_assoc (wire_of x) (wires xs) pre)) [
        | inl (zs, n, h) ↦ record {
          done = [];
          later = x ∷ xs;
          pending = us;
          is_pending = record {
            message = x;
            sendable = s;
            missing = zs;
            not_whole = n;
            splits = h;
          };
          messages = refl;
          front = refl;
          back = e;
        }
        | inr (zs, h, k) ↦
            let r = Split-wires xs zs vs pre ss p k in
            record {
              done = x ∷ r.done;
              later = r.later;
              pending = r.pending;
              is_pending = r.is_pending;
              messages = ap (◌∷◌ x) r.messages;
              front =
                  h
                  ∙ ap (λ z. wire_of x ++ z) r.front
                  ∙ sym (append_assoc (wire_of x) (wires r.done) r.pending);
              back = r.back;
            }
      ]

abbrev with_left : Bytes → Manager → Option (Bytes × Manager)
with_left left m = some (left, m)

abbrev store : List Bytes → ℕ → Bytes × Manager → Option ManagerState
store bs i x = some (record { manager = x.1; package_buffer = set bs i x.0 })

abbrev stored : List Bytes → Manager → ManagerState
stored bs m = record { manager = m; package_buffer = bs }

store-left :
    (o : Option Manager) (bs : List Bytes) (i : ℕ) (mid left : Bytes)
    → (o >>= with_left left >>= store (set bs i mid) i)
      ≡ (o >>= λ m1. some (stored (set bs i left) m1))
store-left none bs i mid left = refl
store-left (some m) bs i mid left = ap (λ b. some (stored b m)) (set-set bs i mid left)

module _ (J : Jansson) (socket_index : ℕ) where
  dispatch_all-append :
      (xs ys : List Message) (m : Manager)
      → dispatch_all J socket_index (xs ++ ys) m
        ≡ (dispatch_all J socket_index xs m >>= dispatch_all J socket_index ys)
  unfolding dispatch_all
  dispatch_all-append [] ys m = refl
  dispatch_all-append (x ∷ xs) ys m =
      ap (λ next. dispatch J socket_index (sent_package x) m >>= next)
        (fun_ext λ m1. dispatch_all-append xs ys m1)
      ∙ sym (
          >>=_assoc (dispatch J socket_index (sent_package x) m) (dispatch_all J socket_index xs)
            (dispatch_all J socket_index ys))

  -- The bytes come in parts, each one call of the handler.
  unfoldable pub receive_parts : List Bytes → ManagerState → Option ManagerState
  receive_parts [] s = some s
  receive_parts (c ∷ cs) s = event_received_data J socket_index c (length c) s >>= receive_parts cs

  abbrev pub join : List Bytes → Bytes
  join [] = []
  join (c ∷ cs) = c ++ join cs

  -- The state after some messages have been dispatched, with what is left of the stream.
  abbrev pub dispatched : List Message → Bytes → ManagerState → Option ManagerState
  dispatched xs left s = dispatch_all J socket_index xs s.manager >>= λ m1.
      some (stored (set s.package_buffer socket_index left) m1)

  event_received_data-wires :
      (xs : List Message) (old c pre : Bytes) (s : ManagerState)
      → All IsSendable xs
      → Pending pre
      → get_elem? s.package_buffer socket_index ≡ some old
      → old ++ c ≡ wires xs ++ pre
      → length (wires xs ++ pre) < 2 ^ 31
      → event_received_data J socket_index c (length c) s ≡ dispatched xs pre s
  unfolding event_received_data handle_package
  event_received_data-wires xs old c pre s k p at e short =
      rw
        (
          at,
          take-all c,
          get_elem?-set s.package_buffer socket_index (old ++ c) at,
          e,
          handle_loop-wires J socket_index (suc (length (wires xs ++ pre))) xs pre s.manager k p
              short (omega arith),
        )
        (store-left (dispatch_all J socket_index xs s.manager) s.package_buffer socket_index
          (wires xs ++ pre) pre)

  dispatched-dispatched :
      (xs ys : List Message) (mid left : Bytes) (s : ManagerState)
      → (dispatched xs mid s >>= dispatched ys left) ≡ dispatched (xs ++ ys) left s
  dispatched-dispatched xs ys mid left s =
      >>=_assoc (dispatch_all J socket_index xs s.manager) _ (dispatched ys left)
      ∙ ap (λ next. dispatch_all J socket_index xs s.manager >>= next)
          (fun_ext λ m1.
            ap (λ b. dispatch_all J socket_index ys m1 >>= λ m2. some (stored b m2))
              (set-set s.package_buffer socket_index mid left))
      ∙ sym (
          >>=_assoc (dispatch_all J socket_index xs s.manager) (dispatch_all J socket_index ys)
            λ m2. some (stored (set s.package_buffer socket_index left) m2))
      ∙ ap (λ o. o >>= λ m2. some (stored (set s.package_buffer socket_index left) m2))
          (sym (dispatch_all-append xs ys s.manager))

  -- A stream of whole messages and then a proper front part of one, shorter than 2 ^ 31 bytes, of which
  -- the first bytes stand in the receive buffer and the others come in one or more parts, however
  -- they are cut: the manager dispatches the very packages that were sent, each once and in their
  -- order, leaves the front part in the buffer and touches no other buffer.
  pub receive_parts-wires :
      (xs : List Message) (old c : Bytes) (cs : List Bytes) (pre : Bytes) (s : ManagerState)
      → All IsSendable xs
      → Pending pre
      → get_elem? s.package_buffer socket_index ≡ some old
      → old ++ (c ++ join cs) ≡ wires xs ++ pre
      → length (wires xs ++ pre) < 2 ^ 31
      → receive_parts (c ∷ cs) s ≡ dispatched xs pre s
  unfolding receive_parts
  receive_parts-wires xs old c [] pre s k p at e short =
      rw
        (event_received_data-wires xs old c pre s k p at (ap (◌++◌ old) (sym (append-nil c)) ∙ e)
          short)
        (>>=_some (dispatched xs pre s))
  receive_parts-wires xs old c (d ∷ cs) pre s k p at e short =
      let r =
        Split-wires xs (old ++ c) (d ++ join cs) pre k p (append_assoc old c (d ++ join cs) ∙ e) in
      let (k1, k2) =
        All-split IsSendable r.done r.later (subst (All IsSendable) (sym r.messages) k) in
      let total = ap length e in
      let sizes1 = length-append old (c ++ (d ++ join cs)) in
      let sizes2 = length-append c (d ++ join cs) in
      let sizes3 = length-append old c in
      let front = ap length r.front in
      let back = ap length r.back in
      let sizes4 = length-append r.pending (d ++ join cs) in
      let sizes5 = length-append (wires r.done) r.pending in
      let first =
        event_received_data-wires r.done old c r.pending s k1 r.is_pending at r.front
          (omega (arith, total, sizes1, sizes2, sizes3, front)) in
      let short2 : length (wires r.later ++ pre) < 2 ^ 31 =
        omega (arith, total, sizes1, sizes2, sizes3, front, back, sizes4, sizes5) in
      ap (λ o. o >>= receive_parts (d ∷ cs)) first
      ∙ >>=_assoc (dispatch_all J socket_index r.done s.manager) _ (receive_parts (d ∷ cs))
      ∙ ap (λ next. dispatch_all J socket_index r.done s.manager >>= next)
          (fun_ext λ m1.
            receive_parts-wires r.later r.pending d cs pre
              (stored (set s.package_buffer socket_index r.pending) m1) k2 p
              (get_elem?-set s.package_buffer socket_index r.pending at) r.back short2)
      ∙ sym (>>=_assoc (dispatch_all J socket_index r.done s.manager) _ (dispatched r.later pre))
      ∙ dispatched-dispatched r.done r.later r.pending pre s
      ∙ ap (λ ys. dispatched ys pre s) r.messages
