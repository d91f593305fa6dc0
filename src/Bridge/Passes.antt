-- ===== src/Bridge/Passes.antt =====
-- What a round of cloudLoop (IoTRepublicPlus/Broker/CloudBridge.cpp) does in the middle of a stream of
-- messages that are all passed on.
use io_trepublic_plus.Base.{
  ◌^◌, ◌<◌, ◌≡◌, ◌≢◌, refl, ap, ◌∙◌, Bool, false, true, Option, some, some_inj, List, [], ◌∷◌, ◌++◌,
  append_assoc, append-nil, sym, subst, suc, Bytes, All, All-split, length, length-append, >>=_at,
  arith,
}
use io_trepublic_plus.TcpClient.{TcpClient}
use io_trepublic_plus.Manager.Stream.{Message, IsSendable, Pending, wires}
use io_trepublic_plus.Manager.Chunks.{Split-wires}
use io_trepublic_plus.Broker.{drain}
use io_trepublic_plus.Broker.Drain.{drain-wires, handle_all}
use io_trepublic_plus.Bridge.{CloudBridge, cloud_round, needs_reconnect}
use io_trepublic_plus.Bridge.Forward.{
  all_plain, connected, cloud_round-each_wire, each_wire, passed, relayed, with_sent,
}

-- No message asks the bridge to connect again.
abbrev pub Plain : List Message → Type 0
Plain xs = All (λ x. needs_reconnect x.content ≡ false) xs

pub Plain-passed : (xs : List Message) → Plain xs → (all_plain xs ≡ true) × (passed xs ≡ xs)
Plain-passed [] h = (refl, refl)
Plain-passed (x ∷ xs) (h, hs) = let (a, p) = Plain-passed xs hs in (rw h a, rw h (ap (◌∷◌ x) p))

pub bool_apart : false ≢ true
bool_apart h = cc

marked : (xs : List Message) → handle_all (λ pkg seen. some true) xs true ≡ some true
unfolding handle_all
marked [] = refl
marked (x ∷ xs) = marked xs

-- A buffer that holds only a proper front part of a message holds no whole one.
Pending-none :
    (xs : List Message) (buffer pre : Bytes)
    → All IsSendable xs
    → Pending buffer
    → Pending pre
    → buffer ≡ wires xs ++ pre
    → length buffer < 2 ^ 31
    → xs ≡ []
unfolding handle_all
Pending-none [] buffer pre s p q e short = refl
Pending-none (x ∷ xs) buffer pre s p q e short =
    let mark : Bool → Option Bool = λ seen. some true in
    let f = suc (length buffer) in
    let seen =
      sym (drain-wires (λ pkg. mark) f [] buffer false tt p short (omega arith))
      ∙ ap (λ w. drain (λ pkg. mark) f w false) e
      ∙ drain-wires (λ pkg. mark) f (x ∷ xs) pre false s q (subst (λ w. length w < 2 ^ 31) e short)
          (omega (arith, ap length e)) in
    let same : some (buffer, false) ≡ some (pre, true) =
      seen ∙ >>=_at (λ s1. some (pre, s1)) (marked xs) in
    absurd (bool_apart (ap (λ out. out.1) (some_inj same)))

-- A round of cloudLoop that is given messages that are all passed on.
cloud_round-Plain :
    (buffer came pre : Bytes) (xs : List Message) (client : TcpClient) (b : CloudBridge)
    → All IsSendable xs
    → Plain xs
    → Pending pre
    → buffer ++ came ≡ wires xs ++ pre
    → 0 < length came
    → length (buffer ++ came) < 2 ^ 31
    → cloud_round (some came) (buffer, connected client b)
      ≡ some (pre, connected (with_sent (each_wire xs) client) b)
cloud_round-Plain buffer came pre xs client b s plain p e some_bytes short =
    let (a, same) = Plain-passed xs plain in
    cloud_round-each_wire buffer came pre xs client b s p e some_bytes short ∙ λ i.
    some (pre, relayed (a i) (each_wire (same i)) client b)

-- A round of cloudLoop in the middle of the stream: the messages that it passes on, and what is left.
pub record Passes (buffer came rest pre : Bytes) (xs : List Message) : Type 0 where
  pub done : List Message
  pub later : List Message
  pub pending : Bytes
  pub is_pending : Pending pending
  pub sendable : All IsSendable later
  pub plain : Plain later
  pub messages : done ++ later ≡ xs
  pub back : pending ++ rest ≡ wires later ++ pre
  pub short : length (pending ++ rest) < 2 ^ 31
  pub forwards :
      (client : TcpClient) (b : CloudBridge)
      → cloud_round (some came) (buffer, connected client b)
        ≡ some (pending, connected (with_sent (each_wire done) client) b)

pub cloud_came-Passes :
    (buffer came rest pre : Bytes) (xs : List Message)
    → All IsSendable xs
    → Plain xs
    → Pending pre
    → buffer ++ (came ++ rest) ≡ wires xs ++ pre
    → 0 < length came
    → length (buffer ++ (came ++ rest)) < 2 ^ 31
    → Passes buffer came rest pre xs
cloud_came-Passes buffer came rest pre xs s plain p e some_bytes short =
    let joined = append_assoc buffer came rest in
    let r = Split-wires xs (buffer ++ came) rest pre s p (joined ∙ e) in
    let (s1, s2) =
      All-split IsSendable r.done r.later (subst (All IsSendable) (sym r.messages) s) in
    let (plain1, plain2) =
      All-split (λ x. needs_reconnect x.content ≡ false) r.done r.later
        (subst Plain (sym r.messages) plain) in
    let all = ap length joined in
    let sum1 = length-append (buffer ++ came) rest in
    let sum2 = length-append r.pending rest in
    let sum3 = length-append (wires r.done) r.pending in
    record {
      done = r.done;
      later = r.later;
      pending = r.pending;
      is_pending = r.is_pending;
      sendable = s2;
      plain = plain2;
      messages = r.messages;
      back = r.back;
      short = omega (arith, short, all, sum1, sum2, sum3, ap length r.front);
      forwards = λ client b.
          cloud_round-Plain buffer came r.pending r.done client b s1 plain1 r.is_pending r.front
            some_bytes (omega (arith, short, all, sum1));
    }

-- Where nothing comes in any more there is no message left.
pub nothing_comes :
    (xs : List Message) (buffer pre : Bytes)
    → All IsSendable xs
    → Pending buffer
    → Pending pre
    → buffer ++ [] ≡ wires xs ++ pre
    → length (buffer ++ []) < 2 ^ 31
    → (buffer ≡ pre) × ([] ≡ xs)
nothing_comes xs buffer pre s q p e short =
    let whole = sym (append-nil buffer) ∙ e in
    let none_left =
      Pending-none xs buffer pre s q p whole
        (omega (arith, short, ap length (append-nil buffer))) in
    (whole ∙ ap (λ ys. wires ys ++ pre) none_left, sym none_left)
