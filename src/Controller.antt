-- ===== src/Controller.antt =====
-- The list of brokers: IoTRepublicPlus/Broker/BrokerController.cpp. StartBroker and StopBroker have
-- empty bodies.
use io_trepublic_plus.Base.{
  ◌≡◌, ◌≢◌, refl, ap, Bool-cases, inl, inr, Option, some, List, [], ◌∷◌, ◌++◌, Bytes, str_eq,
  str_eq_iff, All, if◌then◌else◌, ◌>>=◌,
}

-- What the controller uses of IBroker: the name and the virtual functions.
pub record Broker (B : Type 0) : Type 0 where
  pub name : B → Bytes
  pub start : B → Option B
  pub stop : B → Option B

module _ {B : Type 0} (broker : Broker B) where
  -- `AddBroker`
  unfoldable pub add_broker : B → List B → List B
  add_broker b brokers = brokers ++ (b ∷ [])

  -- `RemoveBroker`: the first broker with the name is deleted; it is not stopped.
  unfoldable pub remove_broker : Bytes → List B → List B
  remove_broker name [] = []
  remove_broker name (b ∷ brokers) =
      let rest = b ∷ remove_broker name brokers in
      if str_eq (broker.name b) name then brokers else rest

  each : (B → Option B) → List B → Option (List B)
  each f [] = some []
  each f (b ∷ brokers) = do b1 ← f b; rest ← each f brokers; some (b1 ∷ rest)

  -- `StartAllBroker`
  unfoldable pub start_all_broker : List B → Option (List B)
  unfolding each
  start_all_broker brokers = each broker.start brokers

  -- `StopAllBroker`
  unfoldable pub stop_all_broker : List B → Option (List B)
  unfolding each
  stop_all_broker brokers = each broker.stop brokers

  -- `ClearAllBroker`: each broker is stopped and deleted. The brokers that were deleted stand second.
  unfoldable pub clear_all_broker : List B → Option (List B × List B)
  unfolding stop_all_broker
  clear_all_broker brokers = do stopped ← stop_all_broker brokers; some ([], stopped)

  -- If no broker that is already there has its name, a broker that is added is the one that is removed by
  -- this name, whatever is added after it.
  pub remove_broker-add_broker :
      (b : B) (brokers later : List B)
      → All (λ x. broker.name x ≢ broker.name b) brokers
      → remove_broker (broker.name b) (add_broker b brokers ++ later) ≡ brokers ++ later
  unfolding remove_broker add_broker
  remove_broker-add_broker b [] later h =
      rw ((str_eq_iff (broker.name b) (broker.name b)).1 refl) refl
  remove_broker-add_broker b (x ∷ brokers) later h =
      elim (Bool-cases (str_eq (broker.name x) (broker.name b))) [
        | inl same ↦ absurd (h.0 ((str_eq_iff (broker.name x) (broker.name b)).0 same))
        | inr other ↦ rw other (ap (◌∷◌ x) (remove_broker-add_broker b brokers later h.1))
      ]

  -- What each broker does without an exception is done to all of them.
  each-All :
      (P : B → Type 0) (f : B → Option B)
      → ((b : B) → (b1 : B) × (f b ≡ some b1) × P b1)
      → (brokers : List B) → (after : List B) × (each f brokers ≡ some after) × All P after
  unfolding each
  each-All P f h [] = ([], refl, tt)
  each-All P f h (b ∷ brokers) =
      let (b1, e, p) = h b in
      let (rest, es, ps) = each-All P f h brokers in (b1 ∷ rest, rw (e, es) refl, (p, ps))

  pub start_all_broker-All :
      (P : B → Type 0)
      → ((b : B) → (b1 : B) × (broker.start b ≡ some b1) × P b1)
      → (brokers : List B)
      → (after : List B) × (start_all_broker brokers ≡ some after) × All P after
  unfolding start_all_broker
  start_all_broker-All P h brokers = each-All P broker.start h brokers

  pub stop_all_broker-All :
      (P : B → Type 0)
      → ((b : B) → (b1 : B) × (broker.stop b ≡ some b1) × P b1)
      → (brokers : List B) → (after : List B) × (stop_all_broker brokers ≡ some after) × All P after
  unfolding stop_all_broker
  stop_all_broker-All P h brokers = each-All P broker.stop h brokers
