-- ===== src/Manager/Devices/Registry.antt =====
-- The list of devices under addNewDevice: one entry for each device id.
use io_trepublic_plus.Base.{
  ℕ, ◌+◌, ◌≡◌, ◌≢◌, refl, sym, ap, subst, ◌∙◌, Bool, true, false, not, Option, none, some, List, [],
  ◌∷◌, ◌++◌, inl, inr, Bool-cases, arith, Bytes, length, All, All-filter, All-append, All-weaken,
  filter, filter-all, filter-All, filter-drops, Option-cases, str_eq_iff,
}
use io_trepublic_plus.Manager.State.{DeviceInfo}
use io_trepublic_plus.Manager.Devices.{
  erase_at, find_device_index_by_device_id, find_device_index_by_iot_ip, find_index_from, has_id,
  has_ip, replace_device,
}
use io_trepublic_plus.Manager.Devices.Erase.{erase_at-middle}

-- The first device that passes a test, with what stands before it, or that none does.
pub record FoundAt (test : DeviceInfo → Bool) (ds : List DeviceInfo) (i : ℕ) : Type 0 where
  pub before : List DeviceInfo
  pub device : DeviceInfo
  pub after : List DeviceInfo
  pub splits : ds ≡ before ++ (device ∷ after)
  pub is_index : i ≡ length before
  pub passes : test device ≡ true
  pub first : All (λ d. test d ≡ false) before

abbrev pub Finds : (DeviceInfo → Bool) → List DeviceInfo → Option ℕ → Type 0
Finds test ds none = All (λ d. test d ≡ false) ds
Finds test ds (some i) = FoundAt test ds i

abbrev shift : ℕ → Option ℕ → Option ℕ
shift n none = none
shift n (some i) = some (n + i)

shift-shift : (n : ℕ) (o : Option ℕ) → shift (n + 1) o ≡ shift n (shift 1 o)
shift-shift n none = refl
shift-shift n (some i) = ap some (omega arith)

Finds-later :
    (test : DeviceInfo → Bool) (d : DeviceInfo) (ds : List DeviceInfo) (o : Option ℕ)
    → test d ≡ false
    → Finds test ds o
    → Finds test (d ∷ ds) (shift 1 o)
Finds-later test d ds none h k = (h, k)
Finds-later test d ds (some i) h k = record {
  before = d ∷ k.before;
  device = k.device;
  after = k.after;
  splits = ap (◌∷◌ d) k.splits;
  is_index = omega (arith, k.is_index);
  passes = k.passes;
  first = (h, k.first);
}

find_index_from-Finds :
    (test : DeviceInfo → Bool) (n : ℕ) (ds : List DeviceInfo)
    → (o : Option ℕ) × (find_index_from test n ds ≡ shift n o) × Finds test ds o
unfolding find_index_from
find_index_from-Finds test n [] = (none, refl, tt)
find_index_from-Finds test n (d ∷ ds) = elim (Bool-cases (test d)) [
  | inl h ↦ (
    some 0,
    rw h (ap some (omega arith)),
    record {
      before = [];
      device = d;
      after = ds;
      splits = refl;
      is_index = refl;
      passes = h;
      first = tt;
    },
  )
  | inr h ↦
      let (o, e, k) = find_index_from-Finds test (n + 1) ds in
      (shift 1 o, rw h (e ∙ shift-shift n o), Finds-later test d ds o h k)
]

-- Both searches give the index of the first device with the id, or the address, and no index where
-- no device has it.
pub find_device_index-Finds :
    (text : Bytes) (ds : List DeviceInfo)
    → Finds (has_id text) ds (find_device_index_by_device_id text ds)
      × Finds (has_ip text) ds (find_device_index_by_iot_ip text ds)
unfolding find_device_index_by_device_id find_device_index_by_iot_ip
find_device_index-Finds text ds = (at_zero (has_id text) ds, at_zero (has_ip text) ds)
  where
    same : (o : Option ℕ) → shift 0 o ≡ o
    same none = refl
    same (some i) = ap some (omega arith)

    at_zero :
        (test : DeviceInfo → Bool) (xs : List DeviceInfo)
        → Finds test xs (find_index_from test 0 xs)
    at_zero test xs =
        let (o, e, k) = find_index_from-Finds test 0 xs in
        subst (Finds test xs) (sym (e ∙ same o)) k

-- No two devices have the same id.
abbrev pub Unique : List DeviceInfo → Type 0
Unique [] = Unit
Unique (d ∷ ds) = All (λ e. e.device_id ≢ d.device_id) ds × Unique ds

has_id-false : (id : Bytes) (d : DeviceInfo) → d.device_id ≢ id → not (has_id id d) ≡ true
has_id-false id d h = ground (arith, str_eq_iff d.device_id id)

Unique-split :
    (xs : List DeviceInfo) (d : DeviceInfo) (ys : List DeviceInfo)
    → Unique (xs ++ (d ∷ ys))
    → All (λ e. e.device_id ≢ d.device_id) ys
Unique-split [] d ys u = u.0
Unique-split (x ∷ xs) d ys u = Unique-split xs d ys u.1

pub Unique-filter :
    (test : DeviceInfo → Bool) (ds : List DeviceInfo) → Unique ds → Unique (filter test ds)
Unique-filter test [] u = tt
Unique-filter test (d ∷ ds) (a, u) = elim (Bool-cases (test d)) [
  | inl h ↦ rw h (All-filter (λ e. e.device_id ≢ d.device_id) test ds a, Unique-filter test ds u)
  | inr h ↦ rw h (Unique-filter test ds u)
]

Unique-snoc :
    (ds : List DeviceInfo) (d : DeviceInfo)
    → Unique ds
    → All (λ e. e.device_id ≢ d.device_id) ds
    → Unique (ds ++ (d ∷ []))
Unique-snoc [] d u a = (tt, tt)
Unique-snoc (x ∷ xs) d (b, u) (h, a) = (
  All-append (λ e. e.device_id ≢ x.device_id) xs (d ∷ []) b ((λ q. h (sym q)), tt),
  Unique-snoc xs d u a,
)

others : Bytes → List DeviceInfo → List DeviceInfo
others id ds = filter (λ e. not (has_id id e)) ds

others-ids : (id : Bytes) (ds : List DeviceInfo) → All (λ e. e.device_id ≢ id) (others id ds)
unfolding others
others-ids id ds =
    All-weaken (λ e. not (has_id id e) ≡ true) (λ e. e.device_id ≢ id) (others id ds)
      (λ e h q. ground (arith, str_eq_iff e.device_id id)) (filter-All (λ e. not (has_id id e)) ds)

erase-others :
    (id : Bytes) (ds : List DeviceInfo) (i : ℕ)
    → Unique ds
    → FoundAt (has_id id) ds i
    → erase_at i ds ≡ others id ds
unfolding others
erase-others id ds i u k =
    let same : k.device.device_id ≡ id = (str_eq_iff k.device.device_id id).0 k.passes in
    let distinct = Unique-split k.before k.device k.after (subst Unique k.splits u) in
    rw (k.is_index, k.splits, erase_at-middle k.before k.device k.after)
      (sym (
        filter-drops (λ e. not (has_id id e)) k.before k.device k.after
          (All-weaken (λ e. has_id id e ≡ false) (λ e. not (has_id id e) ≡ true) k.before
            (λ e h. ap not h) k.first)
          (ap not k.passes)
          (All-weaken (λ e. e.device_id ≢ k.device.device_id) (λ e. not (has_id id e) ≡ true)
            k.after (λ e h. has_id-false id e (λ q. h (q ∙ sym same))) distinct)))

replace_device-others :
    (d : DeviceInfo) (ds : List DeviceInfo)
    → Unique ds
    → replace_device d ds ≡ others d.device_id ds ++ (d ∷ [])
unfolding others replace_device
replace_device-others d ds u =
    let found = (find_device_index-Finds d.device_id ds).0 in
    elim (Option-cases (find_device_index_by_device_id d.device_id ds)) [
      | inl e ↦
          let absent = subst (Finds (has_id d.device_id) ds) e found in
          rw (e, replace_device)
            (ap (λ xs. xs ++ (d ∷ []))
              (sym (
                filter-all (λ x. not (has_id d.device_id x)) ds
                  (All-weaken (λ x. has_id d.device_id x ≡ false)
                    (λ x. not (has_id d.device_id x) ≡ true) ds (λ x h. ap not h) absent))))
      | inr (i, e) ↦
          rw (e, replace_device)
            (ap (λ xs. xs ++ (d ∷ []))
              (erase-others d.device_id ds i u (subst (Finds (has_id d.device_id) ds) e found)))
    ]

-- On a list without two devices of the same id, the update of addNewDevice removes the device with
-- the new device's id, if there is one, keeps all others in their order and puts the new one
-- last; and again no two have the same id.
pub replace_device-filter :
    (d : DeviceInfo) (ds : List DeviceInfo)
    → Unique ds
    → (replace_device d ds ≡ filter (λ e. not (has_id d.device_id e)) ds ++ (d ∷ []))
      × Unique (replace_device d ds)
unfolding others replace_device
replace_device-filter d ds u =
    let e = replace_device-others d ds u in
    (
      e,
      subst Unique (sym e) (
          Unique-snoc (others d.device_id ds) d
            (Unique-filter (λ x. not (has_id d.device_id x)) ds u) (others-ids d.device_id ds)),
    )
