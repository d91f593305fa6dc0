-- ===== src/Tests/PlainJson/Lawful.antt =====
-- The small library meets the laws.
use io_trepublic_plus.Base.{
  ◌≡◌, ◌≢◌, refl, sym, ap, subst, ◌∙◌, Bool-cases, true, false, inl, inr, Option, Option-cases,
  none, some, some_inj, List, [], ◌∷◌, ◌++◌, Bytes, All, arith, str_eq, str_eq_iff, if◌then◌else◌,
  ◌>>=◌,
}
use io_trepublic_plus.Framing.Columns.{IsText}
use io_trepublic_plus.Json.{has_key}
use io_trepublic_plus.Json.Laws.{Fields, IsLawful, IsPlain, IsRecord, lookup, names, object_text}
use io_trepublic_plus.Json.Text.{object_text-IsText}
use io_trepublic_plus.Tests.PlainJson.{
  Tree, backwards, get, nested, plain_json, read_object, set_string, set_tree, string, texts,
}
use io_trepublic_plus.Json.Laws.{lookup-put, lookup-put_other, names-put}
use io_trepublic_plus.Tests.PlainJson.Reading.{read_object-plain}
use io_trepublic_plus.Tests.PlainJson.Sound.{PlainFields-put, Sound, lookup-IsPlain}

has_key-snoc :
    (k j : Bytes) (ks : List Bytes)
    → has_key k (ks ++ (j ∷ [])) ≡ (if str_eq k j then true else has_key k ks)
has_key-snoc k j [] = refl
has_key-snoc k j (i ∷ ks) = ground (arith, has_key-snoc k j ks)

has_key-backwards : (k : Bytes) (ks : List Bytes) → has_key k (backwards ks) ≡ has_key k ks
has_key-backwards k [] = refl
has_key-backwards k (j ∷ ks) =
    has_key-snoc k j (backwards ks)
    ∙ ap (λ b. if str_eq k j then true else b) (has_key-backwards k ks)

nested-IsRecord : (name : Bytes) (fs : Fields) → IsRecord plain_json (nested name fs) name fs
nested-IsRecord name fs = record {
  inner = texts fs;
  root_object = refl;
  root_keys = refl;
  at_name = rw ((str_eq_iff name name).1 refl) refl;
  inner_keys = λ k. has_key-backwards k (names fs);
  texts = λ k v e. rw e refl;
}

cons_inj : {x y : Bytes} → (x ∷ []) ≡ (y ∷ []) → x ≡ y
cons_inj e = cc

none_is_some : {A B : Type 0} {a : A} → ◌≡◌ {A = Option A} none (some a) → B
none_is_some e = cc

false_is_true : {B : Type 0} → false ≡ true → B
false_is_true e = cc

get-texts :
    (fs : Fields) (k : Bytes) (w : Tree)
    → get (texts fs) k ≡ some w
    → (s : Bytes) × (lookup k fs ≡ some s) × (string s ≡ w)
get-texts fs k w e = elim (Option-cases (lookup k fs)) [
  | inl q ↦ (none_is_some (subst (λ o. (o >>= λ s. some (string s)) ≡ some w) q e))
  | inr (s, q) ↦ (s, q, some_inj (subst (λ o. (o >>= λ s. some (string s)) ≡ some w) q e))
]

get-nested :
    (name : Bytes) (fs : Fields) (k : Bytes) (w : Tree)
    → get (nested name fs) k ≡ some w
    → (str_eq k name ≡ true) × (texts fs ≡ w)
get-nested name fs k w e = elim (Bool-cases (str_eq k name)) [
  | inl q ↦ (q, some_inj (subst (λ b. (if b then some (texts fs) else none) ≡ some w) q e))
  | inr q ↦ (none_is_some (subst (λ b. (if b then some (texts fs) else none) ≡ some w) q e))
]

has_key-lookup : (k v : Bytes) (fs : Fields) → lookup k fs ≡ some v → has_key k (names fs) ≡ true
has_key-lookup k v [] h = cc
has_key-lookup k v ((j, w) ∷ fs) h = elim (Bool-cases (str_eq k j)) [
  | inl e ↦ rw e refl
  | inr e ↦
      rw e (has_key-lookup k v fs (subst (λ b. (if b then some w else lookup k fs) ≡ some v) e h))
]

str_eq-false : (a b : Bytes) → a ≢ b → str_eq a b ≡ false
str_eq-false a b h = elim (Bool-cases (str_eq a b)) [
  | inl e ↦ absurd (h ((str_eq_iff a b).0 e))
  | inr e ↦ e
]

get-set_string-plain :
    (o : Tree) (k v : Bytes)
    → has_key k (plain_json.keys o) ≡ true
    → (get (set_string o k v) k >>= plain_json.string_value) ≡ some v
get-set_string-plain (string s) k v h = cc
get-set_string-plain (texts fs) k v h =
    rw (lookup-put k v fs (sym (has_key-backwards k (names fs)) ∙ h)) refl
get-set_string-plain (nested name fs) k v h = elim (Bool-cases (str_eq k name)) [
  | inl e ↦ rw (e, e) refl
  | inr e ↦ false_is_true (subst (λ b. (if b then true else false) ≡ true) e h)
]

get-set_string_other-plain : (o : Tree) (k j v : Bytes) → j ≢ k → get (set_string o k v) j ≡ get o j
get-set_string_other-plain (string s) k j v h = refl
get-set_string_other-plain (texts fs) k j v h =
    ap (λ o. o >>= λ s. some (string s)) (lookup-put_other j k v fs (str_eq-false j k h))
get-set_string_other-plain (nested name fs) k j v h = elim (Bool-cases (str_eq k name)) [
  | inl e ↦
      let apart : str_eq j name ≡ false =
        str_eq-false j name (λ q. h (q ∙ sym ((str_eq_iff k name).0 e))) in
      rw (e, apart) refl
  | inr e ↦ rw e refl
]

keys-set_string-plain :
    (o : Tree) (k v : Bytes) → plain_json.keys (set_string o k v) ≡ plain_json.keys o
keys-set_string-plain (string s) k v = refl
keys-set_string-plain (texts fs) k v = ap backwards (names-put k v fs)
keys-set_string-plain (nested name fs) k v = elim (Bool-cases (str_eq k name)) [
  | inl e ↦ rw e refl
  | inr e ↦ rw e refl
]

get-set-plain :
    (o w : Tree) (k j v : Bytes)
    → get o k ≡ some w
    → get (set_tree o k (set_string w j v)) k ≡ some (set_string w j v)
get-set-plain (string s) w k j v h = cc
get-set-plain (texts fs) w k j v h =
    let (s, at, e) = get-texts fs k w h in
    subst (λ w. get (set_tree (texts fs) k (set_string w j v)) k ≡ some (set_string w j v)) e
      (rw (lookup-put k s fs (has_key-lookup k s fs at)) refl)
get-set-plain (nested name fs) w k j v h =
    let (at, e) = get-nested name fs k w h in
    subst (λ w. get (set_tree (nested name fs) k (set_string w j v)) k ≡ some (set_string w j v)) e
      (rw (at, at) refl)

keys-set-plain :
    (o w : Tree) (k j v : Bytes)
    → get o k ≡ some w
    → plain_json.keys (set_tree o k (set_string w j v)) ≡ plain_json.keys o
keys-set-plain (string s) w k j v h = cc
keys-set-plain (texts fs) w k j v h =
    let (s, at, e) = get-texts fs k w h in
    subst (λ w. plain_json.keys (set_tree (texts fs) k (set_string w j v)) ≡ backwards (names fs)) e
      (ap backwards (names-put k s fs))
keys-set-plain (nested name fs) w k j v h =
    let (at, e) = get-nested name fs k w h in
    subst (λ w. plain_json.keys (set_tree (nested name fs) k (set_string w j v)) ≡ name ∷ []) e
      (rw at refl)

object-set-plain :
    (o w : Tree) (k : Bytes) → plain_json.is_object (set_tree o k w) ≡ plain_json.is_object o
object-set-plain (string s) w k = refl
object-set-plain (texts fs) (string s) k = refl
object-set-plain (texts fs) (texts gs) k = refl
object-set-plain (texts fs) (nested name gs) k = refl
object-set-plain (nested name fs) (string s) k = refl
object-set-plain (nested name fs) (nested other gs) k = refl
object-set-plain (nested name fs) (texts gs) k = elim (Bool-cases (str_eq k name)) [
  | inl e ↦ rw e refl
  | inr e ↦ rw e refl
]

Sound-set-plain :
    (o w : Tree) (k j v : Bytes)
    → Sound o
    → get o k ≡ some w
    → All IsPlain v
    → Sound (set_tree o k (set_string w j v))
Sound-set-plain (string s) w k j v sound h plain = cc
Sound-set-plain (texts fs) w k j v sound h plain =
    let (s, at, e) = get-texts fs k w h in
    subst (λ w. Sound (set_tree (texts fs) k (set_string w j v))) e
      (PlainFields-put k s fs (lookup-IsPlain k s fs sound at) sound)
Sound-set-plain (nested name fs) w k j v sound h plain =
    let (at, e) = get-nested name fs k w h in
    subst (λ w. Sound (set_tree (nested name fs) k (set_string w j v))) e
      (rw at (sound.0, PlainFields-put j v fs plain sound.1))

-- A sound value that is an object of one key with an object of texts is one by its form.
IsRecord-nested :
    (root : Tree) (name : Bytes) (fs : Fields)
    → IsRecord plain_json root name fs
    → (gs : Fields) × (root ≡ nested name gs)
IsRecord-nested (string s) name fs r = false_is_true r.root_object
IsRecord-nested (texts gs) name fs r = false_is_true r.root_object
IsRecord-nested (nested other gs) name fs r = (gs, ap (λ n. nested n gs) (cons_inj r.root_keys))

loads-dumps-plain :
    (root : Tree) (name : Bytes) (fs : Fields)
    → IsRecord plain_json root name fs
    → Sound root
    → (text : Bytes) × (read : Tree) × (plain_json.dumps root ≡ some text)
      × All IsText text
      × (read_object text ≡ some read)
      × IsRecord plain_json read name fs
loads-dumps-plain root name fs r sound =
    let (gs, form) = IsRecord-nested root name fs r in
    let (plain, hs) = subst Sound form sound in
    (
      object_text name gs,
      nested name gs,
      ap plain_json.dumps form,
      object_text-IsText name gs plain hs,
      read_object-plain name gs plain hs,
      subst (λ o. IsRecord plain_json o name fs) form r,
    )

pub plain_json-IsLawful : IsLawful plain_json
plain_json-IsLawful = record {
  IsLegal = All IsPlain;
  IsSound = Sound;
  legal_plain = λ text h. h;
  loads_object = λ name fs plain h apart.
      (nested name fs, read_object-plain name fs plain h, nested-IsRecord name fs, (plain, h));
  get-set_string = λ o k v h legal. get-set_string-plain o k v h;
  get-set_string_other = get-set_string_other-plain;
  keys-set_string = λ o k v j h. ap (has_key j) (keys-set_string-plain o k v);
  get-set = get-set-plain;
  keys-set = λ o w k j v one at. keys-set-plain o w k j v at ∙ one;
  object-set = object-set-plain;
  sound-set = Sound-set-plain;
  loads-dumps = loads-dumps-plain;
}
