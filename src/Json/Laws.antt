-- ===== src/Json/Laws.antt =====
-- What IoTRepublicPlus/Utility/JsonUtility.cpp relies on of jansson, and its functions on an object of one
-- key whose value is an object of texts, the form of all commands and rules.
use io_trepublic_plus.Base.{
  ℕ, ◌<◌, ◌≤◌, ◌≡◌, ◌≢◌, refl, sym, ap, subst, ◌∙◌, true, false, Bool-cases, inl, inr, Option, none,
  some, List, [], ◌∷◌, ◌++◌, Bytes, codes, All, All-weaken, str_eq, str_eq_iff, if◌then◌else◌,
  ◌>>=◌, arith,
}
use io_trepublic_plus.Framing.{until_nul}
use io_trepublic_plus.Framing.Columns.{IsText}
use io_trepublic_plus.Json.{
  Jansson, load_json_data, export_json_content, get_first_key_name, get_value_in_first_object,
  set_value_in_first_object, has_key,
}

-- The names and the texts of an object, in order.
abbrev pub Fields : Type 0
Fields = List (Bytes × Bytes)

abbrev pub names : Fields → List Bytes
names [] = []
names ((k, v) ∷ fs) = k ∷ names fs

abbrev pub lookup : Bytes → Fields → Option Bytes
lookup k [] = none
lookup k ((j, v) ∷ fs) = if str_eq k j then some v else lookup k fs

abbrev pub put : Bytes → Bytes → Fields → Fields
put k v [] = []
put k v ((j, w) ∷ fs) = if str_eq k j then (j, v) ∷ fs else (j, w) ∷ put k v fs

abbrev pub put_all : Fields → Fields → Fields
put_all [] fs = fs
put_all ((k, v) ∷ changes) fs = put_all changes (put k v fs)

-- A character that stands for itself in a text of JSON.
abbrev pub IsPlain : ℕ → Type 0
IsPlain c = (32 ≤ c) × (c < 127) × (c ≢ 34) × (c ≢ 92)

abbrev pub quoted : Bytes → Bytes
quoted text = 34 ∷ (text ++ (34 ∷ []))

abbrev pub more_members : Fields → Bytes
more_members [] = codes "}"
more_members ((k, v) ∷ fs) = 44 ∷ (quoted k ++ (58 ∷ (quoted v ++ more_members fs)))

abbrev pub members : Fields → Bytes
members [] = codes "}"
members ((k, v) ∷ fs) = quoted k ++ (58 ∷ (quoted v ++ more_members fs))

-- The text of an object of one key.
abbrev pub object_text : Bytes → Fields → Bytes
object_text name fs = 123 ∷ (quoted name ++ (58 ∷ (123 ∷ (members fs ++ codes "}"))))

abbrev pub PlainFields : Fields → Type 0
PlainFields fs = All (λ f. All IsPlain f.0 × All IsPlain f.1) fs

abbrev pub IsDistinct : List Bytes → Type 0
IsDistinct [] = Unit
IsDistinct (k ∷ ks) = (has_key k ks ≡ false) × IsDistinct ks

module _ (J : Jansson) where
  open J use {
    Json, loads, is_object, keys, object_get, object_set_string, object_set, string_value, dumps,
  }

  abbrev pub set_then : {A : Type 0} → Fields → (Json → Option A) → Json → Option A
  set_then [] next root = next root
  set_then ((k, v) ∷ changes) next root =
      set_value_in_first_object J root k v >>= λ r. set_then changes next r

  -- An object of one key whose value is an object of some texts. An iteration gives the names in any order.
  pub record IsRecord (root : Json) (name : Bytes) (fs : Fields) : Type 0 where
    pub inner : Json
    pub root_object : is_object root ≡ true
    pub root_keys : keys root ≡ name ∷ []
    pub at_name : object_get root name ≡ some inner
    pub inner_keys : (k : Bytes) → has_key k (keys inner) ≡ has_key k (names fs)
    pub texts :
        (k v : Bytes) → lookup k fs ≡ some v → (object_get inner k >>= string_value) ≡ some v

  -- What the documentation says: texts of plain JSON are read as what they say; an object holds what was
  -- set last at a key, and its other values stay; setting a key that is there changes no other one's
  -- being there; the text of such an object is read back as an object with the same texts. In which order
  -- the keys of an object are iterated is left open. `IsLegal` are the texts that json_string takes, UTF-8
  -- without '\0', and `IsSound` are the values in which all texts are such.
  pub record IsLawful : Type 1 where
    pub IsLegal : Bytes → Type 0
    pub IsSound : Json → Type 0
    pub legal_plain : (text : Bytes) → All IsPlain text → IsLegal text
    pub loads_object :
        (name : Bytes) (fs : Fields)
        → All IsPlain name
        → PlainFields fs
        → IsDistinct (names fs)
        → (root : Json) × (loads (object_text name fs) ≡ some root)
          × IsRecord root name fs
          × IsSound root
    pub get-set_string :
        (o : Json) (k v : Bytes)
        → has_key k (keys o) ≡ true
        → IsLegal v
        → (object_get (object_set_string o k v) k >>= string_value) ≡ some v
    pub get-set_string_other :
        (o : Json) (k j v : Bytes) → j ≢ k → object_get (object_set_string o k v) j ≡ object_get o j
    pub keys-set_string :
        (o : Json) (k v j : Bytes)
        → has_key k (keys o) ≡ true
        → has_key j (keys (object_set_string o k v)) ≡ has_key j (keys o)
    pub get-set :
        (o w : Json) (k j v : Bytes)
        → object_get o k ≡ some w
        → object_get (object_set o k (object_set_string w j v)) k ≡ some (object_set_string w j v)
    pub keys-set :
        (o w : Json) (k j v : Bytes)
        → keys o ≡ k ∷ []
        → object_get o k ≡ some w
        → keys (object_set o k (object_set_string w j v)) ≡ k ∷ []
    pub object-set : (o w : Json) (k : Bytes) → is_object (object_set o k w) ≡ is_object o
    pub sound-set :
        (o w : Json) (k j v : Bytes)
        → IsSound o
        → object_get o k ≡ some w
        → IsLegal v
        → IsSound (object_set o k (object_set_string w j v))
    pub loads-dumps :
        (root : Json) (name : Bytes) (fs : Fields)
        → IsRecord root name fs
        → IsSound root
        → (text : Bytes) × (read : Json) × (dumps root ≡ some text)
          × All IsText text
          × (loads text ≡ some read)
          × IsRecord read name fs

until_nul-all : (text : Bytes) → All IsText text → until_nul text ≡ text
unfolding until_nul
until_nul-all [] h = refl
until_nul-all (c ∷ cs) h = ground (arith, until_nul-all cs h.1)

pub names-put : (k v : Bytes) (fs : Fields) → names (put k v fs) ≡ names fs
names-put k v [] = refl
names-put k v ((j, w) ∷ fs) = elim (Bool-cases (str_eq k j)) [
  | inl e ↦ rw e refl
  | inr e ↦ rw e (ap (◌∷◌ j) (names-put k v fs))
]

pub lookup-put :
    (k v : Bytes) (fs : Fields) → has_key k (names fs) ≡ true → lookup k (put k v fs) ≡ some v
lookup-put k v [] h = cc
lookup-put k v ((j, w) ∷ fs) h = elim (Bool-cases (str_eq k j)) [
  | inl e ↦ rw (e, e) refl
  | inr e ↦
      rw (e, e)
        (lookup-put k v fs (subst (λ b. (if b then true else has_key k (names fs)) ≡ true) e h))
]

pub lookup-put_other :
    (j k v : Bytes) (fs : Fields) → str_eq j k ≡ false → lookup j (put k v fs) ≡ lookup j fs
lookup-put_other j k v [] h = refl
lookup-put_other j k v ((i, w) ∷ fs) h = elim (Bool-cases (str_eq k i)) [
  | inl e ↦
      let same : k ≡ i = (str_eq_iff k i).0 e in
      let apart : str_eq j i ≡ false = subst (λ x. str_eq j x ≡ false) same h in rw (e, apart) refl
  | inr e ↦ rw e (ap (λ rest. if str_eq j i then some w else rest) (lookup-put_other j k v fs h))
]

not-str_eq : (a b : Bytes) → str_eq a b ≡ false → a ≢ b
not-str_eq a b h q = let same = (str_eq_iff a b).1 q in cc

module _ (J : Jansson) where
  open J use {Json, object_get, object_set_string, object_set, string_value}

  pub first_key-IsRecord :
      (root : Json) (name : Bytes) (fs : Fields)
      → IsRecord J root name fs
      → get_first_key_name J (some root) ≡ some name
  unfolding get_first_key_name
  first_key-IsRecord root name fs r = rw r.root_keys refl

  pub value-IsRecord :
      (root : Json) (name k v : Bytes) (fs : Fields)
      → IsRecord J root name fs
      → lookup k fs ≡ some v
      → get_value_in_first_object J (some root) k ≡ some v
  unfolding get_value_in_first_object get_first_key_name
  value-IsRecord root name k v fs r h = rw (r.root_keys, r.at_name) (r.texts k v h)

  module _ (L : IsLawful J) where
    open L use {IsLegal, IsSound}

    pub set-IsRecord :
        (root : Json) (name k v : Bytes) (fs : Fields)
        → IsRecord J root name fs
        → IsSound root
        → has_key k (names fs) ≡ true
        → IsLegal v
        → (next : Json) × (set_value_in_first_object J root k v ≡ some next)
          × IsRecord J next name (put k v fs)
          × IsSound next
    unfolding set_value_in_first_object get_first_key_name
    set-IsRecord root name k v fs r sound h legal =
        let there : has_key k (J.keys r.inner) ≡ true = r.inner_keys k ∙ h in
        (
          object_set root name (object_set_string r.inner k v),
          rw (r.root_object, r.root_keys, r.at_name, there) refl,
          record {
            inner = object_set_string r.inner k v;
            root_object = L.object-set root (object_set_string r.inner k v) name ∙ r.root_object;
            root_keys = L.keys-set root r.inner name k v r.root_keys r.at_name;
            at_name = L.get-set root r.inner name k v r.at_name;
            inner_keys = λ j.
                L.keys-set_string r.inner k v j there
                ∙ r.inner_keys j
                ∙ ap (has_key j) (sym (names-put k v fs));
            texts = λ j w e. elim (Bool-cases (str_eq j k)) [
              | inl q ↦
                  let same : j ≡ k = (str_eq_iff j k).0 q in
                  let found : lookup k (put k v fs) ≡ some w =
                    subst (λ x. lookup x (put k v fs) ≡ some w) same e in
                  subst
                    (λ x. (object_get (object_set_string r.inner k v) x >>= string_value) ≡ some w)
                    (sym same)
                    (L.get-set_string r.inner k v there legal ∙ sym (lookup-put k v fs h) ∙ found)
              | inr q ↦
                  ap (λ o. o >>= string_value)
                    (L.get-set_string_other r.inner k j v (not-str_eq j k q))
                  ∙ r.texts j w (sym (lookup-put_other j k v fs q) ∙ e)
            ];
          },
          L.sound-set root r.inner name k v sound r.at_name legal,
        )

    -- Some texts set one after the other, and then what follows.
    pub set_then-IsRecord :
        {A : Type 0} (changes : Fields) (next : Json → Option A) (root : Json) (name : Bytes)
        (fs : Fields)
        → IsRecord J root name fs
        → IsSound root
        → All (λ f. (has_key f.0 (names fs) ≡ true) × IsLegal f.1) changes
        → (last : Json) × (set_then J changes next root ≡ next last)
          × IsRecord J last name (put_all changes fs)
          × IsSound last
    set_then-IsRecord [] next root name fs r sound h = (root, refl, r, sound)
    set_then-IsRecord ((k, v) ∷ changes) next root name fs r sound ((at, legal), h) =
        let (one, e, r1, sound1) = set-IsRecord root name k v fs r sound at legal in
        let (last, e2, r2, sound2) =
          set_then-IsRecord changes next one name (put k v fs) r1 sound1 (
            All-weaken (λ f. (has_key f.0 (names fs) ≡ true) × IsLegal f.1)
              (λ f. (has_key f.0 (names (put k v fs)) ≡ true) × IsLegal f.1) changes
              (λ f p. (ap (has_key f.0) (names-put k v fs) ∙ p.0, p.1)) h) in
        (last, ap (λ o. o >>= set_then J changes next) e ∙ e2, r2, sound2)

    pub loads-IsRecord :
        (name : Bytes) (fs : Fields)
        → All IsPlain name
        → PlainFields fs
        → IsDistinct (names fs)
        → All IsText (object_text name fs)
        → (root : Json) × (load_json_data J (object_text name fs) ≡ some root)
          × IsRecord J root name fs
          × IsSound root
    unfolding load_json_data
    loads-IsRecord name fs plain texts apart whole =
        let (root, e, r, s) = L.loads_object name fs plain texts apart in
        (root, ap J.loads (until_nul-all (object_text name fs) whole) ∙ e, r, s)

    pub dumps-IsRecord :
        (root : Json) (name : Bytes) (fs : Fields)
        → IsRecord J root name fs
        → IsSound root
        → (text : Bytes) × (read : Json) × (export_json_content J root ≡ some text)
          × (load_json_data J text ≡ some read)
          × IsRecord J read name fs
    unfolding load_json_data export_json_content
    dumps-IsRecord root name fs r sound =
        let (text, read, e, t, back, again) = L.loads-dumps root name fs r sound in
        (text, read, e, ap J.loads (until_nul-all text t) ∙ back, again)
