-- ===== src/Tests/PlainJson/Sound.antt =====
-- The texts of the small library hold plain characters.
use io_trepublic_plus.Base.{
  ◌≡◌, subst, Bool-cases, inl, inr, some, some_inj, [], ◌∷◌, Bytes, All, str_eq, if◌then◌else◌,
}
use io_trepublic_plus.Json.Laws.{Fields, IsPlain, PlainFields, lookup, put}
use io_trepublic_plus.Tests.PlainJson.{Tree, nested, string, texts}

pub PlainFields-put :
    (k v : Bytes) (fs : Fields) → All IsPlain v → PlainFields fs → PlainFields (put k v fs)
PlainFields-put k v [] h hs = tt
PlainFields-put k v ((j, w) ∷ fs) h ((hj, hw), hs) = elim (Bool-cases (str_eq k j)) [
  | inl e ↦ rw e ((hj, h), hs)
  | inr e ↦ rw e ((hj, hw), PlainFields-put k v fs h hs)
]

pub lookup-IsPlain :
    (k v : Bytes) (fs : Fields) → PlainFields fs → lookup k fs ≡ some v → All IsPlain v
lookup-IsPlain k v [] h e = cc
lookup-IsPlain k v ((j, w) ∷ fs) ((hj, hw), hs) e = elim (Bool-cases (str_eq k j)) [
  | inl q ↦
      subst (All IsPlain) (some_inj (subst (λ b. (if b then some w else lookup k fs) ≡ some v) q e))
        hw
  | inr q ↦ lookup-IsPlain k v fs hs (subst (λ b. (if b then some w else lookup k fs) ≡ some v) q e)
]

abbrev pub Sound : Tree → Type 0
Sound (string s) = All IsPlain s
Sound (texts fs) = PlainFields fs
Sound (nested name fs) = All IsPlain name × PlainFields fs
