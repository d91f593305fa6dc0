-- ===== src/Tests/PlainJson/Reading.antt =====
-- The small library reads the text of an object back.
use io_trepublic_plus.Base.{
  ℕ, zero, suc, ◌<◌, ◌≡◌, refl, ap, ◌∙◌, false, some, [], ◌∷◌, ◌++◌, append_assoc, Bytes, codes,
  length, length-append, All, ◌==◌, >>=_at, arith,
}
use io_trepublic_plus.Json.Laws.{
  Fields, IsPlain, PlainFields, members, more_members, object_text, quoted,
}
use io_trepublic_plus.Tests.PlainJson.{
  expect, nested, read_member, read_members, read_more, read_object, read_quoted, read_string,
}

read_quoted-plain :
    (text rest : Bytes) → All IsPlain text → read_quoted (text ++ (34 ∷ rest)) ≡ some (text, rest)
unfolding read_quoted
read_quoted-plain [] rest h = refl
read_quoted-plain (c ∷ cs) rest h =
    let apart : (c == 34) ≡ false = ground arith in rw (apart, read_quoted-plain cs rest h.1) refl

read_string-plain :
    (text rest : Bytes) → All IsPlain text → read_string (quoted text ++ rest) ≡ some (text, rest)
unfolding read_string expect
read_string-plain text rest h =
    ap read_quoted (append_assoc text (34 ∷ []) rest) ∙ read_quoted-plain text rest h

abbrev pub member_text : Bytes → Bytes → Bytes → Bytes
member_text k v rest = quoted k ++ (58 ∷ (quoted v ++ rest))

read_member-plain :
    (k v rest : Bytes)
    → All IsPlain k
    → All IsPlain v
    → read_member (member_text k v rest) ≡ some ((k, v), rest)
unfolding read_member expect
read_member-plain k v rest hk hv =
    >>=_at _ (read_string-plain k (58 ∷ (quoted v ++ rest)) hk)
    ∙ >>=_at _ (read_string-plain v rest hv)

more_members-rest :
    (k v : Bytes) (fs : Fields) (rest : Bytes)
    → member_text k v (more_members fs) ++ rest ≡ member_text k v (more_members fs ++ rest)
more_members-rest k v fs rest = simp append_assoc

read_more-plain :
    (fs : Fields) (f : ℕ) (rest : Bytes)
    → length fs < f
    → PlainFields fs
    → read_more f (more_members fs ++ rest) ≡ some (fs, rest)
unfolding read_more
read_more-plain fs zero rest l h = elim l [ ]
read_more-plain [] (suc f) rest l h = refl
read_more-plain ((k, v) ∷ fs) (suc f) rest l h =
    >>=_at _ (
      ap read_member (more_members-rest k v fs rest)
      ∙ read_member-plain k v (more_members fs ++ rest) h.0.0 h.0.1)
    ∙ >>=_at _ (read_more-plain fs f rest (omega arith) h.1)

more_members-long : (fs : Fields) (rest : Bytes) → length fs < length (more_members fs ++ rest)
more_members-long [] rest = omega arith
more_members-long ((k, v) ∷ fs) rest = omega (
  arith,
  more_members-long fs rest,
  ap length (more_members-rest k v fs rest),
  length-append (k ++ (34 ∷ [])) (58 ∷ (quoted v ++ (more_members fs ++ rest))),
  length-append (v ++ (34 ∷ [])) (more_members fs ++ rest),
)

read_members-plain :
    (fs : Fields) (rest : Bytes)
    → PlainFields fs
    → read_members (members fs ++ rest) ≡ some (fs, rest)
unfolding read_members
read_members-plain [] rest h = refl
read_members-plain ((k, v) ∷ fs) rest h =
    let tail = more_members fs ++ rest in
    >>=_at _
      (ap read_member (more_members-rest k v fs rest) ∙ read_member-plain k v tail h.0.0 h.0.1)
    ∙ >>=_at _ (read_more-plain fs (length tail) rest (more_members-long fs rest) h.1)

pub read_object-plain :
    (name : Bytes) (fs : Fields)
    → All IsPlain name
    → PlainFields fs
    → read_object (object_text name fs) ≡ some (nested name fs)
unfolding read_object expect
read_object-plain name fs plain h =
    >>=_at _ (read_string-plain name (58 ∷ (123 ∷ (members fs ++ codes "}"))) plain)
    ∙ >>=_at _ (read_members-plain fs (codes "}") h)
