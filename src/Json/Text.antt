-- ===== src/Json/Text.antt =====
-- The texts that IoTRepublicPlus/Utility/JsonUtility.cpp hands to jansson as C strings hold no '\0'.
use io_trepublic_plus.Base.{[], ◌∷◌, ◌++◌, Bytes, codes, All, All-append, All-weaken, arith}
use io_trepublic_plus.Framing.Columns.{IsText}
use io_trepublic_plus.Json.Laws.{
  Fields, IsPlain, PlainFields, members, more_members, object_text, quoted,
}

-- Every character of a plain text is one of a text.
plain-IsText : (text : Bytes) → All IsPlain text → All IsText text
plain-IsText text h = All-weaken IsPlain IsText text (λ c p. ground arith) h

quoted-IsText :
    (text rest : Bytes) → All IsPlain text → All IsText rest → All IsText (quoted text ++ rest)
quoted-IsText text rest h k = (
  omega arith,
  All-append IsText (text ++ (34 ∷ [])) rest
      (All-append IsText text (34 ∷ []) (plain-IsText text h) (omega arith, tt)) k,
)

member-IsText :
    (k v rest : Bytes)
    → All IsPlain k
    → All IsPlain v
    → All IsText rest
    → All IsText (quoted k ++ (58 ∷ (quoted v ++ rest)))
member-IsText k v rest hk hv h =
    quoted-IsText k (58 ∷ (quoted v ++ rest)) hk (omega arith, quoted-IsText v rest hv h)

more_members-IsText : (fs : Fields) → PlainFields fs → All IsText (more_members fs)
more_members-IsText [] h = (omega arith, tt)
more_members-IsText ((k, v) ∷ fs) ((hk, hv), h) =
    (omega arith, member-IsText k v (more_members fs) hk hv (more_members-IsText fs h))

members-IsText : (fs : Fields) → PlainFields fs → All IsText (members fs)
members-IsText [] h = (omega arith, tt)
members-IsText ((k, v) ∷ fs) ((hk, hv), h) =
    member-IsText k v (more_members fs) hk hv (more_members-IsText fs h)

pub object_text-IsText :
    (name : Bytes) (fs : Fields)
    → All IsPlain name
    → PlainFields fs
    → All IsText (object_text name fs)
object_text-IsText name fs plain h = (
  omega arith,
  quoted-IsText name (58 ∷ (123 ∷ (members fs ++ codes "}"))) plain (
    omega arith,
    (
      omega arith,
      All-append IsText (members fs) (codes "}") (members-IsText fs h) (omega arith, tt),
    ),
  ),
)
