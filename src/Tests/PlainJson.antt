-- ===== src/Tests/PlainJson.antt =====
-- A small library for JSON that meets the laws: it knows texts, objects of texts, and objects of one key with
-- such an object.
pub mod Reading
pub mod Sound
pub mod Lawful
use io_trepublic_plus.Base.{
  ℕ, zero, suc, Bool, true, false, Option, none, some, List, [], ◌∷◌, ◌++◌, Bytes, codes, length,
  str_eq, ◌==◌, if◌then◌else◌, ◌>>=◌,
}
use io_trepublic_plus.Json.{Jansson}
use io_trepublic_plus.Json.Laws.{Fields, lookup, names, object_text, put}

pub data Tree : Type 0 where
  string : Bytes → Tree
  texts : Fields → Tree
  nested : Bytes → Fields → Tree

-- A text up to its closing quote, and what follows.
unfoldable pub read_quoted : Bytes → Option (Bytes × Bytes)
read_quoted [] = none
read_quoted (c ∷ cs) =
    let longer = (do (text, rest) ← read_quoted cs; some (c ∷ text, rest)) in
    if c == 34 then some ([], cs) else longer

unfoldable pub expect : ℕ → Bytes → Option Bytes
expect x [] = none
expect x (c ∷ cs) = if c == x then some cs else none

unfoldable pub read_string : Bytes → Option (Bytes × Bytes)
unfolding read_quoted expect
read_string cs = expect 34 cs >>= read_quoted

unfoldable pub read_member : Bytes → Option ((Bytes × Bytes) × Bytes)
unfolding read_string expect
read_member cs = do
  (k, r1) ← read_string cs
  r2 ← expect 58 r1
  (v, r3) ← read_string r2
  some ((k, v), r3)

unfoldable pub read_more : ℕ → Bytes → Option (Fields × Bytes)
unfolding read_member
read_more zero cs = none
read_more (suc f) [] = none
read_more (suc f) (c ∷ cs) =
    let longer = (do
      (member, r1) ← read_member cs
      (rest, r2) ← read_more f r1
      some (member ∷ rest, r2)) in
    if c == 125 then some ([], cs) else if c == 44 then longer else none

unfoldable pub read_members : Bytes → Option (Fields × Bytes)
unfolding read_member read_more
read_members [] = none
read_members (c ∷ cs) =
    let longer = (do
      (member, r1) ← read_member (c ∷ cs)
      (rest, r2) ← read_more (length r1) r1
      some (member ∷ rest, r2)) in
    if c == 125 then some ([], cs) else longer

unfoldable pub read_object : Bytes → Option Tree
unfolding expect read_string read_members
read_object cs = do
  r1 ← expect 123 cs
  (name, r2) ← read_string r1
  r3 ← expect 58 r2
  r4 ← expect 123 r3
  (fs, r5) ← read_members r4
  r6 ← expect 125 r5
  some (nested name fs)

abbrev get : Tree → Bytes → Option Tree
get (string s) k = none
get (texts fs) k = do v ← lookup k fs; some (string v)
get (nested name fs) k = if str_eq k name then some (texts fs) else none

abbrev set_string : Tree → Bytes → Bytes → Tree
set_string (string s) k v = string s
set_string (texts fs) k v = texts (put k v fs)
set_string (nested name fs) k v = if str_eq k name then texts ((name, v) ∷ []) else nested name fs

abbrev set_tree : Tree → Bytes → Tree → Tree
set_tree (texts fs) k (string s) = texts (put k s fs)
set_tree (nested name fs) k (texts gs) = if str_eq k name then nested name gs else nested name fs
set_tree o k w = o

-- The names from the last to the first, so that no order of the iteration is relied on.
abbrev pub backwards : List Bytes → List Bytes
backwards [] = []
backwards (k ∷ ks) = backwards ks ++ (k ∷ [])

abbrev tree_keys : Tree → List Bytes
tree_keys (string s) = []
tree_keys (texts fs) = backwards (names fs)
tree_keys (nested name fs) = name ∷ []

abbrev is_nested : Tree → Bool
is_nested (nested name fs) = true
is_nested _ = false

abbrev text_of : Tree → Option Bytes
text_of (string s) = some s
text_of _ = none

abbrev print : Tree → Option Bytes
print (nested name fs) = some (object_text name fs)
print _ = none

abbrev pub plain_json : Jansson
plain_json = record {
  Json = Tree;
  loads = read_object;
  is_object = is_nested;
  keys = tree_keys;
  object_get = get;
  object_set_string = set_string;
  object_set = set_tree;
  string_value = text_of;
  is_array = λ j. false;
  array_size = λ j. 0;
  array_get = λ j i. none;
  dumps = print;
}
