-- ===== src/Config.antt =====
-- Config.cpp and what the repository takes from TinyXML: reading the configuration.
use iocp_chat_server.Base.{◌≡◌, refl, Option, none, some, List, [], ◌∷◌, if◌then◌else◌}
use iocp_chat_server.Base.Int.{ℤ}
use iocp_chat_server.Base.Text.{Text, same_text, codes}

-- A loaded document. `children` are what `FirstChildElement ()` and `NextSiblingElement ()` go through,
-- `value` is `Value ()`, and `get_text` is `GetText ()`, with `none` for NULL.
pub record Xml : Type 1 where
  pub Element : Type 0
  pub children : Element → List Element
  pub value : Element → Text
  pub get_text : Element → Option Text

-- `sscanf_s (text, "%d", …)`: `none` where it stores nothing.
abbrev pub Scan : Type 0
Scan = Text → Option ℤ

-- A computation in which a null pointer may be followed, or a `strcpy_s` be given what it refuses.
pub data Uses (A : Type 0) : Type 0 where
  gives : A → Uses A
  null_pointer : Uses A
  invalid_parameter : Uses A

infixl 5 ◌>>=◌
abbrev pub ◌>>=◌ : {A B : Type 0} → Uses A → (A → Uses B) → Uses B
gives a >>= f = f a
null_pointer >>= f = null_pointer
invalid_parameter >>= f = invalid_parameter

pub >>=-eq-gives :
    {A B : Type 0} (m : Uses A) (f : A → Uses B) {b : B}
    → (m >>= f) ≡ gives b
    → (a : A) × (m ≡ gives a) × (f a ≡ gives b)
>>=-eq-gives (gives a) f h = (a, refl, h)
>>=-eq-gives null_pointer f h = cc
>>=-eq-gives invalid_parameter f h = cc

-- `p->…`
abbrev pub follow : {A : Type 0} → Option A → Uses A
follow none = null_pointer
follow (some a) = gives a

-- What a variable holds after `sscanf_s`.
abbrev pub scanned : Option ℤ → ℤ → ℤ
scanned none old = old
scanned (some n) old = n

-- `LoadConfig`: the document, if the file is loaded, and the lines on the console. `load_file` is
-- `LoadFile`, with `none` for a failure.
unfoldable pub load_config {ℓ} :
    {Document : Type ℓ} → (Text → Option Document) → Option Document × List Text
load_config load_file = elim (load_file (codes "./config.xml")) [
  | none ↦ (none, codes "! not exist config file." ∷ [])
  | some document ↦ (some document, [])
]

module _ (xml : Xml) where
  open xml use {Element, children, value}

  unfoldable pub find_child : Text → List Element → Option Element
  find_child name [] = none
  find_child name (e ∷ es) = if same_text (value e) name then some e else find_child name es

  -- `FirstChildElement (name)`
  unfoldable pub first_child : Element → Text → Option Element
  unfolding find_child
  first_child e name = find_child name (children e)
