-- ===== src/GameObject.antt =====
-- GameObject.h: objects with a name, and the methods of a class that derives from `GameObject`. The
-- position and the direction are left out: no method uses them.
use iocp_chat_server.Base.{◌≡◌, refl}
use iocp_chat_server.Base.Text.{Text}

pub record NameObject : Type 0 where
  pub name : Text

unfoldable pub set_name : Text → NameObject → NameObject
set_name name o = record { name = name }

-- The virtual methods of `Work` and of `GameObject`, on a state `S`.
pub record Methods {ℓ} (S : Type ℓ) : Type ℓ where
  pub tick : S → S
  pub wakeup : S → S
  pub suspend : S → S
  pub stop : S → S
  pub start : S → S
  pub initialize : S → S
  pub free : S → S

-- The class `GameObject` itself, but for `Tick`, which is pure.
unfoldable pub game_object {ℓ} : {S : Type ℓ} → (S → S) → Methods S
game_object tick = record {
  tick = tick;
  wakeup = λ s. s;
  suspend = λ s. s;
  stop = λ s. s;
  start = λ s. s;
  initialize = λ s. s;
  free = λ s. s;
}

-- `~GameObject` of an object of a derived class: while it runs, the object is a `GameObject`.
unfoldable pub destroy_game_object {ℓ} : {S : Type ℓ} → Methods S → S → S
unfolding game_object
destroy_game_object derived s = (game_object derived.tick).free s

-- The destructor frees nothing, whatever the `Free` of the derived class does.
pub destroy_game_object_lem {ℓ} :
    {S : Type ℓ} (derived : Methods S) (s : S) → destroy_game_object derived s ≡ s
unfolding destroy_game_object
destroy_game_object_lem derived s = refl
