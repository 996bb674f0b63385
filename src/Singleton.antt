-- ===== src/Singleton.antt =====
-- Singleton.h: the one object of a class, made at the first use. `A` is its address, and `S` what its
-- constructor changes.
use iocp_chat_server.Base.{ℕ, zero, suc, ◌≡◌, refl, Option, none, some, List, [], ◌∷◌}

module _ {ℓ ℓ'} {A : Type ℓ} {S : Type ℓ'} (construct : S → A × S) where
  -- `GetInstance`: the state holds the static variable.
  unfoldable pub get_instance : Option A × S → A × (Option A × S)
  get_instance (none, s) = let made = construct s in (made.0, (some made.0, made.1))
  get_instance (some a, s) = (a, (some a, s))

  -- The answers to so many calls, and the state after them.
  unfoldable pub get_each : ℕ → Option A × S → List A × (Option A × S)
  get_each zero s = ([], s)
  get_each (suc n) s =
      let first = get_instance s in let rest = get_each n first.1 in (first.0 ∷ rest.0, rest.1)

  unfoldable pub copies : ℕ → A → List A
  copies zero a = []
  copies (suc n) a = a ∷ copies n a

  get_each-made : (n : ℕ) (a : A) (s : S) → get_each n (some a, s) ≡ (copies n a, (some a, s))
  unfolding get_each get_instance copies
  get_each-made zero a s = refl
  get_each-made (suc n) a s = rw (get_each-made n a s) refl

  -- The constructor runs at the first call and never again, and all calls give the same object.
  pub get_each_lem :
      (n : ℕ) (s : S)
      → get_each (suc n) (none, s)
        ≡ (copies (suc n) (construct s).0, (some (construct s).0, (construct s).1))
  unfolding get_each get_instance copies
  get_each_lem n s = rw (get_each-made n (construct s).0 (construct s).1) refl
