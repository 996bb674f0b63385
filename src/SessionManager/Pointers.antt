-- ===== src/SessionManager/Pointers.antt =====
-- Lists of pointers: `std::find` and `list::remove`.
use iocp_chat_server.Base.{
  ◌+◌, ◌≡◌, refl, true, false, List, [], ◌∷◌, ◌++◌, arith, length, ◌||◌, ◌≢◌,
}
use iocp_chat_server.SessionManager.Memory.{Pointer}
use iocp_chat_server.SessionManager.{contains, remove}

-- No pointer stands twice.
abbrev pub Distinct : List Pointer → Type 0
Distinct [] = Unit {0}
Distinct (p ∷ ps) = (contains p ps ≡ false) × Distinct ps

pub contains-remove_self : (p : Pointer) (ps : List Pointer) → contains p (remove p ps) ≡ false
unfolding contains remove
contains-remove_self p [] = refl
contains-remove_self p (q ∷ qs) = ground (arith, contains-remove_self p qs)

pub contains-remove_ne :
    (p q : Pointer) (ps : List Pointer) → p ≢ q → contains q (remove p ps) ≡ contains q ps
unfolding contains remove
contains-remove_ne p q [] h = refl
contains-remove_ne p q (r ∷ rs) h = ground (arith, contains-remove_ne p q rs h)

pub contains-append :
    (p : Pointer) (ps qs : List Pointer) → contains p (ps ++ qs) ≡ (contains p ps || contains p qs)
unfolding contains
contains-append p [] qs = refl
contains-append p (q ∷ ps) qs = ground (arith, contains-append p ps qs)

pub remove-missing : (p : Pointer) (ps : List Pointer) → contains p ps ≡ false → remove p ps ≡ ps
unfolding contains remove
remove-missing p [] h = refl
remove-missing p (q ∷ qs) h = ground (arith, remove-missing p qs)

pub length-remove :
    (p : Pointer) (ps : List Pointer)
    → Distinct ps
    → contains p ps ≡ true
    → length (remove p ps) + 1 ≡ length ps
unfolding contains remove
length-remove p [] d h = absurd (absurd_false h)
  where
    absurd_false : false ≡ true → ⊥
    absurd_false e = cc
length-remove p (q ∷ qs) d h = ground (arith, length-remove p qs d.1, remove-missing p qs)

pub remove-Distinct : (p : Pointer) (ps : List Pointer) → Distinct ps → Distinct (remove p ps)
unfolding contains remove
remove-Distinct p [] d = tt
remove-Distinct p (q ∷ qs) d = ground (arith, remove-Distinct p qs d.1, contains-remove_ne p q qs)

pub append-Distinct :
    (p : Pointer) (ps : List Pointer)
    → Distinct ps
    → contains p ps ≡ false
    → Distinct (ps ++ p ∷ [])
unfolding contains
append-Distinct p [] d h = (refl, tt)
append-Distinct p (q ∷ qs) d h =
    ground (arith, append-Distinct p qs d.1, contains-append q qs (p ∷ []))
