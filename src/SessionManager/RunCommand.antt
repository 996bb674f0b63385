-- ===== src/SessionManager/RunCommand.antt =====
-- SessionManager.cpp, `RunCommand`: the console's commands. A line is a list of characters.
use iocp_chat_server.Base.{
  ℕ, suc, ◌≡◌, refl, ap, Option, none, some, true, false, List, [], ◌∷◌, ◌++◌, ◌==◌, if◌then◌else◌,
  take, drop, ◌⊎◌, inl, inr, Bool-cases, append-nil,
}
use iocp_chat_server.Base.Text.{same_text}

abbrev pub space : ℕ
space = 32

-- `cmdLine.find (L' ')`, with `none` for `npos`.
unfoldable pub find_space : List ℕ → Option ℕ
find_space [] = none
find_space (c ∷ line) =
    let found = find_space line in
    if c == space then some 0 else elim found [ none ↦ none | some i ↦ some (suc i) ]

-- The command and the argument.
unfoldable pub split_command : List ℕ → List ℕ × List ℕ
unfolding find_space
split_command line = elim (find_space line) [
  | none ↦ (line, [])
  | some found ↦ (take found line, drop found line)
]

-- `serverCommand_`: a function is known by its number.
unfoldable pub find_command : List (List ℕ × ℕ) → List ℕ → Option ℕ
unfolding same_text
find_command [] command = none
find_command ((name, func) ∷ table) command =
    if same_text name command then some func else find_command table command

-- The function that `RunCommand` calls, with its argument, if it calls one.
unfoldable pub run_command : List (List ℕ × ℕ) → List ℕ → Option (ℕ × List ℕ)
unfolding find_command split_command
run_command table line =
    let (command, arg) = split_command line in
    elim (find_command table command) [ none ↦ none | some func ↦ some (func, arg) ]

pub NoSpace : List ℕ → Type 0
NoSpace [] = Unit {0}
NoSpace (c ∷ line) = ((c == space) ≡ false) × NoSpace line

-- Nothing, or characters of which the first is a space.
pub StartsWithSpace : List ℕ → Type 0
StartsWithSpace [] = Unit {0}
StartsWithSpace (c ∷ line) = (c == space) ≡ true

find_space-Split :
    (line : List ℕ)
    → ((find_space line ≡ none) × NoSpace line)
      ⊎ ((i : ℕ) × (find_space line ≡ some i)
          × NoSpace (take i line)
          × StartsWithSpace (drop i line)
          × (take i line ++ drop i line ≡ line))
unfolding find_space NoSpace StartsWithSpace
find_space-Split [] = inl (refl, tt)
find_space-Split (c ∷ line) = elim (Bool-cases (c == space)) [
  | inl e ↦ inr (0, rw e refl, tt, e, refl)
  | inr e ↦ elim (find_space-Split line) [
    | inl n ↦ inl (rw (e, n.0) refl, (e, n.1))
    | inr (i, f, before, behind, whole) ↦
        inr (suc i, rw (e, f) refl, (e, before), behind, ap (λ (l : List ℕ). c ∷ l) whole)
  ]
]

-- The line is the command and the argument behind it; the command has no space, and the argument is
-- empty or begins with the space that separates the two.
pub split_command-splits :
    (line : List ℕ)
    → let r = split_command line in (r.0 ++ r.1 ≡ line) × NoSpace r.0 × StartsWithSpace r.1
unfolding split_command StartsWithSpace
split_command-splits line = elim (find_space-Split line) [
  | inl n ↦
      let r : split_command line ≡ (line, []) = rw (split_command, n.0) refl in
      rw r (append-nil line, n.1, tt)
  | inr (i, f, before, behind, whole) ↦
      let r : split_command line ≡ (take i line, drop i line) = rw (split_command, f) refl in
      rw r (whole, before, behind)
]
