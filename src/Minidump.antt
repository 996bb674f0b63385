-- ===== src/Minidump.antt =====
-- Minidump.cpp, Assert.cpp and Shutdown.cpp: what happens when the process fails.
use iocp_chat_server.Base.{
  ℕ, ◌≡◌, Bool, true, false, List, [], ◌∷◌, ◌++◌, ◌==◌, if◌then◌else◌, arith, count,
}

pub data Effect : Type 0 where
  shuts_down : Effect  -- `ShutdownServer`, which writes to the log only
  dumps_objects : Effect
  loads_dll : Effect
  prints_no_dll prints_no_file prints_not_saved : Effect
  opens_file : Effect
  writes_dump : Effect
  closes_file : Effect
  logs_assert : Effect

-- What Windows answers: the module, 0 for none; whether the file is made; the function's address, 0 for
-- none; and whether it saves the dump.
pub record Answers : Type 0 where
  pub dump_dll : ℕ
  pub file_made : Bool
  pub dump_func : ℕ
  pub saved : Bool

-- `execptionFilter`: its effects in order, and whether it returns; it calls the function's address as
-- it is.
unfoldable pub exception_filter : Answers → List Effect × Bool
exception_filter a =
    let start = shuts_down ∷ dumps_objects ∷ loads_dll ∷ [] in
    if a.dump_dll == 0
    then (start ++ (prints_no_dll ∷ []), true)
    else if a.file_made
    then if a.dump_func == 0
      then (start ++ (opens_file ∷ []), false)
      else if a.saved
      then (start ++ (opens_file ∷ writes_dump ∷ closes_file ∷ []), true)
      else (start ++ (opens_file ∷ writes_dump ∷ prints_not_saved ∷ []), true)
    else (start ++ (prints_no_file ∷ []), true)

-- `Assert` of a condition.
unfoldable pub assert_that : ℕ → Answers → List Effect × Bool
unfolding exception_filter
assert_that condition a =
    if condition == 0
    then (let (effects, returns) = exception_filter a in
        (shuts_down ∷ logs_assert ∷ effects, returns))
    else ([], true)

pub is_open : Effect → Bool
is_open opens_file = true
is_open e = false

pub is_close : Effect → Bool
is_close closes_file = true
is_close e = false

-- The file of the dump is closed exactly where the dump is saved; where the file is made and the dump
-- is not saved, it stays open. The filter does not return exactly where the module, but not the
-- function in it, is found and the file is made.
pub exception_filter-closes :
    (a : Answers)
    → let r = exception_filter a in
      (count is_open r.0 ≡ (if a.dump_dll == 0 then 0 else if a.file_made then 1 else 0))
      × (count is_close r.0 ≡ (
          if (a.dump_dll == 0)
          then 0
          else if a.file_made
          then (if a.dump_func == 0 then 0 else if a.saved then 1 else 0)
          else 0))
      × (r.1 ≡ (
          if a.dump_dll == 0
          then true
          else if a.file_made
          then (if a.dump_func == 0 then false else true)
          else true))
unfolding exception_filter count is_open is_close
exception_filter-closes a = (ground arith, ground arith, ground arith)
