-- ===== src/Examples/System.antt =====
-- Util.h, Logger.cpp and Monitoring.h at concrete values.
use iocp_chat_server.Base.{
  ◌≡◌, some, none, true, List, [], ◌∷◌, arith, ℕ, ◌*◌, ◌/◌, Option, Bool, false, ltb, ◌⊎◌, ◌==◌,
  if◌then◌else◌,
}
use iocp_chat_server.Base.Int.{ℤ, pos, negsuc}
use iocp_chat_server.Base.Text.{codes}
use iocp_chat_server.Monitoring
use iocp_chat_server.Monitoring.{
  Double, IsOrdered, Times, process_cpu_usage, process_cpu_usage_bounds,
}
use iocp_chat_server.Logger.{LogWriter, log_file}
use iocp_chat_server.Logger.Lines.{Call}

abbrev writer : LogWriter
writer = record {
  base = some (log_file (codes "a.log"));
  prefix = codes "srv";
  output = record { console = []; file = []; opened = true; closed = []; renames = true };
}

abbrev calls : List Call
calls =
    record { time = codes "t1"; thread = none; message = codes "up" }
    ∷ record { time = codes "t2"; thread = some (codes "w"); message = codes "go" }
    ∷ []

-- Doubles that are whole numbers, with `none` for the result of a division by zero.
abbrev divide : Option ℕ → Option ℕ → Option ℕ
divide (some a) (some b) = if b == 0 then none else some (a / b)
divide _ _ = none

abbrev multiply : Option ℕ → Option ℕ → Option ℕ
multiply (some a) (some b) = some (a * b)
multiply _ _ = none

abbrev below : Option ℕ → Option ℕ → Bool
below (some a) (some b) = ltb a b
below _ _ = false

abbrev natural : ℤ → Option ℕ
natural (pos n) = some n
natural (negsuc n) = none

instance abbrev whole_double : Double (Option ℕ)
whole_double = record {
  of_unsigned = λ n. some n;
  of_int = natural;
  literal = λ n. some n;
  divided = divide;
  times = multiply;
  less = below;
}

whole-IsOrdered : IsOrdered (Option ℕ)
whole-IsOrdered = ground arith

-- No time has passed since the monitor was made.
abbrev at_once : Times
at_once = record { now = 700; sys = 30; user = 40 }

process_cpu_usage_bounds_example :
    let r : Option ℕ = process_cpu_usage (Monitoring.make (pos 4) at_once) at_once in
    ((r ≡ some 0) ⊎ (below (some 0) r ≡ true)) × (below (some 100) r ≡ false)
process_cpu_usage_bounds_example =
    process_cpu_usage_bounds ⦃o = whole-IsOrdered⦄ (Monitoring.make (pos 4) at_once) at_once
