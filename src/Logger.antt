-- ===== src/Logger.antt =====
-- Logger.cpp and Logger.h: the log. Texts are what `printf` and the file get. The format and its
-- arguments come in as the text that `vswprintf_s` makes of them.
pub mod Lines
use iocp_chat_server.Base.{
  ℕ, suc, ◌+◌, Option, none, some, Bool, true, false, List, [], ◌∷◌, ◌++◌, ltb, if◌then◌else◌,
  length, take,
}
use iocp_chat_server.Base.Text.{Text, codes, same_text}
use iocp_chat_server.Config.{
  Xml, Uses, gives, invalid_parameter, ◌>>=◌, follow, first_child, load_config,
}

-- The classes that derive from `LogBase`; a `LogFile` with its `fileName_`.
pub data LogBase : Type 0 where
  log_printf : LogBase
  log_file : Text → LogBase

-- What has been printed, what the open file holds, and the closed files with their names, newest
-- first. `opened` is false where the file could not be opened: what is written is lost.
pub record Output : Type 0 where
  pub console : Text
  pub file : Text
  pub opened : Bool
  pub closed : List (Text × Text)
  pub renames : Bool  -- whether `_wrename` succeeds; nothing looks at its answer

-- `LogWriter`
pub record LogWriter : Type 0 where
  pub base : Option LogBase
  pub prefix : Text
  pub output : Output

unfoldable pub print : Text → Output → Output
print t o = record o { console = o.console ++ t }

unfoldable pub write : Text → Output → Output
write t o = if o.opened then record o { file = o.file ++ t } else o

-- The `Log` of the two classes.
unfoldable pub log_base : LogBase → Text → Output → Output
unfolding print write
log_base log_printf t o = print t o
log_base (log_file name) t o = write t (print t o)

-- `LogFile::Initialize (logFileName)`, with whether Windows opens the file. `bad ()` is about reads and
-- writes, so the check that follows does not see that it did not.
unfoldable pub open_file : Bool → Output → Output
open_file ok o = record o { file = []; opened = ok }

abbrev pub starts_with : Text → Text → Bool
starts_with [] t = true
starts_with (p ∷ ps) t = same_text (p ∷ ps) (take (suc (length ps)) t)

-- `fileName_.substr (0, fileName_.find (L".log"))`, with `none` for `npos`.
unfoldable pub before_log : Text → Option Text
before_log [] = none
before_log (c ∷ cs) =
    let rest = before_log cs in
    if starts_with (codes ".log") (c ∷ cs)
    then some []
    else elim rest [ none ↦ none | some t ↦ some (c ∷ t) ]

-- `~LogFile`: `stamp` is `CLOCK.NowTime (L"_%Y%m%d-%H%M%S.log")`, and the file is there if it was
-- opened.
unfoldable pub close_file : Text → Text → Output → Output
unfolding before_log
close_file stamp name o = record o {
  closed =
      if o.opened
      then (
        (elim (before_log name) [
          | none ↦ name
          | some stem ↦ if o.renames then stem ++ stamp else name
        ]),
        o.file,
      )
        ∷ o.closed
      else o.closed;
  opened = false;
}

-- `delete` of a `LogBase *`.
unfoldable pub delete_base : Text → LogBase → Output → Output
unfolding close_file
delete_base stamp log_printf o = o
delete_base stamp (log_file name) o = close_file stamp name o

abbrev pub delete_old : Text → Option LogBase → Output → Output
delete_old stamp none o = o
delete_old stamp (some old) o = delete_base stamp old o

-- `SetLogger`; `UnInitialize` and `Initialize` of the classes do nothing.
unfoldable pub set_logger : Text → LogWriter → LogBase → Text → LogWriter
unfolding delete_base
set_logger stamp w base prefix = record {
  base = some base;
  prefix = prefix;
  output = delete_old stamp w.base w.output;
}

-- `~LogWriter`
unfoldable pub destroy_writer : Text → LogWriter → Output
unfolding delete_base
destroy_writer stamp w = delete_old stamp w.base w.output

abbrev pub size_1024 : ℕ
size_1024 = 1024

-- The name of the calling thread, if the table of threads has it, or the prefix.
abbrev pub caller : Option Text → Text → Text
caller none prefix = prefix
caller (some name) prefix = name

-- The line that `Log` makes at this time.
unfoldable pub line : Text → Text → Text → Text
line time who message = time ++ codes "\t" ++ who ++ message ++ codes "\n"

-- `Log (fmt, args)`: `vswprintf_s` wants the message and its zero to fit 1024 characters.
unfoldable pub log : Text → Option Text → Text → LogWriter → Uses LogWriter
unfolding log_base line
log time thread message w =
    if ltb (length message) size_1024
    then (do
      b ← follow w.base
      gives
          (record w { output = log_base b (line time (caller thread w.prefix) message) w.output }))
    else invalid_parameter

module _ (xml : Xml) (widen : Text → Text) (opens : Bool) (stamp : Text) where
  open xml use {Element, get_text}

  -- The text of a child that has to be there.
  unfoldable pub setting : Element → Text → Uses Text
  setting e name = do c ← follow (first_child xml e name); follow (get_text c)

  -- `LogFile (config)`
  unfoldable pub make_file : Element → Output → Uses (LogBase × Output)
  unfolding setting open_file
  make_file root o = do
    path ← setting root (codes "Path")
    gives (log_file (widen path), open_file opens o)

  unfoldable pub read_log : LogWriter → Element → Uses LogWriter
  unfolding setting make_file set_logger
  read_log w root = do
    prefix ← setting root (codes "Prefix")
    type ← setting root (codes "Type")
    made ←
        (if same_text type (codes "WithFile")
          then make_file root w.output
          else gives (log_printf, w.output))
    gives (set_logger stamp (record w { output = made.1 }) made.0 (widen prefix))

  abbrev pub read_log_section : LogWriter → Option Element → Uses LogWriter
  read_log_section w none = gives (set_logger stamp w log_printf (codes "testServer"))
  read_log_section w (some root) = read_log w root

  -- `SystemLog::Initialize`, on a writer that has no base yet, as the constructor calls it.
  unfoldable pub initialize : LogWriter → Element → Uses LogWriter
  unfolding read_log set_logger
  initialize w config = do
    app ← follow (first_child xml config (codes "App"))
    read_log_section w (first_child xml app (codes "Log"))

  -- The constructor of `SystemLog`: `none` is the end of the process, without a configuration file; the
  -- texts are what is printed on the way there. `w` is the writer that its own constructor gives.
  unfoldable pub make_system_log :
      LogWriter → (Text → Option Element) → Option (Uses LogWriter) × List Text
  unfolding initialize
  make_system_log w load_file =
      let (config, lines) = load_config load_file in
      elim config [
        | none ↦ (none, lines ++ codes "!!! have not config file\n" ∷ [])
        | some document ↦ (some (initialize w document), lines)
      ]
