-- ===== src/Logger/Lines.antt =====
-- Logger.cpp: what a sequence of calls of `Log` leaves on the console and in the file.
use iocp_chat_server.Base.{
  ◌≡◌, refl, ◌<◌, Option, some, true, List, [], ◌∷◌, ◌++◌, ltb, length, arith, append_assoc,
  append-nil,
}
use iocp_chat_server.Base.Text.{Text}
use iocp_chat_server.Config.{Uses, gives, ◌>>=◌}
use iocp_chat_server.Logger.{
  log_file, LogWriter, log_base, log, line, caller, destroy_writer, before_log,
}

-- A call of `Log`: the time, the name of its thread if it has one, and the message.
pub record Call : Type 0 where
  pub time : Text
  pub thread : Option Text
  pub message : Text

unfoldable pub log_all : LogWriter → List Call → Uses LogWriter
log_all w [] = gives w
log_all w (c ∷ cs) = do v ← log c.time c.thread c.message w; log_all v cs

-- The lines of these calls, one after another.
unfoldable pub lines : Text → List Call → Text
lines prefix [] = []
lines prefix (c ∷ cs) = line c.time (caller c.thread prefix) c.message ++ lines prefix cs

abbrev pub AllFit : List Call → Type 0
AllFit [] = Unit {0}
AllFit (c ∷ cs) = (length c.message < 1024) × AllFit cs

log-file :
    (w : LogWriter) (name : Text) (c : Call)
    → w.base ≡ some (log_file name)
    → w.output.opened ≡ true
    → length c.message < 1024
    → let t = line c.time (caller c.thread w.prefix) c.message in
      log c.time c.thread c.message w
      ≡ gives (record w {
        output = record w.output { console = w.output.console ++ t; file = w.output.file ++ t };
      })
unfolding log log_base
log-file w name c b o h =
    let fits : ltb (length c.message) 1024 ≡ true = ground arith in rw (fits, b, o) refl

log_all-file :
    (w : LogWriter) (name : Text) (cs : List Call)
    → w.base ≡ some (log_file name)
    → w.output.opened ≡ true
    → AllFit cs
    → log_all w cs
      ≡ gives (record w {
        output = record w.output {
          console = w.output.console ++ lines w.prefix cs;
          file = w.output.file ++ lines w.prefix cs;
        };
      })
unfolding log_all lines
log_all-file w name [] b o h = rw (append-nil w.output.console, append-nil w.output.file) refl
log_all-file w name (c ∷ cs) b o h =
    let t = line c.time (caller c.thread w.prefix) c.message in
    let v : LogWriter = record w {
      output = record w.output { console = w.output.console ++ t; file = w.output.file ++ t };
    } in
    let rest = log_all-file v name cs b o h.1 in
    rw
      (
        log-file w name c b o h.0,
        ◌>>=◌,
        rest,
        append_assoc w.output.console t (lines w.prefix cs),
        append_assoc w.output.file t (lines w.prefix cs),
      )
      refl

-- A log that writes to an open file: after any calls of `Log` with messages of fewer than 1024
-- characters and the destructor, if `_wrename` succeeds, the console and the closed file have got the same lines, in the order
-- of the calls, and the file stands under the name before ".log" with the stamp.
pub destroy_writer-log_all :
    (w : LogWriter) (name stem stamp : Text) (cs : List Call)
    → w.base ≡ some (log_file name)
    → w.output.opened ≡ true
    → w.output.file ≡ []
    → before_log name ≡ some stem
    → w.output.renames ≡ true
    → AllFit cs
    → (v : LogWriter) × (log_all w cs ≡ gives v)
      × ((destroy_writer stamp v).console ≡ w.output.console ++ lines w.prefix cs)
      × ((destroy_writer stamp v).closed ≡ (stem ++ stamp, lines w.prefix cs) ∷ w.output.closed)
unfolding destroy_writer
destroy_writer-log_all w name stem stamp cs b o f n moved h = (
  record w {
    output = record w.output {
      console = w.output.console ++ lines w.prefix cs;
      file = w.output.file ++ lines w.prefix cs;
    };
  },
  log_all-file w name cs b o h,
  rw b refl,
  rw (b, o, n, f, moved) refl,
)
