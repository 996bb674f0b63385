-- ===== src/Terminal/Manager.antt =====
-- TerminalManager.cpp, and `Terminal::Initialize` of Terminal.cpp: the terminals that the configuration
-- names. `widen` is `StrConvA2W`.
use iocp_chat_server.Base.{
  ◌+◌, ◌≡◌, refl, sym, ◌∙◌, Option, none, some, Bool, true, false, List, [], ◌∷◌, ◌||◌,
  if◌then◌else◌, length, arith, Bool-cases, Option-cases, ap, inl, inr,
}
use iocp_chat_server.Base.Int.{ℤ}
use iocp_chat_server.Base.Text.{Text, codes, same_text, same_text→eq}
use iocp_chat_server.Config.{
  Xml, Scan, Uses, gives, null_pointer, invalid_parameter, ◌>>=◌, follow, scanned, first_child,
  >>=-eq-gives, load_config,
}
use iocp_chat_server.Server.{copy_ip, text_of}

-- What a terminal reads from its element.
pub record Endpoint : Type 0 where
  pub ip : Text  -- char[16]
  pub port : ℤ

-- `terminalPool_`, and the terminals whose thread has been started, newest first.
pub record TerminalManager : Type 0 where
  pub terminal_pool : List (Text × Endpoint)
  pub started : List Endpoint

unfoldable pub get : Text → List (Text × Endpoint) → Option Endpoint
get name [] = none
get name ((key, t) ∷ pool) = if same_text key name then some t else get name pool

abbrev pub inserted :
    Option Endpoint → Text → Endpoint → List (Text × Endpoint) → List (Text × Endpoint)
inserted none name t pool = (name, t) ∷ pool
inserted (some old) name t pool = pool

-- `Put`: `insert` keeps the entry that is there.
unfoldable pub put : Text → Endpoint → List (Text × Endpoint) → List (Text × Endpoint)
put name t pool = inserted (get name pool) name t pool

unfoldable pub is_terminal : Text → List (Text × Endpoint) → Bool
is_terminal ip [] = false
is_terminal ip ((key, t) ∷ pool) = same_text t.ip ip || is_terminal ip pool

module _ (xml : Xml) (scan : Scan) (widen : Text → Text) where
  open xml use {Element, children, value}

  -- `Terminal::Initialize`, which starts the thread at its end; `port` is what the memory held.
  unfoldable pub read_terminal : ℤ → Element → Uses Endpoint
  read_terminal port e = do
    ip ← text_of xml scan e (codes "IP")
    ip' ← copy_ip ip
    number ← text_of xml scan e (codes "Port")
    gives (record { ip = ip'; port = scanned (scan number) port })

  -- The loop of `Initialize`.
  unfoldable pub add_each : ℤ → TerminalManager → List Element → Uses TerminalManager
  add_each port m [] = gives m
  add_each port m (e ∷ es) = do
    t ← read_terminal port e
    add_each port
        (record {
          terminal_pool = put (widen (value e)) t m.terminal_pool;
          started = t ∷ m.started;
        })
        es

  abbrev pub add_section : ℤ → TerminalManager → Option Element → Uses TerminalManager
  add_section port m none = gives m
  add_section port m (some root) = add_each port m (children root)

  unfoldable pub initialize : ℤ → TerminalManager → Element → Uses TerminalManager
  unfolding add_each
  initialize port m config = do
    app ← follow (first_child xml config (codes "App"))
    add_section port m (first_child xml app (codes "Terminal"))

  abbrev pub initialize_loaded : ℤ → TerminalManager → Option Element → Uses TerminalManager
  initialize_loaded port m none = gives m
  initialize_loaded port m (some document) = initialize port m document

  -- `Run`, with the lines on the console; `load_file` is `LoadFile` of the document.
  unfoldable pub run :
      ℤ → (Text → Option Element) → TerminalManager → Uses TerminalManager × List Text
  unfolding initialize
  run port load_file m =
      let (config, lines) = load_config load_file in (initialize_loaded port m config, lines)

  -- Without a configuration file the manager stays as it is, and the console says so.
  pub run-no_file :
      (port : ℤ) (load_file : Text → Option Element) (m : TerminalManager)
      → load_file (codes "./config.xml") ≡ none
      → run port load_file m ≡ (gives m, codes "! not exist config file." ∷ [])
  unfolding run load_config
  run-no_file port load_file m e = rw (load_config, e) refl

-- The destructor: the terminals that it deletes.
unfoldable pub destroy_terminals : List (Text × Endpoint) → List Endpoint
destroy_terminals [] = []
destroy_terminals ((key, t) ∷ pool) = t ∷ destroy_terminals pool

pub or_else : Option Endpoint → Option Endpoint → Option Endpoint
or_else none o = o
or_else (some t) o = some t

get-cons :
    (name key : Text) (t : Endpoint) (pool : List (Text × Endpoint))
    → get name ((key, t) ∷ pool) ≡ (if same_text key name then some t else get name pool)
unfolding get
get-cons name key t pool = refl

or_else-none : (o : Option Endpoint) → or_else o none ≡ o
unfolding or_else
or_else-none none = refl
or_else-none (some t) = refl

or_else-if :
    (o n g : Option Endpoint) (b : Bool) (t : Endpoint)
    → g ≡ some t
    → or_else (or_else o (if b then some t else none)) n ≡ or_else o (if b then g else n)
unfolding or_else
or_else-if none n g true t e = sym e
or_else-if none n g false t e = refl
or_else-if (some u) n g b t e = refl

-- `Put` adds what is not there yet.
pub get-put :
    (name key : Text) (t : Endpoint) (pool : List (Text × Endpoint))
    → get name (put key t pool)
      ≡ or_else (get name pool) (if same_text key name then some t else none)
unfolding put or_else
get-put name key t pool = elim (Bool-cases (same_text key name)) [
  | inl e ↦
      let look : get key pool ≡ get name pool =
        ap (λ (k : Text). get k pool) (same_text→eq key name e) in
      elim (Option-cases (get name pool)) [
        | inl missing ↦
            let missing' : get key pool ≡ none = look ∙ missing in
            rw (put, missing', missing, get-cons, e) refl
        | inr (u, found) ↦
            let found' : get key pool ≡ some u = look ∙ found in rw (put, found', found) refl
      ]
  | inr e ↦
      let unchanged : or_else (get name pool) none ≡ get name pool = or_else-none (get name pool) in
      elim (Option-cases (get key pool)) [
        | inl missing ↦ rw (put, missing, get-cons, e) (sym unchanged)
        | inr (u, found) ↦ rw (put, found, e) (sym unchanged)
      ]
]

given : Uses Endpoint → Option Endpoint
given (gives t) = some t
given null_pointer = none
given invalid_parameter = none

module _ (xml : Xml) (scan : Scan) (widen : Text → Text) (port : ℤ) where
  open xml use {Element, children, value}

  -- The endpoint of the first element with this name.
  pub named : Text → List Element → Option Endpoint
  unfolding given
  named name [] = none
  named name (e ∷ es) =
      let rest = named name es in
      if same_text (widen (value e)) name then given (read_terminal xml scan widen port e) else rest

  -- Where the loop over the elements ends, `Get` finds what it found before, or else the terminal of
  -- the first element with the name; and each element has started a terminal, also where another has
  -- the same name.
  pub add_each-get :
      (m m' : TerminalManager) (es : List Element) (name : Text)
      → add_each xml scan widen port m es ≡ gives m'
      → (get name m'.terminal_pool ≡ or_else (get name m.terminal_pool) (named name es))
        × (length m'.started ≡ length m.started + length es)
  unfolding add_each named given
  add_each-get m m' [] name e =
      let same : m ≡ m' = cc in
      rw (← same) (sym (or_else-none (get name m.terminal_pool)), omega arith)
  add_each-get m m' (x ∷ es) name e =
      let a = >>=-eq-gives (read_terminal xml scan widen port x) _ e in
      let key = widen (value x) in
      let read : given (read_terminal xml scan widen port x) ≡ some a.0 = rw (a.1) refl in
      let next : TerminalManager = record {
        terminal_pool = put key a.0 m.terminal_pool;
        started = a.0 ∷ m.started;
      } in
      let ih = add_each-get next m' es name a.2 in
      (
        ih.0
            ∙ rw (get-put name key a.0 m.terminal_pool) refl
            ∙ or_else-if (get name m.terminal_pool) (named name es)
                (given (read_terminal xml scan widen port x)) (same_text key name) a.0 read,
        omega (arith, ih.1),
      )
