-- ===== src/Debug.antt =====
-- src/debug.c and include/debug.h: the debug level and what is written to the log. The text of a
-- message after its header is the caller's, and is kept as it is given.
pub mod Laws
use plcstub.Base.{
  ℕ, String, Bool, true, false, ◌||◌, not, List, [], ◌∷◌, ◌++◌, ℤ, pos, ltb_ℤ, ◌==ℤ◌, if◌then◌else◌,
}
use plcstub.Outcome.{Outcome, done, exit}

abbrev pub debug_none : ℤ
debug_none = pos 0

abbrev pub debug_error : ℤ
debug_error = pos 1

abbrev pub debug_warn : ℤ
debug_warn = pos 2

abbrev pub debug_info : ℤ
debug_info = pos 3

abbrev pub debug_detail : ℤ
debug_detail = pos 4

abbrev pub debug_spew : ℤ
debug_spew = pos 5

-- A line of the log: the label of its level, its place in the source, and the message.
pub record Line : Type 0 where
  pub label : String
  pub file : String
  pub line : ℕ
  pub func : String
  pub msg : String

-- `debug_level`, and what stderr has received.
pub record Debug : Type 0 where
  pub debug_level : ℤ
  pub output : List Line

-- The static initialiser, in a build with or without DEBUG.
abbrev pub initial : Bool → Debug
initial debug_build = record {
  debug_level = if debug_build then debug_spew else debug_info;
  output = [];
}

unfoldable pub debug_level_str : ℤ → String
debug_level_str level =
    if level ==ℤ debug_none
    then "<none>"
    else if level ==ℤ debug_error
    then "ERROR"
    else if level ==ℤ debug_warn
    then "WARN"
    else if level ==ℤ debug_info
    then "INFO"
    else if level ==ℤ debug_detail
    then "DETAIL"
    else if level ==ℤ debug_spew
    then "SPEW"
    else "???"

unfoldable pub debug_get_level : Debug → ℤ
debug_get_level d = d.debug_level

unfoldable pub debug_set_level : ℤ → Debug → Outcome Debug
debug_set_level level d =
    if ltb_ℤ level debug_none || ltb_ℤ debug_spew level
    then exit
    else done (record d { debug_level = level })

unfoldable pub pdebug_impl : String → String → ℕ → ℤ → String → Debug → Debug
unfolding debug_level_str
pdebug_impl func file line level msg d = record d {
  output =
      d.output
      ++ record { label = debug_level_str level; file = file; line = line; func = func; msg = msg }
        ∷ [];
}

-- The macro: a message is written if its level does not exceed the current one.
unfoldable pub pdebug : String → String → ℕ → ℤ → String → Debug → Debug
unfolding pdebug_impl debug_get_level
pdebug func file line level msg d =
    if not (ltb_ℤ (debug_get_level d) level) then pdebug_impl func file line level msg d else d
