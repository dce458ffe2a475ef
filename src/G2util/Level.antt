-- ===== src/G2util/Level.antt =====
-- g2util/level_logger.go: levels, their names, and which calls a logger lets through.
pub mod Names
pub mod Filter
pub mod Make
use gof.Base.{ℕ, ◌-◌, ◌&&◌, ◌||◌, ◌++◌, map, ltb, leb, ◌==◌, if◌then◌else◌, Text, codes, text_eq}
use gof.J2rpc.Names.{to_lower}

-- a `Level` is a uint32; these are the ones that are declared
abbrev pub panic_level : ℕ
panic_level = 0

abbrev pub fatal_level : ℕ
fatal_level = 1

abbrev pub error_level : ℕ
error_level = 2

abbrev pub warn_level : ℕ
warn_level = 3

abbrev pub info_level : ℕ
info_level = 4

abbrev pub debug_level : ℕ
debug_level = 5

abbrev pub trace_level : ℕ
trace_level = 6

-- `MarshalText`, and `String`, which never meets its error
unfoldable pub marshal_text : ℕ → Text
marshal_text level =
    if level == trace_level
    then codes "trace"
    else if level == debug_level
    then codes "debug"
    else if level == info_level
    then codes "info"
    else if level == warn_level
    then codes "warning"
    else if level == error_level
    then codes "error"
    else if level == fatal_level
    then codes "fatal"
    else if level == panic_level
    then codes "panic"
    else codes "debug"

-- `ParseLevel` after the conversion to lower case
unfoldable pub level_named : Text → ℕ
level_named s =
    if text_eq s (codes "panic")
    then panic_level
    else if text_eq s (codes "fatal")
    then fatal_level
    else if text_eq s (codes "error")
    then error_level
    else if text_eq s (codes "warn") || text_eq s (codes "warning")
    then warn_level
    else if text_eq s (codes "info")
    then info_level
    else if text_eq s (codes "debug")
    then debug_level
    else if text_eq s (codes "trace")
    then trace_level
    else debug_level

unfoldable pub parse_level : Text → ℕ
unfolding level_named to_lower
parse_level s = level_named (map to_lower s)

-- `strings.ToUpper`, one byte of ASCII
unfoldable pub to_upper : ℕ → ℕ
to_upper d = if leb b'a' d && leb d b'z' then d - 32 else d

-- the methods of `LevelLogger` that take a message
pub data Call : Type 0 where
  debugf infof warnf errorf print printf println : Call
  fatal fatalf fatalln panic panicf panicln : Call

-- what a call does to the inner `log.Logger`: nothing, print a line, or print and then exit or
-- panic
pub data Act : Type 0 where
  drop : Act
  line : Text → Act
  exit : Text → Act
  throw : Text → Act

-- `out`: the line of a formatted call
unfoldable pub out : ℕ → Text → Act
unfolding marshal_text to_upper
out lvl s = line (codes "[" ++ (map to_upper (marshal_text lvl) ++ (codes "] " ++ s)))

-- one call on a logger at level `lvl`, with the text to print
unfoldable pub log : ℕ → Call → Text → Act
unfolding out
log lvl debugf s = if ltb lvl debug_level then drop else out debug_level s
log lvl infof s = if ltb lvl info_level then drop else out info_level s
log lvl warnf s = if ltb lvl warn_level then drop else out warn_level s
log lvl errorf s = if ltb lvl error_level then drop else out error_level s
log lvl print s = if ltb lvl info_level then drop else line s
log lvl printf s = if ltb lvl info_level then drop else out info_level s
log lvl println s = line s
log lvl fatal s = if ltb lvl fatal_level then drop else exit s
log lvl fatalf s = if ltb lvl fatal_level then drop else exit s
log lvl fatalln s = if ltb lvl fatal_level then drop else exit s
log lvl panic s = if ltb lvl panic_level then drop else throw s
log lvl panicf s = if ltb lvl panic_level then drop else throw s
log lvl panicln s = if ltb lvl panic_level then drop else throw s
