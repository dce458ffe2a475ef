-- ===== src/G2util/BackFile.antt =====
-- g2util/auto_back_file.go: a log file behind a memory buffer, copied to a numbered backup and cut
-- when it grows too large. Each method holds the lock from its first change to its last, so a
-- method is one step; what a method reads before it locks is a step of its own (`Race`).
pub mod Keeps
pub mod Sizes
pub mod Race
pub mod Directories
pub mod Registry
pub mod Access
use gof.Base.{
  ℕ, ◌*◌, Bool, true, false, Option, none, some, List, [], ◌∷◌, ◌++◌, ltb, leb, ◌==◌, if◌then◌else◌,
  length, take, Text,
}

-- `ABFileOption`, sizes only
pub record Options : Type 0 where
  pub file_max_size : ℕ
  pub buffer_size : ℕ

-- `innerIO`: the buffer, the file's bytes, the backups of the day in the order of their numbers,
-- the flag `closed`, whether the channel `close` is closed, and whether the file is open
pub record InnerIo : Type 0 where
  pub buf : Text
  pub file : Text
  pub backups : List Text
  pub opt : Options
  pub closed : Bool
  pub channel_closed : Bool
  pub file_open : Bool

-- What the disk does during one call: a write that fails after some bytes with an error, a backup that
-- fails, and whether the cut of the file succeeds. A backup fails before its file is there, `none`, or
-- with the file created and some bytes copied.
pub record Disk : Type 0 where
  pub write_error : Option (ℕ × Text)
  pub copy_error : Option (Option ℕ × Text)
  pub truncates : Bool

abbrev pub calm : Disk
calm = record { write_error = none; copy_error = none; truncates = true }

-- an `error` result is its text, and nil is `none`
abbrev pub Result : Type 0
Result = Option Text × InnerIo

-- `newIO` on a file that holds these bytes
unfoldable pub new_io : Text → Options → InnerIo
new_io bytes opt = record {
  buf = [];
  file = bytes;
  backups = [];
  opt = opt;
  closed = false;
  channel_closed = false;
  file_open = true;
}

-- the options of a call without any
abbrev pub default_options : Options
default_options = record { file_max_size = 2 * 1048576; buffer_size = 1048576 }

-- `fileCopyWithIndex`: a copy that fails leaves what it has copied as a backup, and the file as it is; a
-- failure of the cut is ignored
unfoldable pub file_copy_with_index : Disk → InnerIo → Result
file_copy_with_index d i = elim d.copy_error [
  | some (copied, e) ↦ elim copied [
    | none ↦ (some e, i)
    | some n ↦ (some e, record i { backups = i.backups ++ take n i.file ∷ [] })
  ]
  | none ↦ (
    none,
    record i { backups = i.backups ++ i.file ∷ []; file = if d.truncates then [] else i.file },
  )
]

-- `flush`
unfoldable pub flush : Disk → InnerIo → Result
unfolding file_copy_with_index
flush d i = if length i.buf == 0 then (none, i) else elim d.write_error [
  | some (n, e) ↦ (some e, record i { file = i.file ++ take n i.buf })
  | none ↦
      (let wrote = record i { file = i.file ++ i.buf; buf = [] } in
        if leb i.opt.file_max_size (length wrote.file)
        then file_copy_with_index d wrote
        else (none, wrote))
]

-- `Write` under the lock: the count of bytes that it reports, the error and the new state
unfoldable pub write_locked : Disk → Text → InnerIo → ℕ × Result
unfolding flush
write_locked d p i =
    let held = record i { buf = i.buf ++ p } in
    if ltb (length held.buf) i.opt.buffer_size then (0, (none, held)) else (0, flush d held)

-- `Write`
unfoldable pub write : Disk → Text → InnerIo → ℕ × Result
unfolding write_locked
write d p i = if i.closed then (0, (none, i)) else write_locked d p i

-- `close(i.close)` and the flag, under the lock; none is the panic of a second close
unfoldable pub close_locked : InnerIo → Option InnerIo
close_locked i =
    if i.channel_closed then none else some (record i { closed = true; channel_closed = true })

-- `Close`
unfoldable pub close : InnerIo → Option InnerIo
unfolding close_locked
close i = if i.closed then some i else close_locked i

-- `flushAndCloseFile`
unfoldable pub flush_and_close_file : Disk → InnerIo → Result
unfolding flush
flush_and_close_file d i =
    let (e, i') = flush d i in
    elim e [ some x ↦ (some x, i') | none ↦ (none, record i' { file_open = false }) ]

-- `AfterShutdown`, with the line that it writes
unfoldable pub after_shutdown : Disk → Text → InnerIo → Option InnerIo
unfolding write close
after_shutdown d line i = close (write d line i).1.1

-- One turn of the loop `run`: the flush timer, or the closed channel, which ends it. The timer of
-- old directories touches nothing that is modelled.
pub data Turn : Type 0 where
  tick : Turn
  swept : Turn
  stop : Turn

unfoldable pub turn : Disk → Turn → InnerIo → Bool × InnerIo
unfolding flush flush_and_close_file
turn d tick i = (true, (flush d i).1)
turn d swept i = (true, i)
turn d stop i = (false, (flush_and_close_file d i).1)
