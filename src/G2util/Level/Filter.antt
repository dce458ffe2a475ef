-- ===== src/G2util/Level/Filter.antt =====
-- What a logger at a level prints.
use gof.Base.{ℕ, ◌≤◌, ◌<◌, ◌≡◌, refl, ◌≢◌, ◌↔◌, arith, Text}
use gof.G2util.Level.{
  Call, debugf, infof, warnf, errorf, print, printf, println, fatal, fatalf, fatalln, panic, panicf,
  panicln, drop, log, panic_level, fatal_level, error_level, warn_level, info_level, debug_level,
}

-- The level that a call needs.
unfoldable pub needs : Call → ℕ
needs debugf = debug_level
needs infof = info_level
needs warnf = warn_level
needs errorf = error_level
needs print = info_level
needs printf = info_level
needs println = panic_level
needs fatal = fatal_level
needs fatalf = fatal_level
needs fatalln = fatal_level
needs panic = panic_level
needs panicf = panic_level
needs panicln = panic_level

-- A call is dropped exactly when the logger's level is below the one that the call needs; so a
-- fatal call on a logger at panic level returns instead of ending the process, and calls that panic
-- always do.
pub log-drop : (lvl : ℕ) (c : Call) (s : Text) → (log lvl c s ≡ drop) ↔ (lvl < needs c)
unfolding log needs
log-drop lvl debugf s = ground arith
log-drop lvl infof s = ground arith
log-drop lvl warnf s = ground arith
log-drop lvl errorf s = ground arith
log-drop lvl print s = ground arith
log-drop lvl printf s = ground arith
log-drop lvl println s = ground arith
log-drop lvl fatal s = ground arith
log-drop lvl fatalf s = ground arith
log-drop lvl fatalln s = ground arith
log-drop lvl panic s = ground arith
log-drop lvl panicf s = ground arith
log-drop lvl panicln s = ground arith

-- Raising a logger's level never silences a call.
pub log_mono : (a b : ℕ) (c : Call) (s : Text) → a ≤ b → log a c s ≢ drop → log b c s ≡ log a c s
unfolding log
log_mono a b debugf s h n = ground arith
log_mono a b infof s h n = ground arith
log_mono a b warnf s h n = ground arith
log_mono a b errorf s h n = ground arith
log_mono a b print s h n = ground arith
log_mono a b printf s h n = ground arith
log_mono a b println s h n = refl
log_mono a b fatal s h n = ground arith
log_mono a b fatalf s h n = ground arith
log_mono a b fatalln s h n = ground arith
log_mono a b panic s h n = ground arith
log_mono a b panicf s h n = ground arith
log_mono a b panicln s h n = ground arith
