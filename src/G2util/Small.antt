-- ===== src/G2util/Small.antt =====
-- Small functions of g2util/: file.go, template.go, cron.go and captcha.go, and `FuncName` of j2rpc/reflect.go. Their packages are parameters; a panic is none.
use gof.Base.{
  ℕ, ◌+◌, ◌*◌, ◌≡◌, refl, sym, ap, ◌∙◌, Bool, true, Option, none, some, List, [], ◌∷◌, ◌++◌,
  append_assoc, append-nil, ◌==◌, if◌then◌else◌, Text, codes,
}
use gof.Base.Replace.{replace_all}
use gof.Fault.{Result, Action, ok, err}

-- a value as `TranslateSlice2Interfaces` sees it: a slice of elements, or of another kind
pub data Sliced (A : Type 0) : Type 0 where
  slice : List A → Sliced A
  other : Sliced A

-- the loop over the indices left
unfoldable pub append_elems : {A : Type 0} → List A → List A → List A
append_elems [] out = out
append_elems (a ∷ l) out = append_elems l (out ++ a ∷ [])

-- `TranslateSlice2Interfaces`
unfoldable pub translate_slice2interfaces : {A : Type 0} → Sliced A → Option (List A)
unfolding append_elems
translate_slice2interfaces (slice l) = some (append_elems l [])
translate_slice2interfaces other = none

append_elems-append : {A : Type 0} (l out : List A) → append_elems l out ≡ out ++ l
unfolding append_elems
append_elems-append [] out = sym (append-nil out)
append_elems-append (a ∷ l) out =
    append_elems-append l (out ++ a ∷ []) ∙ append_assoc out (a ∷ []) l

-- Every element comes out once, in its place.
pub translate_slice2interfaces_all :
    {A : Type 0} (l : List A) → translate_slice2interfaces (slice l) ≡ some l
unfolding translate_slice2interfaces
translate_slice2interfaces_all l = ap some (append_elems-append l [])

-- `FileAbsPath` and `Write2file`, which drop their errors
unfoldable pub file_abs_path : (Text → Result Text) → Text → Text
file_abs_path abs path = elim (abs path) [ ok p ↦ p | err e ↦ [] ]

unfoldable pub write2file :
    {W : Type 0} → (Text → Text → ℕ → Action W (Unit {0})) → Text → Text → W → W
write2file write_file name content w = (write_file name content (7 * 64 + 5 * 8 + 5) w).1

-- `TextTemplateMustParse`: every error gives the empty text
unfoldable pub text_template_must_parse :
    {T D : Type 0} → (Text → Result T) → (T → D → Result Text) → Text → D → Text
text_template_must_parse parse execute text d = elim (parse text) [
  | err e ↦ []
  | ok t ↦ elim (execute t d) [ err e ↦ [] | ok out ↦ out ]
]

-- `G2cron.AddTask`: an error of the schedule is only logged
unfoldable pub add_task : {C F : Type 0} → (Text → F → C → Result C) → Text → F → C → C
add_task add_func spec fn c = elim (add_func spec fn c) [ err e ↦ c | ok c' ↦ c' ]

-- `G2cron.Constructor`, with `OnProcessStart`
unfoldable pub construct_cron : {C : Type 0} → C → (C → C) → C
construct_cron new start = start new

-- `Captcha.Generate` and `Verify`: a check uses the answer up
unfoldable pub generate :
    {W : Type 0} → (W → Result (Text × Text × Text) × W) → Action W (Text × Text)
generate cap w =
    let (r, w') = cap w in
    elim r [ err e ↦ (err e, w') | ok (id, b64s, answer) ↦ (ok (id, b64s), w') ]

unfoldable pub verify_captcha :
    {W : Type 0} → (Text → Text → Bool → W → Bool × W) → Text → Text → W → Bool × W
verify_captcha verify id answer w = verify id answer true w

-- what follows the last dot of a name
unfoldable pub last_part : Text → Text → Text
last_part cur [] = cur
last_part cur (c ∷ s) =
    let fresh = last_part [] s in
    let longer = last_part (cur ++ c ∷ []) s in if c == b'.' then fresh else longer

-- `FuncName`, from the name that package runtime gives
unfoldable pub func_name : Text → Text
unfolding last_part replace_all
func_name name = replace_all (codes "-fm") [] (last_part [] name)

func_name_run : func_name (codes "github.com/a/b.(*T).Save-fm") ≡ codes "Save"
unfolding func_name
func_name_run = refl
