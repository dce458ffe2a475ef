-- ===== src/G2util/Validator/Setup.antt =====
-- g2util/validator.go: how the validator is made and asked. The package validator and its translations are
-- parameters, with validators `V` and translators `T`.
use mathlib.Core.Option
use gof.Base.{◌≡◌, inl, inr, Bool, Option, none, some, List, [], ◌∷◌, arith, Text, codes}
use gof.Fault.{Err, Done, ok, err, Action, ◌>>◌, pure, Result-cases}
use gof.G2util.Validator.{Outcome, translate_zh, valid_mobile, valid_username, valid_password}

-- What the packages do: a new validator, the translator for Chinese, the default translations, and the
-- registration of a rule under its tag, with a translation if it has one.
pub record Package (W V T : Type 0) : Type 0 where
  pub new_validate : V
  pub get_translator : T
  pub register_default_translations : V → T → Action W (Unit {0})
  pub register_validation : V → Text → (Text → Bool) → Action W (Unit {0})
  pub register_translation : V → T → Text → Text → Action W (Unit {0})
  pub struct_errors : V → Text → W → Outcome
  pub var_errors : V → Text → Text → W → Outcome

-- `Validator`
pub record Validator (V T : Type 0) : Type 0 where
  pub valid : Option V
  pub trans : Option T

abbrev pub Rule : Type 0 → Type 0
Rule W = Action W (Unit {0})

-- the loop over the rules: the first error ends it
unfoldable pub register_rules : {W : Type 0} → List (Rule W) → Rule W
register_rules [] = pure tt
register_rules (r ∷ rs) = r >> register_rules rs

module _ {W V T : Type 0} (x : Package W V T) where
  -- `validatorRegValidation`
  unfoldable pub validator_reg_validation : V → T → Text → Text → (Text → Bool) → Rule W
  validator_reg_validation v t tag text fn = do
    x.register_validation v tag fn
    x.register_translation v t tag text

  -- `customValidations`
  unfoldable pub rules : V → T → List (Rule W)
  unfolding validator_reg_validation valid_mobile valid_username valid_password
  rules v t =
      validator_reg_validation v t (codes "mobile") (codes "{0}手机号码错误") valid_mobile
      ∷ validator_reg_validation v t (codes "username") (codes "{0}(用户账号为数字或字母组合;并且长度为[5-15])")
          valid_username
      ∷ validator_reg_validation v t (codes "password")
          (codes "{0}(密码必须同时包含大小写字母和数字;并且长度为[8-24];不能包含空格)") valid_password
      ∷ []

  -- `initialize`: the error, and the validator, which is set before the rules are registered
  unfoldable pub initialize : Validator V T → W → (Done × Validator V T) × W
  unfolding register_rules rules
  initialize v w =
      let (r, w1) = x.register_default_translations x.new_validate x.get_translator w in
      elim r [
        | err e ↦ ((err e, v), w1)
        | ok _ ↦
            (let (s, w2) = register_rules (rules x.new_validate x.get_translator) w1 in
              ((s, record { valid = some x.new_validate; trans = some x.get_translator }), w2))
      ]

  -- `Constructor` and `New`; a panic is none
  unfoldable pub construct_validator : Validator V T → W → Option (Validator V T × W)
  unfolding initialize
  construct_validator v w =
      let ((r, v'), w') = initialize v w in elim r [ err e ↦ none | ok _ ↦ some (v', w') ]

  -- `ValidAndTranslateZh` and `ValidVarWithTransZh` of a value by its name; without a validator they panic
  unfoldable pub valid_and_translate_zh : Validator V T → Text → W → Option (Option Err)
  unfolding translate_zh
  valid_and_translate_zh v s w = Option.map (λ k. translate_zh (x.struct_errors k s w)) v.valid

  unfoldable pub valid_var_with_trans_zh : Validator V T → Text → Text → W → Option (Option Err)
  unfolding translate_zh
  valid_var_with_trans_zh v val tag w =
      Option.map (λ k. translate_zh (x.var_errors k val tag w)) v.valid

  -- A validator that was made is complete: it has its validator and its translator.
  construct_validator_complete :
      (v u : Validator V T) (w w' : W)
      → construct_validator v w ≡ some (u, w')
      → u ≡ record { valid = some x.new_validate; trans = some x.get_translator }
  construct_validator_complete v u w w' h =
      elim (Result-cases (x.register_default_translations x.new_validate x.get_translator w).0) [
        | inr (e, p) ↦ (unfold construct_validator initialize in ground (arith, h, p))
        | inl (o, p) ↦
            elim (Result-cases
              (register_rules (rules x.new_validate x.get_translator)
                (x.register_default_translations x.new_validate x.get_translator w).1).0) [
                  | inr (e, q) ↦ (unfold construct_validator initialize in ground (arith, h, p, q))
                  | inl (o, q) ↦ (unfold construct_validator initialize in ground (arith, h, p, q))
                ]
      ]
