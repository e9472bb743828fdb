-- ===== src/Validator/Registry.antt =====
-- The registration of the validators in utils/validator.go: the SDK's own instance and the engine
-- of the web framework, each a table from tags to functions. Which tags the library takes is a
-- parameter, and so is whether the engine is one of the library's.
use prompt_sdk.Prelude.{
  ◌≡◌, Bool, true, false, Option, none, some, List, [], ◌∷◌, Text, codes, text_eq, text_eq_refl,
  Result, ok, err, ◌>>=◌, if◌then◌else◌, arith, Unicode,
}
use prompt_sdk.Validator.{matriculation_number_validator, tum_id_validator}

abbrev pub Validation : Type 0
Validation = Text → Bool

abbrev pub Table : Type 0
Table = List (Text × Validation)

pub record Registries : Type 0 where
  pub own : Table  -- `validate`
  pub gin : Table  -- the engine of gin's binding

pub data RegistrationFault : Type 0 where
  refused_tag : Text → RegistrationFault

unfoldable pub validation_of : Text → Table → Option Validation
validation_of tag [] = none
validation_of tag ((t, f) ∷ m) = if text_eq t tag then some f else validation_of tag m

module _ (u : Unicode) (takes : Text → Bool) (is_validator : Bool) where
  -- `RegisterValidation` of the library: a later function for a tag hides an earlier one
  unfoldable pub register : Text → Validation → Table → Result RegistrationFault Table
  register tag f m = if takes tag then ok ((tag, f) ∷ m) else err (refused_tag tag)

  unfoldable pub register_both : Table → Result RegistrationFault Table
  unfolding register
  register_both m =
      register (codes "matriculationNumber") (matriculation_number_validator u) m
      >>= (λ m'. register (codes "universityLogin") tum_id_validator m')

  -- `init`, where an error is a panic
  unfoldable pub init_validators : Result RegistrationFault Registries
  unfolding register_both
  init_validators = register_both [] >>= (λ own.
      (if is_validator then register_both [] else ok [])
      >>= (λ gin. ok (record { own = own; gin = gin })))

  -- `RegisterValidation` of the SDK
  unfoldable pub register_validation :
      Text → Validation → Registries → Result RegistrationFault Registries
  unfolding register
  register_validation tag f r = register tag f r.own >>= (λ own. ok (record r { own = own }))

  registered :
      (tag : Text) (f : Validation) (r r' : Registries)
      → register_validation tag f r ≡ ok r'
      → record r { own = (tag, f) ∷ r.own } ≡ r'
  unfolding register_validation
  registered tag f r r' done = ground arith

  started_gin :
      (r : Registries)
      → is_validator ≡ true
      → init_validators ≡ ok r
      → r.gin
        ≡ (codes "universityLogin", tum_id_validator)
          ∷ (codes "matriculationNumber", matriculation_number_validator u)
          ∷ []
  unfolding init_validators
  started_gin r engine started = ground arith

  validation_of_head :
      (tag : Text) (f : Validation) (m : Table) → validation_of tag ((tag, f) ∷ m) ≡ some f
  unfolding validation_of
  validation_of_head tag f m = rw (text_eq_refl tag)

  -- A validator that a service registers is the one of its tag for ValidateStruct, whose other
  -- tags keep theirs; the binding of gin is not changed by it, and where the start of the SDK has
  -- registered the validator of TUM logins there, it goes on to use that one.
  pub register_validation-gin :
      (tag other : Text) (f : Validation) (r r' : Registries)
      → is_validator ≡ true
      → init_validators ≡ ok r
      → register_validation tag f r ≡ ok r'
      → text_eq tag other ≡ false
      → (validation_of tag r'.own ≡ some f)
        × (validation_of other r'.own ≡ validation_of other r.own)
        × (validation_of (codes "universityLogin") r'.gin ≡ some tum_id_validator)
  unfolding validation_of
  register_validation-gin tag other f r r' engine started done away =
      rw (← registered tag f r r' done) (
        validation_of_head tag f r.own,
        rw away,
        rw (started_gin r engine started) (
            validation_of_head (codes "universityLogin") tum_id_validator
              ((codes "matriculationNumber", matriculation_number_validator u) ∷ [])),
      )
