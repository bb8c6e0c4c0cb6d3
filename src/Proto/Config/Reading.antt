-- ===== src/Proto/Config/Reading.antt =====
-- crates/coldbore-proto/src/config.rs: which variable an error is about, and what is read otherwise.
use cold_bore.Base.{
  arith, ◌≡◌, refl, ap, ◌∙◌, String, Option, none, some, List, [], ◌∷◌, ◌++◌, Result, ok, err,
  ◌>>=◌,
}
use cold_bore.Base.Parse.{trim}
use cold_bore.Proto.Config.{Env, ConfigError, invalid, env_parse}

-- Why a text is refused, if it is.
abbrev refusal {ℓ} : {T : Type ℓ} → Result T String → Option String
refusal (ok _) = none
refusal (err reason) = some reason

-- A variable, and the reason for which its trimmed value is refused.
abbrev pub Check : Type 0
Check = String × (String → Option String)

abbrev pub check {ℓ} : {T : Type ℓ} → String → (String → Result T String) → Check
check var from_str = (var, λ s. refusal (from_str s))

-- The error about one variable: it is set, and its trimmed value is refused.
abbrev pub complaint : Env → Check → Option ConfigError
complaint env (var, refuses) = elim (env var) [
  | none ↦ none
  | some raw ↦ elim (refuses (trim raw)) [
    | none ↦ none
    | some reason ↦ some (invalid var raw reason)
  ]
]

abbrev pub or_else : Option ConfigError → Option ConfigError → Option ConfigError
or_else (some e) rest = some e
or_else none rest = rest

-- The error about the first variable of a list that has one.
abbrev pub first_complaint : Env → List Check → Option ConfigError
first_complaint env [] = none
first_complaint env (c ∷ cs) = or_else (complaint env c) (first_complaint env cs)

pub first_complaint-append :
    (env : Env) (cs ds : List Check)
    → first_complaint env (cs ++ ds) ≡ or_else (first_complaint env cs) (first_complaint env ds)
first_complaint-append env [] ds = refl
first_complaint-append env (c ∷ cs) ds =
    ap (or_else (complaint env c)) (first_complaint-append env cs ds)
    ∙ or_else_assoc (complaint env c) (first_complaint env cs) (first_complaint env ds)
  where
    or_else_assoc : (x y z : Option ConfigError) → or_else x (or_else y z) ≡ or_else (or_else x y) z
    or_else_assoc (some e) y z = refl
    or_else_assoc none y z = refl

-- The variable's value, where it is set and not refused, and else the default.
abbrev pub value_or {ℓ} : {T : Type ℓ} → (String → Result T String) → Env → String → T → T
value_or from_str env var default = elim (env var) [
  | none ↦ default
  | some raw ↦ elim (from_str (trim raw)) [ ok x ↦ x | err _ ↦ default ]
]

-- An error, if there is one, and else the value.
abbrev pub judge {ℓ} : {T : Type ℓ} → Option ConfigError → T → Result T ConfigError
judge (some e) x = err e
judge none x = ok x

env_parse-judge {ℓ} :
    {T : Type ℓ} (from_str : String → Result T String) (env : Env) (var : String) (default : T)
    → env_parse from_str env var default
      ≡ judge (complaint env (check var from_str)) (value_or from_str env var default)
unfolding env_parse
env_parse-judge from_str env var default = ground arith

pub judge-bind {ℓ κ} :
    {T : Type ℓ} {U : Type κ} (e : Option ConfigError) (x : T) (k : T → Result U ConfigError)
    (o : Option ConfigError) (y : U)
    → k x ≡ judge o y
    → (judge e x >>= k) ≡ judge (or_else e o) y
judge-bind (some e) x k o y h = refl
judge-bind none x k o y h = h

-- Reading one more variable.
pub then_parse {ℓ κ} :
    {T : Type ℓ} {U : Type κ} (from_str : String → Result T String) (env : Env) (var : String)
    (default : T) (k : T → Result U ConfigError) (o : Option ConfigError) (y : U)
    → k (value_or from_str env var default) ≡ judge o y
    → (env_parse from_str env var default >>= k)
      ≡ judge (or_else (complaint env (check var from_str)) o) y
then_parse from_str env var default k o y h =
    ap (λ m. m >>= k) (env_parse-judge from_str env var default)
    ∙ judge-bind (complaint env (check var from_str)) (value_or from_str env var default) k o y h
