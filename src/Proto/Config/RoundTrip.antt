-- ===== src/Proto/Config/RoundTrip.antt =====
-- crates/coldbore-proto/src/config.rs: a configuration that is written to the environment is read back.
use cold_bore.Base.{
  ℕ, ◌≡◌, refl, ◌≤◌, arith, String, none, some, List, [], ◌∷◌, ok, Bool, true, false, if◌then◌else◌,
  Bool-cases, inl, inr,
}
use Prim.Native.String.{◌++◌ as ◌<>◌}
use text.Mathlib.Text.{◌==◌ as text_eq}
use text.Mathlib.TextEquality.{eq_iff}
use cold_bore.Base.Decimal.{print, print-all_digits}
use cold_bore.Base.Parse.{
  trim, strip_prefix, strip_prefix-append, solid, trim-solid, solid-append, all_digits-solid,
  parse_uint-print, trim-print,
}
use cold_bore.Proto.Config.{
  Std, Env, IngestConfig, Mode, classic, stream, as_str, StreamFrom, first, next, offset, max_u16,
  max_u64, mode_from_str, stream_from_str, env_parse, uint, bool, ingest_from_env, common_from_env,
  env_string,
}

abbrev stream_from_text : StreamFrom → String
stream_from_text first = "first"
stream_from_text next = "next"
stream_from_text (offset n) = "offset:" <> print n

offset-ne :
    (n : ℕ) (t : String)
    → strip_prefix "offset:" t ≡ none
    → text_eq ("offset:" <> print n) t ≡ false
offset-ne n t h = elim (Bool-cases (text_eq ("offset:" <> print n) t)) [
  | inl p ↦
      absurd
        (cc (h, (eq_iff ("offset:" <> print n) t).0 p, strip_prefix-append "offset:" (print n)))
  | inr p ↦ p
]

abbrev pub of_list : List (String × String) → Env
of_list [] var = none
of_list ((key, value) ∷ rest) var = if text_eq key var then some value else of_list rest var

abbrev bool_text : Bool → String
bool_text true = "true"
bool_text false = "false"

-- Every variable of an ingest, with the values of a configuration.
abbrev pub written : IngestConfig → Env
written c = of_list (
    ("CB_AMQP_URL", c.common.amqp_url)
    ∷ ("CB_MODE", as_str c.common.mode)
    ∷ ("CB_METRICS_INTERVAL_MS", print c.common.metrics_interval_ms)
    ∷ ("CB_STREAM_HOST", c.common.stream_host)
    ∷ ("CB_STREAM_PORT", print c.common.stream_port)
    ∷ ("CB_STREAM_USER", c.common.stream_user)
    ∷ ("CB_STREAM_PASS", c.common.stream_pass)
    ∷ ("CB_PG_DSN", c.pg_dsn)
    ∷ ("CB_PREFETCH", print c.prefetch)
    ∷ ("CB_BATCH_MAX_FRAMES", print c.batch_max_frames)
    ∷ ("CB_BATCH_MAX_MS", print c.batch_max_ms)
    ∷ ("CB_STREAM_FROM", stream_from_text c.stream_from)
    ∷ ("CB_STREAM_FORCE_FROM", bool_text c.stream_force_from)
    ∷ [])

abbrev pub StartFits : StreamFrom → Type 0
StartFits (offset n) = n ≤ max_u64
StartFits _ = Unit

-- The numbers fit their types.
abbrev pub Fits : IngestConfig → Type 0
Fits c =
    (c.common.metrics_interval_ms ≤ max_u64)
    × (c.common.stream_port ≤ max_u16)
    × (c.prefetch ≤ max_u16)
    × (c.batch_max_frames ≤ max_u64)
    × (c.batch_max_ms ≤ max_u64)
    × StartFits c.stream_from

trim-offset : (n : ℕ) → trim ("offset:" <> print n) ≡ "offset:" <> print n
unfolding solid
trim-offset n =
    trim-solid ("offset:" <> print n)
      (solid-append "offset:" (print n) refl (all_digits-solid (print n) (print-all_digits n)))

uint-print : (max n : ℕ) → n ≤ max → max ≤ max_u64 → uint max (trim (print n)) ≡ ok n
uint-print max n h w = rw (trim-print n) (rw (parse_uint-print max n (omega arith) h))

bool-bool_text : (b : Bool) → bool (trim (bool_text b)) ≡ ok b
unfolding trim
bool-bool_text true = refl
bool-bool_text false = refl

module _ (std : Std) where
  mode_from_str-as_str : (m : Mode) → mode_from_str std (trim (as_str m)) ≡ ok m
  unfolding mode_from_str trim
  mode_from_str-as_str classic = refl
  mode_from_str-as_str stream = refl

  stream_from_str-text :
      (s : StreamFrom) → StartFits s → stream_from_str std (trim (stream_from_text s)) ≡ ok s
  unfolding stream_from_str trim strip_prefix
  stream_from_str-text first h = refl
  stream_from_str-text next h = refl
  stream_from_str-text (offset n) h = rw (trim-offset n) (
      rw (offset-ne n "first" refl) (
        rw (offset-ne n "next" refl) (
          rw (strip_prefix-append "offset:" (print n))
            (rw (parse_uint-print max_u64 n (omega arith) h)))))

  -- A configuration of the ingest whose numbers fit their types, with each variable set to the text of
  -- its field, is read back as it is: the mode by its `as_str`, an offset as `offset:N`, numbers in
  -- decimal.
  pub ingest_from_env-written : (c : IngestConfig) → Fits c → ingest_from_env std (written c) ≡ ok c
  unfolding ingest_from_env env_parse common_from_env env_string
  ingest_from_env-written c (h1, h2, h3, h4, h5, h6) = rw (
    mode_from_str-as_str c.common.mode,
    uint-print max_u64 c.common.metrics_interval_ms h1 (omega arith),
    uint-print max_u16 c.common.stream_port h2 (omega arith),
    uint-print max_u16 c.prefetch h3 (omega arith),
    uint-print max_u64 c.batch_max_frames h4 (omega arith),
    uint-print max_u64 c.batch_max_ms h5 (omega arith),
    stream_from_str-text c.stream_from h6,
    bool-bool_text c.stream_force_from,
  )
