-- ===== src/Proto/Frame/Keys.antt =====
-- crates/coldbore-proto/src/frame.rs: what the texts `message_id` and `routing_key` tell apart.
use Prim.Native.String.{◌++◌ as ◌<>◌}
use text.Mathlib.TextLemmas.{cons-append, append_cancel_left}
use cold_bore.Base.{ℕ, ◌<◌, ◌^◌, ◌≡◌, refl, ap, sym, ◌∙◌, ◌↔◌, arith, true, String}
use cold_bore.Base.Decimal.{print, take_number, take_number-print, stops}
use cold_bore.Proto.Frame.{Frame, routing_key, message_id}

-- The integers of a frame within their types.
abbrev pub InRange : Frame → Type 0
InRange f = (f.pad < 2 ^ 16) × (f.well < 2 ^ 16) × (f.epoch < 2 ^ 64) × (f.seq < 2 ^ 64)

-- The identity of a frame in the pipeline.
abbrev pub SameIdentity : Frame → Frame → Type 0
SameIdentity f g = (f.pad ≡ g.pad) × (f.well ≡ g.well) × (f.epoch ≡ g.epoch) × (f.seq ≡ g.seq)

print_split :
    (a b : ℕ) (s t : String)
    → a < 2 ^ 64
    → b < 2 ^ 64
    → stops s ≡ true
    → stops t ≡ true
    → print a <> s ≡ print b <> t
    → (a ≡ b) × (s ≡ t)
print_split a b s t ha hb hs ht h = (ap (λ p. p.0) same, ap (λ p. p.1) same)
  where
    same : Path (ℕ × String) (a, s) (b, t)
    same = sym (take_number-print a s ha hs) ∙ ap (take_number 0) h ∙ take_number-print b t hb ht

print-injective : (a b : ℕ) → a < 2 ^ 64 → b < 2 ^ 64 → print a ≡ print b → a ≡ b
print-injective a b ha hb h = (print_split a b "" "" ha hb refl refl (ap (λ s. s <> "") h)).0

-- A number that is followed by a dash.
dashed :
    (a b : ℕ) (s t : String)
    → a < 2 ^ 64
    → b < 2 ^ 64
    → print a <> "-" <> s ≡ print b <> "-" <> t
    → (a ≡ b) × (s ≡ t)
dashed a b s t ha hb h =
    let (same, rest) =
      print_split a b ("-" <> s) ("-" <> t) ha hb (ap stops (cons-append "-" "" s))
        (ap stops (cons-append "-" "" t)) h in
    (same, append_cancel_left "-" s t rest)

message_id_identity :
    (f g : Frame) → InRange f → InRange g → message_id f ≡ message_id g → SameIdentity f g
unfolding message_id
message_id_identity f g (fp, fw, fe, fs) (gp, gw, ge, gs) h =
    let (pads, h1) = dashed f.pad g.pad _ _ (omega arith) (omega arith) h in
    let (wells, h2) = dashed f.well g.well _ _ (omega arith) (omega arith) h1 in
    let (epochs, h3) = dashed f.epoch g.epoch _ _ fe ge h2 in
    (pads, wells, epochs, print-injective f.seq g.seq fs gs h3)

routing_key_well :
    (f g : Frame)
    → InRange f
    → InRange g
    → routing_key f ≡ routing_key g
    → (f.pad ≡ g.pad) × (f.well ≡ g.well)
unfolding routing_key
routing_key_well f g (fp, fw, _, _) (gp, gw, _, _) h =
    let (pads, h1) =
      print_split f.pad g.pad (".well" <> print f.well) (".well" <> print g.well) (omega arith)
        (omega arith) (ap stops (cons-append "." "well" (print f.well)))
        (ap stops (cons-append "." "well" (print g.well)))
        (append_cancel_left "frames.pad" _ _ h) in
    (
      pads,
      print-injective f.well g.well (omega arith) (omega arith)
          (append_cancel_left ".well" (print f.well) (print g.well) h1),
    )

-- Two frames whose integers are within their types have one `message_id` exactly if they have one
-- identity (pad, well, epoch, seq), and one routing key exactly if they are of one well. The documents
-- leave the epoch out of the `message_id`; the code has it.
pub message_id-SameIdentity :
    (f g : Frame)
    → InRange f
    → InRange g
    → ((message_id f ≡ message_id g) ↔ SameIdentity f g)
      × ((routing_key f ≡ routing_key g) ↔ ((f.pad ≡ g.pad) × (f.well ≡ g.well)))
unfolding message_id routing_key
message_id-SameIdentity f g hf hg =
    ((message_id_identity f g hf hg, λ s. cc), (routing_key_well f g hf hg, λ s. cc))
