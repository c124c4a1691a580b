-- ===== src/Event/Uuid.antt =====
-- src/event/src/candidate_event.cpp: `UuidV7Generator`, the ids of candidate events. A text is the
-- list of its characters' codes. The system clock and the entropy source are inputs of a call: the
-- clock's milliseconds since the Unix epoch (none before it) and what the two draws return (none
-- where the source throws). `format` is told the index of the first byte.
pub mod Text
pub mod Distinct
use Prim.Native.String.{char_at}
use paper_breakage_analysis.Base.{
  ℕ, suc, ◌+◌, ◌-◌, ◌/◌, ◌%◌, ◌^◌, List, [], ◌∷◌, ◌++◌, String, Bool, true, false, not, ◌||◌,
  Option, none, some, Result, success, failure, Error, critical, make_error, detail, text, ltb,
  ◌==◌, if◌then◌else◌,
}

abbrev pub random_high_mask : ℕ
random_high_mask = 4095

abbrev pub random_low_mask : ℕ
random_low_mask = 2 ^ 62 - 1

abbrev pub uuid_timestamp_mask : ℕ
uuid_timestamp_mask = 2 ^ 48 - 1

pub record UuidV7Generator : Type 0 where
  pub last_timestamp_ms : ℕ
  pub random_high : ℕ
  pub random_low : ℕ
  pub initialized : Bool

pub record IdInput : Type 0 where
  pub wall_clock_ms : Option ℕ
  pub first_draw : Option ℕ
  pub second_draw : Option ℕ

abbrev pub new_generator : UuidV7Generator
new_generator = record {
  last_timestamp_ms = 0;
  random_high = 0;
  random_low = 0;
  initialized = false;
}

unfoldable pub id_generation_error : String → Error
id_generation_error reason =
    record (make_error "SYS_ID_GENERATION_FAILED" critical "event" "event.candidate.generateId"
      true) { details = detail "reason" (text reason) ∷ [] }

-- The carry goes from the low random bits to the high ones and on to the timestamp.
unfoldable pub increment_random : UuidV7Generator → UuidV7Generator
increment_random g =
    if ltb g.random_low random_low_mask
    then record g { random_low = g.random_low + 1 }
    else if ltb g.random_high random_high_mask
    then record g { random_low = 0; random_high = g.random_high + 1 }
    else record g {
      random_low = 0;
      random_high = 0;
      last_timestamp_ms =
          if ltb g.last_timestamp_ms uuid_timestamp_mask
          then g.last_timestamp_ms + 1
          else g.last_timestamp_ms;
    }

-- The sixteen bytes. The version and variant bits stand above the bits they are joined with by `|`,
-- which is a sum then.
unfoldable pub id_bytes : ℕ → ℕ → ℕ → List ℕ
id_bytes t high low =
    t / 2 ^ 40 % 256
    ∷ t / 2 ^ 32 % 256
    ∷ t / 2 ^ 24 % 256
    ∷ t / 2 ^ 16 % 256
    ∷ t / 2 ^ 8 % 256
    ∷ t % 256
    ∷ (112 + high / 2 ^ 8) % 256
    ∷ high % 256
    ∷ (128 + low / 2 ^ 56) % 256
    ∷ low / 2 ^ 48 % 256
    ∷ low / 2 ^ 40 % 256
    ∷ low / 2 ^ 32 % 256
    ∷ low / 2 ^ 24 % 256
    ∷ low / 2 ^ 16 % 256
    ∷ low / 2 ^ 8 % 256
    ∷ low % 256
    ∷ []

abbrev pub hex_digit : ℕ → ℕ
hex_digit d = if ltb d 10 then 48 + d else 87 + d

abbrev pub has_dash : ℕ → Bool
has_dash index = index == 4 || index == 6 || index == 8 || index == 10

unfoldable pub format : ℕ → List ℕ → List ℕ
format index [] = []
format index (b ∷ bs) =
    (if has_dash index then 45 ∷ [] else [])
    ++ (hex_digit (b / 16) ∷ hex_digit (b % 16) ∷ format (suc index) bs)

-- "EVT-" and the digits.
unfoldable pub id_text : UuidV7Generator → List ℕ
id_text g = 69 ∷ 86 ∷ 84 ∷ 45 ∷ format 0 (id_bytes g.last_timestamp_ms g.random_high g.random_low)

-- A draw that fails leaves what was assigned before it.
unfoldable pub draw : UuidV7Generator → Option ℕ → Option ℕ → UuidV7Generator × Result (List ℕ)
draw g none second = (g, failure (id_generation_error "entropy-source-failed"))
draw g (some a) none =
    (record g { random_high = a % 2 ^ 12 }, failure (id_generation_error "entropy-source-failed"))
draw g (some a) (some b) =
    let g' = record g { random_high = a % 2 ^ 12; random_low = b % 2 ^ 62; initialized = true } in
    (g', success (id_text g'))

unfoldable pub next_at : UuidV7Generator → ℕ → IdInput → UuidV7Generator × Result (List ℕ)
next_at g now i =
    if ltb uuid_timestamp_mask now
    then (g, failure (id_generation_error "wall-clock-out-of-range"))
    else if not g.initialized || ltb g.last_timestamp_ms now
    then draw (record g { last_timestamp_ms = now }) i.first_draw i.second_draw
    else (increment_random g, success (id_text (increment_random g)))

unfoldable pub next_when : UuidV7Generator → Option ℕ → IdInput → UuidV7Generator × Result (List ℕ)
next_when g none i = (g, failure (id_generation_error "wall-clock-before-unix-epoch"))
next_when g (some now) i = next_at g now i

unfoldable pub next : UuidV7Generator → IdInput → UuidV7Generator × Result (List ℕ)
next g i = next_when g i.wall_clock_ms i

-- The characters from the dash to the letter f: those of an id are among them.
abbrev letters : String
letters = "-./0123456789:;<=>?@ABCDEFGHIJKLMNOPQRSTUVWXYZ[|]^_`abcdef"

-- A text as a string.
pub as_string : List ℕ → String
as_string [] = ""
as_string (c ∷ cs) = String.◌∷◌ (char_at letters (c - 45)) (as_string cs)
