-- ===== src/Event/Uuid/Text.antt =====
-- The text of an id of src/event/src/candidate_event.cpp.
use paper_breakage_analysis.Base.{
  ℕ, suc, ◌+◌, ◌/◌, ◌%◌, ◌^◌, ◌<◌, ◌≤◌, ◌≡◌, refl, List, [], ◌∷◌, ◌++◌, Bool, true, false,
  if◌then◌else◌, ap₂, arith, length,
}
use paper_breakage_analysis.Event.Uuid.{
  UuidV7Generator, id_bytes, hex_digit, has_dash, format, id_text, random_high_mask,
  random_low_mask, uuid_timestamp_mask,
}

-- The parts have their numbers of bits.
pub record IsValid (g : UuidV7Generator) : Type 0 where
  pub timestamp : g.last_timestamp_ms ≤ uuid_timestamp_mask
  pub high : g.random_high ≤ random_high_mask
  pub low : g.random_low ≤ random_low_mask

hex_digit-inj : (a b : ℕ) → a < 16 → b < 16 → hex_digit a ≡ hex_digit b → a ≡ b
hex_digit-inj a b ha hb e = ground arith

abbrev AllBytes : List ℕ → Type 0
AllBytes [] = Unit {0}
AllBytes (b ∷ bs) = (b < 256) × AllBytes bs

byte-inj :
    (b c : ℕ) {r s : List ℕ}
    → b < 256
    → c < 256
    → hex_digit (b / 16) ∷ hex_digit (b % 16) ∷ r ≡ hex_digit (c / 16) ∷ hex_digit (c % 16) ∷ s
    → (b ≡ c) × (r ≡ s)
byte-inj b c {r} {s} hb hc e =
    let h : hex_digit (b / 16) ≡ hex_digit (c / 16) = cc in
    let l : hex_digit (b % 16) ≡ hex_digit (c % 16) = cc in
    let q = hex_digit-inj (b / 16) (c / 16) (omega arith) (omega arith) h in
    let m = hex_digit-inj (b % 16) (c % 16) (omega arith) (omega arith) l in (omega arith, cc)

cons-inj : {x y : ℕ} {xs ys : List ℕ} → x ∷ xs ≡ y ∷ ys → (x ≡ y) × (xs ≡ ys)
cons-inj {x} {y} {xs} {ys} e = (cc, cc)

dash-inj :
    (d : Bool) {r s : List ℕ}
    → (if d then 45 ∷ [] else []) ++ r ≡ (if d then 45 ∷ [] else []) ++ s
    → r ≡ s
dash-inj true {r} {s} e = cc
dash-inj false {r} {s} e = e

format-inj :
    (i : ℕ) (bs cs : List ℕ)
    → AllBytes bs
    → AllBytes cs
    → length bs ≡ length cs
    → format i bs ≡ format i cs
    → bs ≡ cs
unfolding format
format-inj i [] [] hb hc n e = refl
format-inj i [] (c ∷ cs) hb hc n e = absurd (omega arith)
format-inj i (b ∷ bs) [] hb hc n e = absurd (omega arith)
format-inj i (b ∷ bs) (c ∷ cs) hb hc n e =
    let (q, rest) = byte-inj b c hb.0 hc.0 (dash-inj (has_dash i) e) in
    ap₂ ◌∷◌ q (format-inj (suc i) bs cs hb.1 hc.1 (omega arith) rest)

digits6 :
    (x y : ℕ)
    → x < 2 ^ 48
    → y < 2 ^ 48
    → x / 2 ^ 40 % 256 ≡ y / 2 ^ 40 % 256
    → x / 2 ^ 32 % 256 ≡ y / 2 ^ 32 % 256
    → x / 2 ^ 24 % 256 ≡ y / 2 ^ 24 % 256
    → x / 2 ^ 16 % 256 ≡ y / 2 ^ 16 % 256
    → x / 2 ^ 8 % 256 ≡ y / 2 ^ 8 % 256
    → x % 256 ≡ y % 256
    → x ≡ y
digits6 x y hx hy a b c d e f = omega arith

digits2 :
    (x y : ℕ)
    → x ≤ random_high_mask
    → y ≤ random_high_mask
    → (112 + x / 2 ^ 8) % 256 ≡ (112 + y / 2 ^ 8) % 256
    → x % 256 ≡ y % 256
    → x ≡ y
digits2 x y hx hy a b = omega arith

digits8 :
    (x y : ℕ)
    → x < 2 ^ 62
    → y < 2 ^ 62
    → (128 + x / 2 ^ 56) % 256 ≡ (128 + y / 2 ^ 56) % 256
    → x / 2 ^ 48 % 256 ≡ y / 2 ^ 48 % 256
    → x / 2 ^ 40 % 256 ≡ y / 2 ^ 40 % 256
    → x / 2 ^ 32 % 256 ≡ y / 2 ^ 32 % 256
    → x / 2 ^ 24 % 256 ≡ y / 2 ^ 24 % 256
    → x / 2 ^ 16 % 256 ≡ y / 2 ^ 16 % 256
    → x / 2 ^ 8 % 256 ≡ y / 2 ^ 8 % 256
    → x % 256 ≡ y % 256
    → x ≡ y
digits8 x y hx hy a b c d e f g h = omega arith

id_bytes-AllBytes : (t h l : ℕ) → AllBytes (id_bytes t h l)
unfolding id_bytes
id_bytes-AllBytes t h l = ground arith

-- Two generators with the same text agree on the timestamp and the random bits.
pub id_text-inj :
    (g k : UuidV7Generator)
    → IsValid g
    → IsValid k
    → id_text g ≡ id_text k
    → (g.last_timestamp_ms ≡ k.last_timestamp_ms)
      × (g.random_high ≡ k.random_high)
      × (g.random_low ≡ k.random_low)
unfolding id_text id_bytes
id_text-inj g k vg vk e =
    let same : format 0 (id_bytes g.last_timestamp_ms g.random_high g.random_low)
        ≡ format 0 (id_bytes k.last_timestamp_ms k.random_high k.random_low) =
      (cons-inj (cons-inj (cons-inj (cons-inj e).1).1).1).1 in
    let bytes =
      format-inj 0 (id_bytes g.last_timestamp_ms g.random_high g.random_low)
        (id_bytes k.last_timestamp_ms k.random_high k.random_low) (id_bytes-AllBytes _ _ _)
        (id_bytes-AllBytes _ _ _) refl same in
    let (b0, r0) = cons-inj bytes in
    let (b1, r1) = cons-inj r0 in
    let (b2, r2) = cons-inj r1 in
    let (b3, r3) = cons-inj r2 in
    let (b4, r4) = cons-inj r3 in
    let (b5, r5) = cons-inj r4 in
    let (b6, r6) = cons-inj r5 in
    let (b7, r7) = cons-inj r6 in
    let (b8, r8) = cons-inj r7 in
    let (b9, r9) = cons-inj r8 in
    let (b10, r10) = cons-inj r9 in
    let (b11, r11) = cons-inj r10 in
    let (b12, r12) = cons-inj r11 in
    let (b13, r13) = cons-inj r12 in
    let (b14, r14) = cons-inj r13 in
    let (b15, r15) = cons-inj r14 in
    (
      digits6 _ _ (omega (arith, vg.timestamp)) (omega (arith, vk.timestamp)) b0 b1 b2 b3 b4 b5,
      digits2 _ _ vg.high vk.high b6 b7,
      digits8 _ _ (omega (arith, vg.low)) (omega (arith, vk.low)) b8 b9 b10 b11 b12 b13 b14 b15,
    )
