-- ===== src/Translator/Pcode/Stream.antt =====
-- oplt/stran/OT_PCODE.CPP, TPcode: the header of an instruction in the stream of parse code. Its
-- first byte has the instruction's code, and in its two high bits the size of the source offset
-- that follows.
use opl_dev.Prelude.{
  ℕ, zero, suc, ◌+◌, ◌*◌, ◌/◌, ◌%◌, ◌<◌, List, [], ◌∷◌, ◌++◌, ◌≡◌, refl, Bool, true, false, ◌&&◌,
  leb, ◌==◌, ==_iff, if◌then◌else◌, Bool-cases, inl, inr, arith,
}
use opl_dev.Prelude.Outcome.{Outcome, ok, leave, ◌>>=◌, end_of_stream}
use opl_dev.Runtime.Arith.{bits_or, bits_and}
use opl_dev.Prelude.Below.{all_below, all_below_lem}

-- WriteUint8L, WriteInt16L and WriteUint32L: the low bytes, the lowest first
abbrev pub bytes : ℕ → ℕ → List ℕ
bytes zero n = []
bytes (suc k) n = n % 0x100 ∷ bytes k (n / 0x100)

-- ReadUint8L, ReadUint16L and ReadUint32L: what is read, and what is left
abbrev pub read_bytes : ℕ → List ℕ → Outcome (ℕ × List ℕ)
read_bytes zero bs = ok (0, bs)
read_bytes (suc k) [] = leave end_of_stream
read_bytes (suc k) (b ∷ bs) = read_bytes k bs >>= λ r. ok (b + 0x100 * r.0, r.1)

-- `TPcode::ExternalizeL`
unfoldable pub externalize : ℕ → ℕ → List ℕ
externalize code offset =
    if leb offset 0xff
    then bits_or 8 code 0 % 0x100 ∷ bytes 1 offset
    else (if leb offset 0xffff
        then bits_or 8 code 0x40 % 0x100 ∷ bytes 2 offset
        else bits_or 8 code 0x80 % 0x100 ∷ bytes 4 offset)

-- The switch of InternalizeL: another size leaves the offset as it was.
abbrev pub read_offset : ℕ → ℕ → List ℕ → Outcome (ℕ × List ℕ)
read_offset size old bs =
    if size == 0
    then read_bytes 1 bs
    else (if size == 0x40
        then read_bytes 2 bs
        else (if size == 0x80 then read_bytes 4 bs else ok (old, bs)))

-- `TPcode::InternalizeL`, over the offset that the object has
unfoldable pub internalize : ℕ → List ℕ → Outcome (ℕ × ℕ × List ℕ)
internalize old bs = do
  (code, bs₁) ← read_bytes 1 bs
  (offset, bs₂) ← read_offset (bits_and 8 code 0xc0) old bs₁
  ok (bits_and 8 code 0x3f, offset, bs₂)

-- Codes are below 0x40: the two halves of the first byte do not mix.
abbrev apart : ℕ → ℕ → Bool
apart flag code =
    let b = bits_or 8 code flag % 0x100 + 0x100 * 0 in
    (bits_and 8 b 0x3f == code) && (bits_and 8 b 0xc0 == flag)

all_apart :
    (all_below (apart 0) 64 ≡ true)
    × (all_below (apart 0x40) 64 ≡ true)
    × (all_below (apart 0x80) 64 ≡ true)
all_apart = (refl, refl, refl)

both : (a b : Bool) → (a && b) ≡ true → (a ≡ true) × (b ≡ true)
both true b h = (refl, h)
both false b h = absurd cc

split_byte :
    (flag code : ℕ)
    → all_below (apart flag) 64 ≡ true
    → code < 64
    → (bits_and 8 (bits_or 8 code flag % 0x100 + 0x100 * 0) 0x3f ≡ code)
      × (bits_and 8 (bits_or 8 code flag % 0x100 + 0x100 * 0) 0xc0 ≡ flag)
split_byte flag code h lt =
    let b = bits_or 8 code flag % 0x100 + 0x100 * 0 in
    let (e, f) =
      both (bits_and 8 b 0x3f == code) (bits_and 8 b 0xc0 == flag)
        (all_below_lem (apart flag) 64 h code lt) in
    ((==_iff (bits_and 8 b 0x3f) code).0 e, (==_iff (bits_and 8 b 0xc0) flag).0 f)

-- A header that was written is read back, and what follows it in the stream is left: for every
-- code below 0x40, and every source offset of 32 bits, in whichever size it is written.
pub internalize-externalize :
    (code offset old : ℕ) (rest : List ℕ)
    → code < 64
    → offset < 0x1_0000_0000
    → internalize old (externalize code offset ++ rest) ≡ ok (code, offset, rest)
unfolding internalize externalize
internalize-externalize code offset old rest lt big = elim (Bool-cases (leb offset 0xff)) [
  | inl e ↦
      (let s = split_byte 0 code all_apart.0 lt in
        let n : offset % 0x100 + 0x100 * 0 ≡ offset = ground arith in rw (e, s.0, s.1, n) refl)
  | inr e ↦ elim (Bool-cases (leb offset 0xffff)) [
    | inl f ↦
        (let s = split_byte 0x40 code all_apart.1 lt in
          let n : offset % 0x100 + 0x100 * (offset / 0x100 % 0x100 + 0x100 * 0) ≡ offset =
            ground arith in
          rw (e, f, s.0, s.1, n) refl)
    | inr f ↦
        (let s = split_byte 0x80 code all_apart.2 lt in
          let n : offset % 0x100
                + 0x100
                  * (offset / 0x100 % 0x100
                      + 0x100
                        * (offset / 0x100 / 0x100 % 0x100
                            + 0x100 * (offset / 0x100 / 0x100 / 0x100 % 0x100 + 0x100 * 0)))
              ≡ offset =
            omega (arith, big) in
          rw (e, f, s.0, s.1, n) refl)
  ]
]
