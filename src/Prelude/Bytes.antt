-- ===== src/Prelude/Bytes.antt =====
-- Streams of bytes, and the little-endian words in them.
use opl_dev.Prelude.{
  ℕ, zero, suc, ◌+◌, ◌*◌, ◌/◌, ◌%◌, ◌<◌, ◌≤◌, List, [], ◌∷◌, ◌++◌, ◌≡◌, ◌≢◌, refl, ap, some, length,
  get_elem?, arith,
}
use opl_dev.Prelude.Outcome.{Outcome, ok, ◌>>=◌, checked}

-- A byte of a stream is overwritten; one behind its end is not there.
unfoldable pub put_byte : ℕ → ℕ → List ℕ → List ℕ
put_byte n v [] = []
put_byte zero v (b ∷ bs) = v ∷ bs
put_byte (suc n) v (b ∷ bs) = b ∷ put_byte n v bs

-- The bytes of a number's low 16 bits, and of its low 32 bits.
abbrev pub bytes_of_word : ℕ → List ℕ
bytes_of_word v = v % 256 ∷ v / 256 % 256 ∷ []

abbrev pub long_bytes : ℕ → List ℕ
long_bytes v = v % 256 ∷ v / 256 % 256 ∷ v / 65536 % 256 ∷ v / 16777216 % 256 ∷ []

unfoldable pub put_word_at : ℕ → ℕ → List ℕ → List ℕ
put_word_at n v bs = put_byte (n + 1) (v / 256 % 256) (put_byte n (v % 256) bs)

unfoldable pub word_at : List ℕ → ℕ → Outcome ℕ
word_at bs n = do
  low ← checked (get_elem? bs n)
  high ← checked (get_elem? bs (n + 1))
  ok (low + 256 * high)

pub length-put_byte : (n v : ℕ) (bs : List ℕ) → length (put_byte n v bs) ≡ length bs
unfolding put_byte
length-put_byte n v [] = refl
length-put_byte zero v (b ∷ bs) = refl
length-put_byte (suc n) v (b ∷ bs) = rw (length-put_byte n v bs)

pub length-put_word_at : (n v : ℕ) (bs : List ℕ) → length (put_word_at n v bs) ≡ length bs
unfolding put_word_at
length-put_word_at n v bs = rw (length-put_byte, length-put_byte)

pub get_elem?-put_byte :
    (n v : ℕ) (bs : List ℕ) → n < length bs → get_elem? (put_byte n v bs) n ≡ some v
unfolding put_byte
get_elem?-put_byte n v [] h = absurd (omega (arith, h))
get_elem?-put_byte zero v (b ∷ bs) h = refl
get_elem?-put_byte (suc n) v (b ∷ bs) h = get_elem?-put_byte n v bs (omega (arith, h))

pub get_elem?-put_byte_other :
    (n v k : ℕ) (bs : List ℕ) → k ≢ n → get_elem? (put_byte n v bs) k ≡ get_elem? bs k
unfolding put_byte
get_elem?-put_byte_other n v k [] h = refl
get_elem?-put_byte_other zero v zero (b ∷ bs) h = absurd (h refl)
get_elem?-put_byte_other zero v (suc k) (b ∷ bs) h = refl
get_elem?-put_byte_other (suc n) v zero (b ∷ bs) h = refl
get_elem?-put_byte_other (suc n) v (suc k) (b ∷ bs) h =
    get_elem?-put_byte_other n v k bs λ e. h (ap suc e)

-- Bytes outside the word stay.
pub get_elem?-put_word_at :
    (n v k : ℕ) (bs : List ℕ)
    → k ≢ n
    → k ≢ n + 1
    → get_elem? (put_word_at n v bs) k ≡ get_elem? bs k
unfolding put_word_at
get_elem?-put_word_at n v k bs h₀ h₁ =
    rw (get_elem?-put_byte_other (n + 1) _ k _ h₁, get_elem?-put_byte_other n _ k bs h₀)

pub word_at-put_word_at :
    (n v : ℕ) (bs : List ℕ) → n + 2 ≤ length bs → word_at (put_word_at n v bs) n ≡ ok (v % 65536)
unfolding put_word_at word_at
word_at-put_word_at n v bs h =
    let low = get_elem?-put_byte n (v % 256) bs (omega (arith, h)) in
    let kept =
      get_elem?-put_byte_other (n + 1) (v / 256 % 256) n (put_byte n (v % 256) bs)
        (λ (e : n ≡ n + 1). absurd (omega (arith, e))) in
    let inside : n + 1 < length (put_byte n (v % 256) bs) = rw length-put_byte (omega (arith, h)) in
    let high = get_elem?-put_byte (n + 1) (v / 256 % 256) (put_byte n (v % 256) bs) inside in
    rw (kept, low, checked, high, checked, ◌>>=◌, ◌>>=◌) (ap ok (ground arith))

-- A word is read from the same bytes.
pub word_at_same :
    (bs cs : List ℕ) (n : ℕ)
    → get_elem? bs n ≡ get_elem? cs n
    → get_elem? bs (n + 1) ≡ get_elem? cs (n + 1)
    → word_at bs n ≡ word_at cs n
unfolding word_at
word_at_same bs cs n e₀ e₁ = rw (e₀, e₁)

pub get_elem?-append :
    (xs ys : List ℕ) (k : ℕ) → k < length xs → get_elem? (xs ++ ys) k ≡ get_elem? xs k
get_elem?-append [] ys k h = absurd (omega (arith, h))
get_elem?-append (x ∷ xs) ys zero h = refl
get_elem?-append (x ∷ xs) ys (suc k) h = get_elem?-append xs ys k (omega (arith, h))

pub get_elem?-append_right :
    (xs ys : List ℕ) (k : ℕ) → get_elem? (xs ++ ys) (length xs + k) ≡ get_elem? ys k
get_elem?-append_right [] ys k = let e : 0 + k ≡ k = omega arith in rw e
get_elem?-append_right (x ∷ xs) ys k =
    let e : suc (length xs) + k ≡ suc (length xs + k) = omega arith in
    rw e (get_elem?-append_right xs ys k)
