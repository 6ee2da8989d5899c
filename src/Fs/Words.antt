-- ===== src/Fs/Words.antt =====
-- The words of a block, as `a[bn]` reads and writes them.
use os_playground.Base.{ℕ, ◌+◌, ◌*◌, ◌/◌, ◌%◌, ◌^◌, ◌<◌, ◌≡◌, ◌≢◌, arith}
use os_playground.Bio.{Block}
use os_playground.Str.{store32}
use os_playground.Args.{word}
use os_playground.Fs.{get_word, put_word}

module _ (p a : ℕ) (d : Block) where
  byte0 : store32 p a d p ≡ a % 256
  byte0 = ground arith

  byte1 : store32 p a d (p + 1) ≡ a / 2 ^ 8 % 256
  byte1 = ground arith

  byte2 : store32 p a d (p + 2) ≡ a / 2 ^ 16 % 256
  byte2 = ground arith

  byte3 : store32 p a d (p + 3) ≡ a / 2 ^ 24 % 256
  byte3 = ground arith

  pub word-store32 : a < 2 ^ 32 → word (store32 p a d) p ≡ a
  word-store32 l = omega (arith, byte0, byte1, byte2, byte3)

  pub store32_far : (q : ℕ) → q ≢ p → q ≢ p + 1 → q ≢ p + 2 → q ≢ p + 3 → store32 p a d q ≡ d q
  store32_far q n0 n1 n2 n3 = ground arith

  pub store32-bytes : ((i : ℕ) → d i < 256) → (i : ℕ) → store32 p a d i < 256
  store32-bytes h i = ground (arith, h i)

pub word_of :
    (d e : Block) (p : ℕ)
    → d p ≡ e p
    → d (p + 1) ≡ e (p + 1)
    → d (p + 2) ≡ e (p + 2)
    → d (p + 3) ≡ e (p + 3)
    → word d p ≡ word e p
word_of d e p h0 h1 h2 h3 = omega arith

pub get_word-put_word : (d : Block) (j a : ℕ) → a < 2 ^ 32 → get_word (put_word d j a) j ≡ a
get_word-put_word d j a l = word-store32 (4 * j) a d l

pub get_word-put_word_ne :
    (d : Block) (i j a : ℕ) → i ≢ j → get_word (put_word d j a) i ≡ get_word d i
get_word-put_word_ne d i j a ne =
    word_of (put_word d j a) d (4 * i) (far (4 * i) 0 (omega arith) (omega arith))
      (far (4 * i + 1) 1 (omega arith) (omega arith))
      (far (4 * i + 2) 2 (omega arith) (omega arith))
      (far (4 * i + 3) 3 (omega arith) (omega arith))
  where
    far : (q r : ℕ) → q ≡ 4 * i + r → r < 4 → put_word d j a q ≡ d q
    far q r e l =
        store32_far (4 * j) a d q (λ z. omega arith) (λ z. omega arith) (λ z. omega arith)
          (λ z. omega arith)

pub get_word_zero : (d : Block) (j : ℕ) → ((i : ℕ) → d i ≡ 0) → get_word d j ≡ 0
get_word_zero d j h = omega (arith, h (4 * j), h (4 * j + 1), h (4 * j + 2), h (4 * j + 3))
