-- ===== src/Sha256/Blocks.antt =====
-- Specification of the digest: a padded message cut into blocks of 64 bytes, taken in turn.
use mathlib.Core.List.{append_assoc, append-nil}
use fapolicyd_analyzer.Base.{
  ℕ, ◌-◌, ◌*◌, ◌%◌, ◌^◌, ◌≡◌, refl, sym, ap, ◌∙◌, List, [], ◌∷◌, ◌++◌, length, length-append,
  replicate, arith,
}
use fapolicyd_analyzer.Sha256.{first_state, big_endian, output}
use fapolicyd_analyzer.Sha256.Transform.{Words, transform}

-- Specification: the bytes of the blocks, that each block has 64, and the state after them.
unfoldable pub joined : List (List ℕ) → List ℕ
joined [] = []
joined (block ∷ blocks) = block ++ joined blocks

abbrev pub AllBlocks : List (List ℕ) → Type 0
AllBlocks [] = Unit
AllBlocks (block ∷ blocks) = (length block ≡ 64) × AllBlocks blocks

unfoldable pub chain : Words → List (List ℕ) → Words
chain s [] = s
chain s (block ∷ blocks) = chain (transform s block) blocks

-- Specification: the padding of a message of `n` bytes.
unfoldable pub padding : ℕ → List ℕ
padding n = 0x80 ∷ (replicate ((119 - n % 64) % 64) 0 ++ big_endian 8 (n * 8 % 2 ^ 64))

pub joined-append : (xs ys : List (List ℕ)) → joined (xs ++ ys) ≡ joined xs ++ joined ys
unfolding joined
joined-append [] ys = refl
joined-append (x ∷ xs) ys =
    ap (λ t. x ++ t) (joined-append xs ys) ∙ sym (append_assoc x (joined xs) (joined ys))

pub chain-append : (s : Words) (xs ys : List (List ℕ)) → chain s (xs ++ ys) ≡ chain (chain s xs) ys
unfolding chain
chain-append s [] ys = refl
chain-append s (x ∷ xs) ys = chain-append (transform s x) xs ys

pub AllBlocks-append : (xs ys : List (List ℕ)) → AllBlocks xs → AllBlocks ys → AllBlocks (xs ++ ys)
AllBlocks-append [] ys good good' = good'
AllBlocks-append (x ∷ xs) ys (width, good) good' = (width, AllBlocks-append xs ys good good')

pub length-joined : (xs : List (List ℕ)) → AllBlocks xs → length (joined xs) ≡ 64 * length xs
unfolding joined
length-joined [] good = refl
length-joined (x ∷ xs) (width, good) =
    omega (arith, length-append x (joined xs), length-joined xs good)

-- What `sha256_final` is to compute for a message: the state after the blocks of the padded message.
pub record IsDigest (message digest : List ℕ) : Type 0 where
  pub blocks : List (List ℕ)
  pub good : AllBlocks blocks
  pub padded : joined blocks ≡ message ++ padding (length message)
  pub digests : digest ≡ output (chain first_state blocks)

pub joined-one :
    (blocks : List (List ℕ)) (block : List ℕ)
    → joined (blocks ++ block ∷ []) ≡ joined blocks ++ block
joined-one blocks block =
    joined-append blocks (block ∷ [])
    ∙ ap (λ t. joined blocks ++ t) (unfold joined in append-nil block)

pub joined-two : (block last : List ℕ) → joined (block ∷ last ∷ []) ≡ block ++ last
unfolding joined
joined-two block last = ap (λ t. block ++ t) (append-nil last)
